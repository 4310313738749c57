-- ===== src/Worker/CollectionRun/Outcomes.antt =====
-- The ends of `run_collection_job` of worker.py.
use invoices_codex.Prelude.{
  ℕ, String, ◌≡◌, refl, ap, ◌∙◌, Bool, true, false, not, eqb, Option, some, if◌then◌else◌, [], none,
  inl, inr, ◌⊎◌, List, ◌∷◌, ◌==◌, arith, ◌&&◌, IsKeyed, filter-save_kept, filter_holds,
}
use invoices_codex.Env.{Env, found, ReadsRows, filter_of_found, found_of_filter}
use invoices_codex.Models.{JobStatus, succeeded, failed, CollectionJob, ProviderConfig}
use invoices_codex.Store.{World, Session, Outcome, ok, save_collection_job, Fault, transaction}
use invoices_codex.Worker.Storage.{Disk}
use invoices_codex.Worker.CollectionRun.{
  CollectionTools, Failure, error_of, no_progress, with_no_files, claimed, status_of,
  finished_collection, failed_collection,
}
use invoices_codex.Worker.CollectionRun.Collected.{
  no_failures, all_collected, discovered, downloaded, collect_providers-Adds, with_no_files-Adds,
}
use invoices_codex.Worker.CollectionRun.Claim.{collection_job_of}
use invoices_codex.Worker.CollectionRun.Steps.{
  is_queued, claim_collection_job, collection_body, fail_collection, run_collection_job,
}
use invoices_codex.Worker.CollectionRun.Closed.{
  job_providers, job_names, Closed, collection_body-outcomes,
}

-- A finished run is clean if every provider was collected and some file came.
abbrev pub is_clean : Env → CollectionTools → CollectionJob → List ProviderConfig → Bool
is_clean env tools job rows =
    all_collected tools job (job_providers env tools job rows) (job_names env tools job)
    && not
        (eqb (downloaded tools job (job_providers env tools job rows) (job_names env tools job)) 0)

pub record Finished (env : Env) (tools : CollectionTools) (begun ended : ℕ) (job : CollectionJob)
    (w : World) (r : Outcome JobStatus × World) : Type 0 where
  pub parse_job_ids : List String
  pub message : Option String
  pub clean : Bool
  pub clean_run : clean ≡ is_clean env tools (claimed begun job) w.db.providers
  pub status_returned : r.0 ≡ ok (if clean then succeeded else failed)
  pub message_given :
      ((clean ≡ true) × (message ≡ none)) ⊎ ((clean ≡ false) × ((t : String) × (message ≡ some t)))
  pub job_finished :
      r.1.db.collection_jobs
      ≡ save_collection_job
          (record job {
            status = if clean then succeeded else failed;
            started_at = some begun;
            files_discovered =
                discovered tools
                  (claimed begun job)
                  (job_providers env tools (claimed begun job) w.db.providers)
                  (job_names env tools (claimed begun job));
            files_downloaded =
                downloaded tools
                  (claimed begun job)
                  (job_providers env tools (claimed begun job) w.db.providers)
                  (job_names env tools (claimed begun job));
            parse_job_ids_json = env.dumps_texts parse_job_ids;
            error_message = message;
            finished_at = some ended;
            updated_at = ended;
          })
          (save_collection_job (claimed begun job) w.db.collection_jobs)

pub record Failed (tools : CollectionTools) (begun ended : ℕ) (job : CollectionJob) (w : World)
    (r : Outcome JobStatus × World) : Type 0 where
  pub fault : Fault
  pub status_failed : r.0 ≡ ok failed
  pub files_kept : r.1.db.files ≡ w.db.files
  pub parse_jobs_kept : r.1.db.parse_jobs ≡ w.db.parse_jobs
  pub job_failed :
      r.1.db.collection_jobs
      ≡ save_collection_job
          (record job {
            status = failed;
            started_at = some begun;
            error_message = some (
                tools.failures_payload (
                  (record {
                    provider = "all";
                    code = "COLLECTION_JOB_EXECUTION_ERROR";
                    message = tools.str_exc fault;
                  })
                  ∷ []));
            finished_at = some ended;
            updated_at = ended;
          })
          (save_collection_job (claimed begun job) w.db.collection_jobs)

claimed-id : (now : ℕ) (job : CollectionJob) → (claimed now job).id ≡ job.id
unfolding claimed
claimed-id now job = refl

claimed-found :
    (env : Env) (reads : ReadsRows env) (now : ℕ) (id : String) (job : CollectionJob)
    (rows : List CollectionJob)
    → IsKeyed (λ (j : CollectionJob). j.id) rows
    → env.one_or_none (λ (j : CollectionJob). j.id == id) rows ≡ found job
    → env.one_or_none
        (λ (j : CollectionJob). j.id == id)
        (save_collection_job (claimed now job) rows)
      ≡ found (claimed now job)
unfolding save_collection_job
claimed-found env reads now id job rows keyed known =
    let p : CollectionJob → Bool = λ j. j.id == id in
    let one = filter_of_found reads p rows job known in
    found_of_filter reads p _ _ (
      filter-save_kept p (λ (j : CollectionJob). j.id) job (claimed now job) rows
        (ap (λ (s : String). s == id) (claimed-id now job) ∙ filter_holds p job rows one)
        (claimed-id now job) keyed one)

fail_collection-done :
    (env : Env) (disk : Disk) (tools : CollectionTools) (now : ℕ) (id : String) (e : Fault)
    (job : CollectionJob) (s : Session)
    → env.one_or_none (λ (j : CollectionJob). j.id == id) s.pending.collection_jobs ≡ found job
    → ((fail_collection env disk tools now id e s).0 ≡ ok failed)
      × ((fail_collection env disk tools now id e s).1.stored.files ≡ s.pending.files)
      × ((fail_collection env disk tools now id e s).1.stored.parse_jobs ≡ s.pending.parse_jobs)
      × ((fail_collection env disk tools now id e s).1.stored.collection_jobs
          ≡ save_collection_job (failed_collection tools now job e) s.pending.collection_jobs)
unfolding fail_collection
fail_collection-done env disk tools now id e job s known =
    (ground arith, ground arith, ground arith, ground arith)

claim-stored :
    (env : Env) (disk : Disk) (tools : CollectionTools) (now : ℕ) (id : String)
    (job : CollectionJob) (w : World)
    → collection_job_of env id w.db ≡ found job
    → is_queued job.status ≡ true
    → ((transaction (claim_collection_job env disk tools now id) w).0 ≡ ok none)
      × ((transaction (claim_collection_job env disk tools now id) w).1.db.files ≡ w.db.files)
      × ((transaction (claim_collection_job env disk tools now id) w).1.db.parse_jobs
          ≡ w.db.parse_jobs)
      × ((transaction (claim_collection_job env disk tools now id) w).1.db.collection_jobs
          ≡ save_collection_job (claimed now job) w.db.collection_jobs)
      × ((transaction (claim_collection_job env disk tools now id) w).1.db.providers
          ≡ w.db.providers)
unfolding claim_collection_job
claim-stored env disk tools now id job w known idle =
    (ground arith, ground arith, ground arith, ground arith, ground arith)

status-clean : (fs : List Failure) → status_of fs ≡ (if no_failures fs then succeeded else failed)
status-clean [] = refl
status-clean (f ∷ fs) = refl

message-given :
    (tools : CollectionTools) (fs : List Failure)
    → ((no_failures fs ≡ true) × (error_of tools fs ≡ none))
      ⊎ ((no_failures fs ≡ false) × ((t : String) × (error_of tools fs ≡ some t)))
message-given tools [] = inl (refl, refl)
message-given tools (f ∷ fs) = inr (refl, (_, refl))

-- A run that came to its commit, said by what the providers gave.
Closed-Finished :
    (env : Env) (disk : Disk) (tools : CollectionTools) (begun ended : ℕ) (job : CollectionJob)
    (w : World) (s : Session) (r : Outcome JobStatus × World)
    → s.pending.providers ≡ w.db.providers
    → s.pending.collection_jobs ≡ save_collection_job (claimed begun job) w.db.collection_jobs
    → Closed env disk tools ended (claimed begun job) s r.0 r.1.db.collection_jobs
    → Finished env tools begun ended job w r
unfolding finished_collection claimed
Closed-Finished env disk tools begun ended job w s r same_rows same_jobs c =
    let started = claimed begun job in
    let rows = job_providers env tools started s.pending.providers in
    let names = job_names env tools started in
    let p = with_no_files c.progress in
    let adds =
      collect_providers-Adds env disk tools ended started rows names no_progress c.progress s
        c.collected in
    let closing = with_no_files-Adds c.progress in
    let found_count : p.files_discovered ≡ discovered tools started rows names =
      omega (arith, adds, closing) in
    let full : p.files_downloaded ≡ downloaded tools started rows names =
      omega (arith, adds, closing) in
    let build : JobStatus → ℕ → ℕ → List CollectionJob → List CollectionJob = λ status m n l.
      save_collection_job
        (record job {
          status = status;
          started_at = some begun;
          files_discovered = m;
          files_downloaded = n;
          parse_job_ids_json = env.dumps_texts c.parse_job_ids;
          error_message = error_of tools p.failures;
          finished_at = some ended;
          updated_at = ended;
        })
        l in
    let rows' = job_providers env tools started w.db.providers in
    let m' = discovered tools started rows' names in
    let n' = downloaded tools started rows' names in
    let status = if no_failures p.failures then succeeded else failed in
    record {
      parse_job_ids = c.parse_job_ids;
      message = error_of tools p.failures;
      clean = no_failures p.failures;
      clean_run = ground (arith, adds, closing) ∙ ap (is_clean env tools started) same_rows;
      status_returned = c.status_returned ∙ ap ok (status-clean p.failures);
      message_given = message-given tools p.failures;
      job_finished =
          c.job_finished
          ∙ ap (λ t. build t p.files_discovered p.files_downloaded s.pending.collection_jobs)
              (status-clean p.failures)
          ∙ ap (λ m. build status m p.files_downloaded s.pending.collection_jobs)
              (found_count
                ∙ ap (λ l. discovered tools started (job_providers env tools started l) names)
                    same_rows)
          ∙ ap (λ n. build status m' n s.pending.collection_jobs)
              (full
                ∙ ap (λ l. downloaded tools started (job_providers env tools started l) names)
                    same_rows)
          ∙ ap (build status m' n') same_jobs;
    }

-- A run of a queued job always returns a status. Either the job is stored as finished, with the status that is
-- returned and the numbers of files that its providers gave and that were not empty: it is `succeeded`, without a
-- message, just when every provider of the job was there, connected and gave its files, none of them empty, and some
-- file came. Or an exception is stored as the job's failure, and then no file and no parse job has been added.
pub run_collection_job-outcomes :
    (env : Env) (reads : ReadsRows env) (disk : Disk) (tools : CollectionTools) (begun ended : ℕ)
    (id : String) (job : CollectionJob) (w : World)
    → IsKeyed (λ (j : CollectionJob). j.id) w.db.collection_jobs
    → collection_job_of env id w.db ≡ found job
    → is_queued job.status ≡ true
    → Finished env tools begun ended job w (run_collection_job env disk tools begun ended id w)
      ⊎ Failed tools begun ended job w (run_collection_job env disk tools begun ended id w)
unfolding run_collection_job failed_collection claimed
run_collection_job-outcomes env reads disk tools begun ended id job w keyed known idle =
    let claim = claim-stored env disk tools begun id job w known idle in
    let w' = (transaction (claim_collection_job env disk tools begun id) w).1 in
    let s' : Session = record { stored = w'.db; pending = w'.db; outside = w' } in
    let known' = claimed-found env reads begun id job w.db.collection_jobs keyed known in
    let known'' : collection_job_of env id w'.db ≡ found (claimed begun job) =
      ap (env.one_or_none (λ (j : CollectionJob). j.id == id)) claim.3 ∙ known' in
    elim (collection_body-outcomes env disk tools ended id (claimed begun job) s' known'') [
      | inl f ↦ inl (
          Closed-Finished env disk tools begun ended job w s' _ claim.4 claim.3 (record {
            progress = f.progress;
            parse_job_ids = f.parse_job_ids;
            collected = f.collected;
            status_returned = ground (arith, claim, f.status_returned);
            job_finished = ground (arith, claim, f.status_returned, f.job_finished);
          }))
      | inr (e, h) ↦
          let o = (collection_body env disk tools ended id s').1.outside in
          let s'' : Session = record {
            stored = w'.db;
            pending = w'.db;
            outside = record o { db = w'.db };
          } in
          let done =
            fail_collection-done env disk tools ended id e (claimed begun job) s'' known'' in
          inr (record {
            fault = e;
            status_failed = ground (arith, claim, h, done);
            files_kept = ground (arith, claim, h, done);
            parse_jobs_kept = ground (arith, claim, h, done);
            job_failed = ground (arith, claim, h, done);
          })
    ]
