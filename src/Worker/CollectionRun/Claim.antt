-- ===== src/Worker/CollectionRun/Claim.antt =====
-- `run_collection_job` of worker.py on a job that another worker has claimed.
use invoices_codex.Prelude.{
  ℕ, String, ◌≡◌, refl, ap, ◌∙◌, Bool, true, false, none, ◌==◌, arith, IsKeyed, filter-save_kept,
  filter_holds,
}
use invoices_codex.Env.{Env, found, Selected, ReadsRows, filter_of_found, found_of_filter}
use invoices_codex.Models.{running, CollectionJob}
use invoices_codex.Store.{World, Db, ok, transaction, save_collection_job}
use invoices_codex.Worker.Storage.{Disk}
use invoices_codex.Worker.CollectionRun.{CollectionTools, claimed}
use invoices_codex.Worker.CollectionRun.Steps.{is_queued, claim_collection_job, run_collection_job}

abbrev pub collection_job_of : Env → String → Db → Selected CollectionJob
collection_job_of env id db = env.one_or_none (λ (j : CollectionJob). j.id == id) db.collection_jobs

-- A run of a job that is not queued returns the job's status and changes nothing.
pub run_collection_job-unclaimed :
    (env : Env) (disk : Disk) (tools : CollectionTools) (begun ended : ℕ) (id : String)
    (job : CollectionJob) (w : World)
    → collection_job_of env id w.db ≡ found job
    → is_queued job.status ≡ false
    → run_collection_job env disk tools begun ended id w ≡ (ok job.status, w)
unfolding run_collection_job claim_collection_job
run_collection_job-unclaimed env disk tools begun ended id job w known busy = ground arith

claim-found :
    (env : Env) (disk : Disk) (tools : CollectionTools) (now : ℕ) (id : String)
    (job : CollectionJob) (w : World)
    → collection_job_of env id w.db ≡ found job
    → is_queued job.status ≡ true
    → ((transaction (claim_collection_job env disk tools now id) w).0 ≡ ok none)
      × ((transaction (claim_collection_job env disk tools now id) w).1.db.collection_jobs
          ≡ save_collection_job (claimed now job) w.db.collection_jobs)
unfolding claim_collection_job
claim-found env disk tools now id job w known idle = (ground arith, ground arith)

claimed-kept :
    (now : ℕ) (job : CollectionJob)
    → ((claimed now job).id ≡ job.id) × ((claimed now job).status ≡ running)
unfolding claimed
claimed-kept now job = (refl, refl)

-- Of two workers that claim a queued job, the second one does not get it: its run returns `running`
-- and changes nothing.
pub claim_collection_job_once :
    (env : Env) (reads : ReadsRows env) (disk : Disk) (tools : CollectionTools)
    (now begun ended : ℕ) (id : String) (job : CollectionJob) (w : World)
    → IsKeyed (λ (j : CollectionJob). j.id) w.db.collection_jobs
    → collection_job_of env id w.db ≡ found job
    → is_queued job.status ≡ true
    → run_collection_job env disk tools begun ended id
        (transaction (claim_collection_job env disk tools now id) w).1
      ≡ (ok running, (transaction (claim_collection_job env disk tools now id) w).1)
unfolding save_collection_job
claim_collection_job_once env reads disk tools now begun ended id job w keyed known idle =
    let p : CollectionJob → Bool = λ j. j.id == id in
    let one = filter_of_found reads p w.db.collection_jobs job known in
    let kept = claimed-kept now job in
    let w' = (transaction (claim_collection_job env disk tools now id) w).1 in
    let still = found_of_filter reads p _ _ (
      rw ((claim-found env disk tools now id job w known idle).1) (
        filter-save_kept p (λ (j : CollectionJob). j.id) job (claimed now job) w.db.collection_jobs
          (ap (λ (s : String). s == id) kept.0 ∙ filter_holds p job w.db.collection_jobs one) kept.0
          keyed one)) in
    run_collection_job-unclaimed env disk tools begun ended id (claimed now job) w' still
      (rw kept.1 refl)
    ∙ ap (λ s. (ok s, w')) kept.1
