-- ===== src/Worker/CollectionRun/Closed.antt =====
-- The transaction of `run_collection_job` that does the work.
use invoices_codex.Prelude.{
  ℕ, String, ◌≡◌, ap, ◌∙◌, Bool, inl, inr, ◌⊎◌, List, ◌∷◌, ◌==◌, arith, ◌&&◌, contains, List-cases,
}
use invoices_codex.Env.{Env, found}
use invoices_codex.Models.{JobStatus, CollectionJob, ProviderConfig}
use invoices_codex.Store.{
  Session, Outcome, ok, raised, save_collection_job, Outcome-cases, Fault, value_error,
}
use invoices_codex.Worker.Storage.{Disk}
use invoices_codex.Worker.CollectionRun.{
  CollectionTools, Progress, no_progress, with_no_files, decode_collection_list, status_of,
  finished_collection,
}
use invoices_codex.Worker.CollectionRun.Steps.{collect_providers, spawn_parse_jobs, collection_body}
use invoices_codex.Worker.CollectionRun.Kept.{
  collect_providers-IsKept, spawn_parse_jobs-IsKept, close_collection-done,
}

-- The provider rows of a job.
abbrev pub job_providers :
    Env → CollectionTools → CollectionJob → List ProviderConfig → List ProviderConfig
job_providers env tools job rows =
    env.all_rows
      (λ (p : ProviderConfig).
        (p.tenant_id == job.tenant_id)
        && contains p.provider_type
            (decode_collection_list env tools (env.loads job.providers_json)))
      rows

abbrev pub job_names : Env → CollectionTools → CollectionJob → List String
job_names env tools job = decode_collection_list env tools (env.loads job.providers_json)

-- The work of a run that came to its commit.
pub record Closed (env : Env) (disk : Disk) (tools : CollectionTools) (ended : ℕ)
    (job : CollectionJob) (s : Session) (r : Outcome JobStatus) (rows' : List CollectionJob)
    : Type 0 where
  pub progress : Progress
  pub parse_job_ids : List String
  pub collected :
      (collect_providers env disk tools ended job
        (job_providers env tools job s.pending.providers)
        (job_names env tools job)
        no_progress
        s).0
      ≡ ok progress
  pub status_returned : r ≡ ok (status_of (with_no_files progress).failures)
  pub job_finished :
      rows'
      ≡ save_collection_job
          (finished_collection tools ended job
            (with_no_files progress)
            (env.dumps_texts parse_job_ids))
          s.pending.collection_jobs

-- The transaction that does the work ends with its commit, or raises and has stored nothing.
pub collection_body-outcomes :
    (env : Env) (disk : Disk) (tools : CollectionTools) (now : ℕ) (id : String)
    (job : CollectionJob) (s : Session)
    → env.one_or_none (λ (j : CollectionJob). j.id == id) s.pending.collection_jobs ≡ found job
    → Closed env disk tools now job s
        (collection_body env disk tools now id s).0
        (collection_body env disk tools now id s).1.stored.collection_jobs
      ⊎ ((e : Fault) × (((collection_body env disk tools now id s).0 ≡ raised e)
            × ((collection_body env disk tools now id s).1.stored ≡ s.stored)))
unfolding collection_body
collection_body-outcomes env disk tools now id job s known =
    elim (List-cases (decode_collection_list env tools (env.loads job.providers_json))) [
      | inl nothing ↦
          inr (value_error "collection job has no providers", (ground arith, ground arith))
      | inr (q, (qs, e)) ↦
          let wanted : ProviderConfig → Bool =
            λ p. (p.tenant_id == job.tenant_id) && contains p.provider_type (q ∷ qs) in
          let rows = env.all_rows wanted s.pending.providers in
          let collected = collect_providers env disk tools now job rows (q ∷ qs) no_progress s in
          let kept = collect_providers-IsKept env disk tools now job rows (q ∷ qs) no_progress s in
          elim (Outcome-cases collected.0) [
            | inr (x, h) ↦ inr (x, (ground (arith, kept), ground (arith, kept)))
            | inl (p, h) ↦
                let spawned =
                  spawn_parse_jobs env disk tools now job p.files_by_provider collected.1 in
                let kept' =
                  spawn_parse_jobs-IsKept env disk tools now job p.files_by_provider collected.1 in
                elim (Outcome-cases spawned.0) [
                  | inr (x, h') ↦
                      inr (x, (ground (arith, kept, kept'), ground (arith, kept, kept')))
                  | inl (ids, h') ↦
                      let done =
                        close_collection-done env disk tools now job (with_no_files p) ids
                          spawned.1 in
                      inl (record {
                        progress = p;
                        parse_job_ids = ids;
                        collected =
                            ap
                              (λ (l : List String).
                                (collect_providers env disk tools now job
                                  (env.all_rows
                                    (λ (x : ProviderConfig).
                                      (x.tenant_id == job.tenant_id) && contains x.provider_type l)
                                    s.pending.providers)
                                  l no_progress s).0)
                              e
                            ∙ h;
                        status_returned = ground (arith, done);
                        job_finished = ground (arith, kept, kept', done);
                      })
                ]
          ]
    ]
