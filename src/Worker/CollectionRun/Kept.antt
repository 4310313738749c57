-- ===== src/Worker/CollectionRun/Kept.antt =====
-- The stages of `run_collection_job` of worker.py before its commit.
use invoices_codex.Prelude.{
  ℕ, String, ◌≡◌, refl, ◌+◌, Option, none, some, inl, inr, List, [], ◌∷◌, ◌==◌, arith, not, ◌||◌,
  truthy?, length, Option-cases, Bool-cases,
}
use invoices_codex.Env.{Env}
use invoices_codex.Models.{CollectionJob, ProviderConfig}
use invoices_codex.Store.{Session, ok, save_collection_job, Outcome-cases}
use invoices_codex.Worker.Storage.{Disk, save_bytes}
use invoices_codex.Worker.CollectionRun.{
  CollectionTools, CollectedProviderFile, Progress, provider_of, status_of, finished_collection,
}
use invoices_codex.Worker.CollectionRun.Steps.{
  collect_file, collect_files, collect_provider, collect_providers, spawn_parse_job,
  spawn_parse_jobs, close_collection, file_name_of, upload_key,
}

-- What stays until the commit that ends the run.
abbrev pub IsKept : Session → Session → Type 0
IsKept s s' = (s'.stored ≡ s.stored) × (s'.pending.collection_jobs ≡ s.pending.collection_jobs)

module _ (env : Env) (disk : Disk) (tools : CollectionTools) (now : ℕ) (job : CollectionJob) where
  collect_file-IsKept :
      (provider : String) (idx : ℕ) (f : CollectedProviderFile) (p : Progress) (s : Session)
      → IsKept s (collect_file env disk tools now job provider idx f p s).1
  unfolding collect_file save_bytes
  collect_file-IsKept provider idx f p s = elim (Bool-cases (f.content == "")) [
    | inl empty ↦ (ground arith, ground arith)
    | inr full ↦
        let name = file_name_of env disk tools provider idx f in
        let key = upload_key env disk tools job provider (env.uuid4 s.outside.drawn) name in
        elim (Option-cases (disk.write_fault key)) [
          | inl fine ↦ (ground arith, ground arith)
          | inr (e, refused) ↦ (ground arith, ground arith)
        ]
  ]

  collect_files-IsKept :
      (provider : String) (idx : ℕ) (fs : List CollectedProviderFile) (p : Progress) (s : Session)
      → IsKept s (collect_files env disk tools now job provider idx fs p s).1
  unfolding collect_files
  collect_files-IsKept provider idx [] p s = (refl, refl)
  collect_files-IsKept provider idx (f ∷ fs) p s =
      let o = collect_file env disk tools now job provider idx f p s in
      let first = collect_file-IsKept provider idx f p s in
      elim (Outcome-cases o.0) [
        | inr (e, h) ↦ (ground (arith, first), ground (arith, first))
        | inl (p', h) ↦
            let rest = collect_files-IsKept provider (idx + 1) fs p' o.1 in
            (ground (arith, first, rest), ground (arith, first, rest))
      ]

  collect_provider-IsKept :
      (name : String) (row : Option ProviderConfig) (p : Progress) (s : Session)
      → IsKept s (collect_provider env disk tools now job name row p s).1
  unfolding collect_provider
  collect_provider-IsKept name none p s = (refl, refl)
  collect_provider-IsKept name (some provider) p s =
      elim (Bool-cases (
        not (provider.connection_status == "connected")
        || not (truthy? provider.oauth_access_token_enc))) [
          | inl idle ↦ (rw idle refl, rw idle refl)
          | inr connected ↦
              elim (Outcome-cases (tools.execute_provider provider job.month_scope job.id)) [
                | inr (e, h) ↦ (rw (connected, h) refl, rw (connected, h) refl)
                | inl (files, h) ↦
                    rw (connected, h)
                      (collect_files-IsKept name 1 files
                        (record p { files_discovered = p.files_discovered + length files }) s)
              ]
        ]

  pub collect_providers-IsKept :
      (rows : List ProviderConfig) (names : List String) (p : Progress) (s : Session)
      → IsKept s (collect_providers env disk tools now job rows names p s).1
  unfolding collect_providers
  collect_providers-IsKept rows [] p s = (refl, refl)
  collect_providers-IsKept rows (name ∷ names) p s =
      let row = provider_of name rows in
      let o = collect_provider env disk tools now job name row p s in
      let first = collect_provider-IsKept name row p s in
      elim (Outcome-cases o.0) [
        | inr (e, h) ↦ (ground (arith, first), ground (arith, first))
        | inl (p', h) ↦
            let rest = collect_providers-IsKept rows names p' o.1 in
            (ground (arith, first, rest), ground (arith, first, rest))
      ]

  spawn_parse_job-IsKept :
      (provider : String) (ids : List String) (s : Session)
      → IsKept s (spawn_parse_job env disk tools now job provider ids s).1
  unfolding spawn_parse_job
  spawn_parse_job-IsKept provider ids s = (refl, refl)

  pub spawn_parse_jobs-IsKept :
      (groups : List (String × List String)) (s : Session)
      → IsKept s (spawn_parse_jobs env disk tools now job groups s).1
  unfolding spawn_parse_jobs
  spawn_parse_jobs-IsKept [] s = (refl, refl)
  spawn_parse_jobs-IsKept ((provider, []) ∷ rest) s = spawn_parse_jobs-IsKept rest s
  spawn_parse_jobs-IsKept ((provider, f ∷ fs) ∷ rest) s =
      let o = spawn_parse_job env disk tools now job provider (f ∷ fs) s in
      let first = spawn_parse_job-IsKept provider (f ∷ fs) s in
      elim (Outcome-cases o.0) [
        | inr (e, h) ↦ (ground (arith, first), ground (arith, first))
        | inl (id, h) ↦
            let later = spawn_parse_jobs-IsKept rest o.1 in
            elim (Outcome-cases (spawn_parse_jobs env disk tools now job rest o.1).0) [
              | inr (e, h') ↦ (ground (arith, first, later), ground (arith, first, later))
              | inl (ids, h') ↦ (ground (arith, first, later), ground (arith, first, later))
            ]
      ]

  pub close_collection-done :
      (p : Progress) (ids : List String) (s : Session)
      → ((close_collection env disk tools now job p ids s).0 ≡ ok (status_of p.failures))
        × ((close_collection env disk tools now job p ids s).1.stored.collection_jobs
            ≡ save_collection_job
                (finished_collection tools now job p (env.dumps_texts ids))
                s.pending.collection_jobs)
  unfolding close_collection
  close_collection-done p ids s = (refl, refl)
