-- ===== src/Worker/CollectionRun/Steps.antt =====
-- The transactions of `run_collection_job` of worker.py.
use invoices_codex.Prelude.{
  ℕ, String, ◌+◌, Bool, true, false, not, ◌&&◌, ◌||◌, Option, none, some, List, [], ◌∷◌, ◌++◌,
  length, ◌==◌, contains, joined, truthy?, if◌then◌else◌,
}
use invoices_codex.Env.{Env, text, num, texts, other}
use invoices_codex.Models.{JobStatus, queued, succeeded, failed, CollectionJob, ProviderConfig}
use invoices_codex.Store.{
  Db, Tx, Outcome, ok, raised, World, Fault, value_error, pure, raise, reads, query, optional,
  exactly_one, modify, commit, draw_uuid, enqueue, add_event, save_collection_job, attempt,
  transaction, ◌>>=◌, ◌>>◌,
}
use invoices_codex.Jobs.Idempotency.{remember_key}
use invoices_codex.Jobs.ParseJobs.{file_row, parse_job_row, parse_job_task, links}
use invoices_codex.Worker.Storage.{Disk, save_bytes}
use invoices_codex.Worker.CollectionRun.{
  CollectedProviderFile, CollectionTools, Progress, no_progress, add_failure, add_downloaded,
  claimed, status_of, with_no_files, finished_collection, failed_collection, execution_failures,
  provider_of, decode_collection_list,
}

abbrev pub is_queued : JobStatus → Bool
is_queued queued = true
is_queued _ = false

module _ (env : Env) (disk : Disk) (tools : CollectionTools) where
  abbrev collection_by_id : String → Db → Outcome CollectionJob
  collection_by_id id db =
      exactly_one (env.one_or_none (λ (j : CollectionJob). j.id == id) db.collection_jobs)

  abbrev claim_job : ℕ → CollectionJob → Tx (Option JobStatus)
  claim_job now job = do
    modify (λ db. record db {
      collection_jobs = save_collection_job (claimed now job) db.collection_jobs;
    })
    add_event env now job.tenant_id "collection_job.run.started" none
        (("collection_job_id", text job.id) ∷ [])
    commit
    pure none

  -- The claim: the update that takes a job only from `queued`. A status is that of a job that was not
  -- taken.
  unfoldable pub claim_collection_job : ℕ → String → Tx (Option JobStatus)
  claim_collection_job now id = do
    found ←
        query
          (λ db. optional (env.one_or_none (λ (j : CollectionJob). j.id == id) db.collection_jobs))
    elim found [
      | none ↦ raise (value_error (joined "collection job not found: " id))
      | some job ↦ if is_queued job.status then claim_job now job else pure (some job.status)
    ]

  abbrev pub upload_key : CollectionJob → String → String → String → String
  upload_key job provider hex filename = joined "uploads/" (
      joined job.tenant_id (
        joined "/collection_" (
          joined job.id
            (joined "/" (joined provider (joined "/" (joined hex (joined "_" filename))))))))

  -- `Path(collected.filename).name or f"{provider_name}-{idx}.pdf"`
  abbrev pub file_name_of : String → ℕ → CollectedProviderFile → String
  file_name_of provider idx f =
      let name = tools.path_name f.filename in
      if name == ""
      then joined provider (joined "-" (joined (tools.str_number idx) ".pdf"))
      else name

  -- One collected file: an empty one is a failure, any other is stored and registered.
  unfoldable pub collect_file :
      ℕ → CollectionJob → String → ℕ → CollectedProviderFile → Progress → Tx Progress
  collect_file now job provider idx f p =
      if f.content == ""
      then pure (
          add_failure p provider "PROVIDER_FILE_EMPTY"
            (joined "provider returned empty file payload at index " (tools.str_number idx)))
      else do
        hex ← draw_uuid env
        let filename = file_name_of provider idx f
        stored ← save_bytes disk (upload_key job provider hex filename) f.content
        id ← draw_uuid env
        let row = file_row now id job.tenant_id (record {
          filename = filename;
          storage_path = stored.key;
          mime_type = f.mime_type;
          content_sha256 = some stored.sha256;
          bytes_size = some stored.size;
        })
        modify (λ db. record db { files = db.files ++ row ∷ [] })
        pure (add_downloaded p provider id)

  unfoldable pub collect_files :
      ℕ → CollectionJob → String → ℕ → List CollectedProviderFile → Progress → Tx Progress
  collect_files now job provider idx [] p = pure p
  collect_files now job provider idx (f ∷ fs) p = do
    p' ← collect_file now job provider idx f p
    collect_files now job provider (idx + 1) fs p'

  -- One provider of the job: absent, not connected, failing, or collected.
  unfoldable pub collect_provider :
      ℕ → CollectionJob → String → Option ProviderConfig → Progress → Tx Progress
  collect_provider now job name none p =
      pure (add_failure p name "PROVIDER_NOT_FOUND" "provider config not found")
  collect_provider now job name (some provider) p =
      if not (provider.connection_status == "connected")
        || not (truthy? provider.oauth_access_token_enc)
      then pure (add_failure p name "PROVIDER_NOT_CONNECTED" "provider is not connected")
      else elim (tools.execute_provider provider job.month_scope job.id) [
        | raised e ↦ pure (add_failure p name "PROVIDER_EXECUTOR_ERROR" (tools.str_exc e))
        | ok files ↦
            collect_files now job name 1 files
              (record p { files_discovered = p.files_discovered + length files })
      ]

  unfoldable pub collect_providers :
      ℕ → CollectionJob → List ProviderConfig → List String → Progress → Tx Progress
  collect_providers now job rows [] p = pure p
  collect_providers now job rows (name ∷ names) p = do
    p' ← collect_provider now job name (provider_of name rows) p
    collect_providers now job rows names p'

  -- The parse job of one provider's files; no other transaction holds its key.
  unfoldable pub spawn_parse_job : ℕ → CollectionJob → String → List String → Tx String
  spawn_parse_job now job provider file_ids = do
    let key = joined "collection:" (joined job.id (joined ":" provider))
    id ← draw_uuid env
    queue_job_id ← enqueue env parse_job_task id
    let row = parse_job_row now id job.tenant_id false (some key) queue_job_id
    modify (λ db. record db {
      parse_jobs = db.parse_jobs ++ row ∷ [];
      parse_job_files = db.parse_job_files ++ links now id file_ids;
    })
    remember_key env now job.tenant_id "parse_jobs.create" (some key) "parse_job" id
    add_event env now job.tenant_id "parse_job.create" none (
        ("parse_job_id", text id)
        ∷ ("queue_job_id", text queue_job_id)
        ∷ ("file_ids", texts file_ids)
        ∷ ("idempotency_key", text key)
        ∷ ("collection_job_id", text job.id)
        ∷ ("provider", text provider)
        ∷ [])
    pure id

  unfoldable pub spawn_parse_jobs :
      ℕ → CollectionJob → List (String × List String) → Tx (List String)
  spawn_parse_jobs now job [] = pure []
  spawn_parse_jobs now job ((provider, []) ∷ rest) = spawn_parse_jobs now job rest
  spawn_parse_jobs now job ((provider, f ∷ fs) ∷ rest) = do
    id ← spawn_parse_job now job provider (f ∷ fs)
    ids ← spawn_parse_jobs now job rest
    pure (id ∷ ids)

  abbrev event_of : JobStatus → String
  event_of succeeded = "collection_job.run.succeeded"
  event_of _ = "collection_job.run.failed"

  unfoldable pub close_collection : ℕ → CollectionJob → Progress → List String → Tx JobStatus
  close_collection now job p parse_job_ids = do
    modify (λ db. record db {
      collection_jobs =
          save_collection_job (finished_collection tools now job p (env.dumps_texts parse_job_ids))
            db.collection_jobs;
    })
    add_event env now job.tenant_id (event_of (status_of p.failures)) none (
        ("collection_job_id", text job.id)
        ∷ ("files_discovered", num p.files_discovered)
        ∷ ("files_downloaded", num p.files_downloaded)
        ∷ ("parse_job_ids", texts parse_job_ids)
        ∷ ("failure_count", num (length p.failures))
        ∷ [])
    commit
    pure (status_of p.failures)

  unfoldable pub collection_body : ℕ → String → Tx JobStatus
  collection_body now id = do
    job ← query (collection_by_id id)
    let providers = decode_collection_list env tools (env.loads job.providers_json)
    elim providers [
      | [] ↦ raise (value_error "collection job has no providers")
      | q ∷ qs ↦ do
        rows ← reads (λ db.
            env.all_rows
              (λ (p : ProviderConfig).
                (p.tenant_id == job.tenant_id) && contains p.provider_type (q ∷ qs))
              db.providers)
        p ← collect_providers now job rows (q ∷ qs) no_progress
        ids ← spawn_parse_jobs now job p.files_by_provider
        close_collection now job (with_no_files p) ids
    ]

  unfoldable pub fail_collection : ℕ → String → Fault → Tx JobStatus
  fail_collection now id e = do
    found ←
        query
          (λ db. optional (env.one_or_none (λ (j : CollectionJob). j.id == id) db.collection_jobs))
    elim found [
      | none ↦ raise (value_error (joined "collection job not found: " id))
      | some job ↦ do
        modify (λ db. record db {
          collection_jobs =
              save_collection_job (failed_collection tools now job e) db.collection_jobs;
        })
        add_event env now job.tenant_id "collection_job.run.failed" none (
            ("collection_job_id", text job.id)
            ∷ ("failure_count", num (length (execution_failures tools e)))
            ∷ ("provider_failures", other (tools.failures_payload (execution_failures tools e)))
            ∷ [])
        commit
        pure failed
    ]

  -- What follows the claim.
  abbrev after_claim : ℕ → String → Outcome (Option JobStatus) × World → Outcome JobStatus × World
  after_claim ended id (raised e, w) = (raised e, w)
  after_claim ended id (ok (some status), w) = (ok status, w)
  after_claim ended id (ok none, w) =
      attempt (collection_body ended id) (fail_collection ended id) w

  unfoldable pub run_collection_job : ℕ → ℕ → String → World → Outcome JobStatus × World
  run_collection_job begun ended id w =
      after_claim ended id (transaction (claim_collection_job begun id) w)
