-- ===== src/Jobs/CollectionJobs.antt =====
-- `create_collection_job`, `list_collection_jobs` and `get_collection_job` of service.py, with the
-- normalisation of their arguments.
pub mod Normalized
pub mod Retry
use invoices_codex.Prelude.{
  ℕ, String, Bool, true, false, not, ◌&&◌, ◌||◌, Option, none, some, List, [], ◌∷◌, ◌++◌, ◌==◌,
  contains, ltb, if◌then◌else◌,
}
use invoices_codex.Env.{Env, Json, text, texts, text_or_null}
use invoices_codex.Models.{JobStatus, queued, CollectionJob}
use invoices_codex.Store.{
  Db, Tx, Outcome, ok, raised, World, Fault, collection_error, pure, raise, raise_if, reads, query,
  optional, modify, draw_uuid, enqueue, add_event, and_then, transaction, ◌>>=◌, ◌>>◌,
}
use invoices_codex.Jobs.Repository.{TenantScoped, one_or_none, list_newest, count}
use invoices_codex.Jobs.Idempotency.{
  normalize_key, resolve_idempotent_collection_job, existing_for, remember_key, commit_or, winner,
}
use invoices_codex.Jobs.Reports.{has_status}

abbrev pub collection_job_task : String
collection_job_task = "invplatform.saas.tasks.run_collection_job_task"

abbrev pub provider_allowed_types : List String
provider_allowed_types = "gmail" ∷ "outlook" ∷ []

abbrev pub collection_model : TenantScoped CollectionJob
collection_model = record {
  tenant_of = λ j. j.tenant_id;
  created_at_of = λ j. j.created_at;
  id_of = λ j. j.id;
}

abbrev validation : String → Fault
validation message = collection_error "COLLECTION_VALIDATION_ERROR" message

module _ (env : Env) where
  -- The loop of `_normalize_collection_providers`: `kept` are the providers so far, which are the ones
  -- in `seen`.
  unfoldable pub allowed_providers : List String → List Json → Outcome (List String)
  allowed_providers kept [] = ok kept
  allowed_providers kept (text raw ∷ rest) =
      let provider = env.lower (env.strip raw) in
      let next =
        allowed_providers (if contains provider kept then kept else kept ++ provider ∷ []) rest in
      if contains provider provider_allowed_types
      then next
      else raised (validation "providers must only contain: gmail, outlook")
  allowed_providers kept (_ ∷ rest) = raised (validation "provider entries must be strings")

  unfoldable pub normalize_collection_providers : List Json → Outcome (List String)
  unfolding allowed_providers
  normalize_collection_providers [] = raised (validation "providers must be a non-empty list")
  normalize_collection_providers (p ∷ ps) = and_then (allowed_providers [] (p ∷ ps)) λ normalized.
      elim normalized [
        | [] ↦ raised (validation "providers must be a non-empty list")
        | q ∷ qs ↦ ok (q ∷ qs)
      ]

  unfoldable pub normalize_collection_month_scope : Json → Outcome String
  normalize_collection_month_scope (text raw) =
      let normalized = env.strip raw in
      if env.month_pattern normalized
      then ok normalized
      else raised (validation "month_scope must match YYYY-MM")
  normalize_collection_month_scope _ = raised (validation "month_scope must be a string")

  unfoldable pub collection_row :
      ℕ → String → String → Option String → String → String → String → CollectionJob
  collection_row now id tenant_id key providers_json month_scope queue_job_id = record {
    id = id;
    tenant_id = tenant_id;
    status = queued;
    idempotency_key = key;
    providers_json = providers_json;
    month_scope = month_scope;
    queue_job_id = some queue_job_id;
    files_discovered = 0;
    files_downloaded = 0;
    parse_job_ids_json = "[]";
    error_message = none;
    created_at = now;
    updated_at = now;
    started_at = none;
    finished_at = none;
  }

  unfoldable pub add_collection_job :
      ℕ
      → String
      → List String
      → String
      → Option String
      → Option String
      → Option Db
      → Option CollectionJob
      → Tx CollectionJob
  add_collection_job now tenant_id providers month_scope key actor lost (some existing) =
      pure existing
  add_collection_job now tenant_id providers month_scope key actor lost none = do
    id ← draw_uuid env
    queue_job_id ← enqueue env collection_job_task id
    let row =
        collection_row now id tenant_id key (env.dumps_texts providers) month_scope queue_job_id
    modify (λ db. record db { collection_jobs = db.collection_jobs ++ row ∷ [] })
    remember_key env now tenant_id "collection_jobs.create" key "collection_job" id
    add_event env now tenant_id "collection_job.create" actor (
        ("collection_job_id", text id)
        ∷ ("providers", texts providers)
        ∷ ("month_scope", text month_scope)
        ∷ ("status", text "queued")
        ∷ ("idempotency_key", text_or_null key)
        ∷ ("queue_job_id", text queue_job_id)
        ∷ [])
    commit_or env lost (pure row) (winner env key (resolve_idempotent_collection_job env tenant_id))

  unfoldable pub create_collection_job :
      ℕ
      → String
      → List Json
      → Json
      → Option String
      → Option String
      → Option Db
      → World
      → Outcome CollectionJob × World
  create_collection_job now tenant_id providers month_scope idempotency_key actor lost =
      transaction do
        providers' ← query (λ db. normalize_collection_providers providers)
        month_scope' ← query (λ db. normalize_collection_month_scope month_scope)
        let key = normalize_key env idempotency_key
        existing ← existing_for env key (resolve_idempotent_collection_job env tenant_id)
        add_collection_job now tenant_id providers' month_scope' key actor lost existing

  unfoldable pub list_collection_jobs :
      String → Option JobStatus → ℕ → ℕ → World → Outcome (List CollectionJob × ℕ) × World
  list_collection_jobs tenant_id status limit offset = transaction do
    raise_if (ltb limit 1) (validation "limit must be >= 1")
    let wanted = λ (j : CollectionJob). has_status status j.status
    total ← reads (λ db. count env collection_model tenant_id wanted db.collection_jobs)
    items ←
        reads
          (λ db. list_newest env collection_model tenant_id wanted limit offset db.collection_jobs)
    pure (items, total)

  unfoldable pub get_collection_job :
      String → String → World → Outcome (Option CollectionJob) × World
  get_collection_job tenant_id job_id = transaction (
      query (λ db.
        optional
          (one_or_none env collection_model tenant_id (λ j. j.id == job_id) db.collection_jobs)))
