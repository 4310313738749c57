-- ===== src/Worker/CollectionRun.antt =====
-- `run_collection_job` of worker.py: the claim of the job, the loop over its providers, the parse jobs
-- that it creates, and the failure that takes the place of an exception. This file has the values that
-- the run computes, and the child module the transactions.
pub mod Steps
pub mod Claim
pub mod Outcomes
pub mod Kept
pub mod Collected
pub mod Closed
use invoices_codex.Prelude.{
  ℕ, zero, suc, String, ◌+◌, Bool, true, false, not, ◌&&◌, ◌||◌, Option, none, some, List, [], ◌∷◌,
  ◌++◌, map, length, ◌==◌, contains, joined, truthy, truthy?, if◌then◌else◌,
}
use invoices_codex.Env.{Env, Json, Loaded, Dict, text, num, texts, array}
use invoices_codex.Models.{
  JobStatus, queued, running, succeeded, failed, CollectionJob, InvoiceFile, ParseJob, ParseJobFile,
  ProviderConfig,
}
use invoices_codex.Store.{
  Db, Tx, Outcome, ok, raised, World, Fault, value_error, pure, raise, skip, reads, query, optional,
  exactly_one, modify, commit, draw_uuid, enqueue, add_event, save_collection_job, attempt,
  transaction, ◌>>=◌, ◌>>◌,
}
use invoices_codex.Jobs.Idempotency.{remember_key}
use invoices_codex.Jobs.ParseJobs.{FileDetails, file_row, parse_job_row, links}
use invoices_codex.Worker.Storage.{Disk, StoredObject, save_bytes}

pub record CollectedProviderFile : Type 0 where
  pub filename : String
  pub content : String
  pub mime_type : String

-- An entry of `failures`.
pub record Failure : Type 0 where
  pub provider : String
  pub code : String
  pub message : String

-- The provider executor, `Path(name).name`, `str` of a number, of an exception and of a JSON value, and
-- `_collection_failures_payload`.
pub record CollectionTools : Type 0 where
  pub execute_provider : ProviderConfig → String → String → Outcome (List CollectedProviderFile)
  pub path_name : String → String
  pub str_number : ℕ → String
  pub str_exc : Fault → String
  pub str_json : Json → String
  pub failures_payload : List Failure → String

-- What the loop has gathered: the failures, the file ids of each provider, and the two counts.
pub record Progress : Type 0 where
  pub failures : List Failure
  pub files_by_provider : List (String × List String)
  pub files_discovered : ℕ
  pub files_downloaded : ℕ

abbrev pub no_progress : Progress
no_progress = record {
  failures = [];
  files_by_provider = [];
  files_discovered = 0;
  files_downloaded = 0;
}

unfoldable pub add_failure : Progress → String → String → String → Progress
add_failure p provider code message = record p {
  failures = p.failures ++ (record { provider = provider; code = code; message = message }) ∷ [];
}

-- `files_by_provider.setdefault(provider, []).append(id)`
unfoldable pub add_file_id :
    String → String → List (String × List String) → List (String × List String)
add_file_id provider id [] = (provider, id ∷ []) ∷ []
add_file_id provider id ((p, ids) ∷ rest) =
    let rest' = add_file_id provider id rest in
    if p == provider then (p, ids ++ id ∷ []) ∷ rest else (p, ids) ∷ rest'

unfoldable pub add_downloaded : Progress → String → String → Progress
add_downloaded p provider id = record p {
  files_by_provider = add_file_id provider id p.files_by_provider;
  files_downloaded = p.files_downloaded + 1;
}

unfoldable pub claimed : ℕ → CollectionJob → CollectionJob
claimed now job = record job {
  status = running;
  started_at = some now;
  updated_at = now;
  error_message = none;
}

-- `SUCCEEDED if not failures else FAILED`
abbrev pub status_of : List Failure → JobStatus
status_of [] = succeeded
status_of (f ∷ fs) = failed

abbrev pub error_of : CollectionTools → List Failure → Option String
error_of tools [] = none
error_of tools (f ∷ fs) = some (tools.failures_payload (f ∷ fs))

-- The failure that a run without files and without failures ends in.
unfoldable pub with_no_files : Progress → Progress
unfolding add_failure
with_no_files p = elim p.failures [
  | [] ↦ elim p.files_downloaded [
    | zero ↦
        add_failure p "all" "NO_FILES_DOWNLOADED" "collection completed without downloadable files"
    | suc n ↦ p
  ]
  | f ∷ fs ↦ p
]

unfoldable pub finished_collection :
    CollectionTools → ℕ → CollectionJob → Progress → String → CollectionJob
finished_collection tools now job p parse_job_ids_json = record job {
  status = status_of p.failures;
  files_discovered = p.files_discovered;
  files_downloaded = p.files_downloaded;
  parse_job_ids_json = parse_job_ids_json;
  error_message = error_of tools p.failures;
  finished_at = some now;
  updated_at = now;
}

-- The one failure of a run that raised.
abbrev pub execution_failures : CollectionTools → Fault → List Failure
execution_failures tools e =
    (record {
      provider = "all";
      code = "COLLECTION_JOB_EXECUTION_ERROR";
      message = tools.str_exc e;
    })
    ∷ []

unfoldable pub failed_collection : CollectionTools → ℕ → CollectionJob → Fault → CollectionJob
failed_collection tools now job e = record job {
  status = failed;
  error_message = some (tools.failures_payload (execution_failures tools e));
  finished_at = some now;
  updated_at = now;
}

-- `provider_by_type.get(name)`: the last row of a type wins, as in the dict.
unfoldable pub provider_of : String → List ProviderConfig → Option ProviderConfig
provider_of name [] = none
provider_of name (p ∷ ps) = elim (provider_of name ps) [
  | some q ↦ some q
  | none ↦ if p.provider_type == name then some p else none
]

module _ (env : Env) (tools : CollectionTools) where
  -- `_decode_collection_list`
  unfoldable pub decoded_texts : List Json → List String
  decoded_texts [] = []
  decoded_texts (j ∷ js) =
      let rest = decoded_texts js in
      let normalized = env.lower (env.strip (elim j [ text s ↦ s | v ↦ tools.str_json v ])) in
      if normalized == "" then rest else normalized ∷ rest

  unfoldable pub decode_collection_list : Loaded → List String
  unfolding decoded_texts
  decode_collection_list (array js) = decoded_texts js
  decode_collection_list _ = []
