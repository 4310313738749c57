-- ===== src/Examples/Creations.antt =====
-- Creations of jobs, and reads by id.
use invoices_codex.Prelude.{String, ◌≡◌, refl, true, false, none, some, List, [], ◌∷◌, filter}
use invoices_codex.Env.{text}
use invoices_codex.Models.{InvoiceFile, uploaded, ParseJob, queued}
use invoices_codex.Store.{Db, World, ok}
use invoices_codex.Jobs.Idempotency.{resolve, resolve_idempotent_parse_job}
use invoices_codex.Jobs.ParseJobs.{
  job_key_taken, has_repeats, missing_files, add_parse_job, create_parse_job,
}
use invoices_codex.Jobs.ParseJobs.Retry.{Created, create_parse_job-Created, create_parse_job_retry}
use invoices_codex.Jobs.CollectionJobs.{allowed_providers, normalize_collection_providers}
use invoices_codex.Jobs.CollectionJobs.Normalized.{
  AreAllowed, normalize_collection_providers-AreAllowed,
}
use invoices_codex.Examples.Base.{env, env-reads, empty_db, world_of, value_or}

abbrev pub file : InvoiceFile
file = record {
  id = "f";
  tenant_id = "t";
  filename = "a.pdf";
  storage_path = "a";
  mime_type = "application/pdf";
  content_sha256 = none;
  bytes = none;
  status = uploaded;
  created_at = 1;
}

abbrev pub job : ParseJob
job = record {
  id = "j";
  tenant_id = "t";
  status = queued;
  idempotency_key = some "k";
  queue_job_id = some "q";
  debug = false;
  records_count = 0;
  failed_count = 0;
  error_message = none;
  created_at = 1;
  started_at = none;
  finished_at = none;
}

abbrev with_file : World
with_file = world_of (record empty_db { files = file ∷ [] })

-- What another call has left that won the race.
abbrev pub theirs : Db
theirs = record empty_db {
  files = file ∷ [];
  parse_jobs = job ∷ [];
  idempotency =
      (record {
        id = "r";
        tenant_id = "t";
        scope = "parse_jobs.create";
        idempotency_key = "k";
        resource_type = "parse_job";
        resource_id = "j";
        created_at = 1;
      })
      ∷ [];
}

abbrev created : ParseJob
created = value_or job (create_parse_job env 5 "t" ("f" ∷ []) false (some "k") none with_file).0

create_parse_job-Created_example :
    Created env 5 "t"
      ("f" ∷ [])
      false
      "k"
      created
      with_file
      (create_parse_job env 5 "t" ("f" ∷ []) false (some "k") none with_file).1
unfolding create_parse_job add_parse_job job_key_taken has_repeats missing_files
    resolve_idempotent_parse_job resolve filter
create_parse_job-Created_example =
    create_parse_job-Created env env-reads 5 "t" ("f" ∷ []) false (some "k") "k" created with_file
      refl refl refl

create_parse_job_retry_example :
    create_parse_job env 6 "t"
      ("g" ∷ [])
      true
      (some "k")
      none
      (create_parse_job env 5 "t" ("f" ∷ []) false (some "k") none with_file).1
    ≡ (ok created, (create_parse_job env 5 "t" ("f" ∷ []) false (some "k") none with_file).1)
unfolding create_parse_job add_parse_job job_key_taken has_repeats missing_files
    resolve_idempotent_parse_job resolve filter
create_parse_job_retry_example =
    create_parse_job_retry env env-reads 5 6 "t" ("f" ∷ []) ("g" ∷ []) false true (some "k") "k"
      created with_file refl refl refl refl refl

abbrev gmail_only : List String
gmail_only = "gmail" ∷ []

normalize_collection_providers-AreAllowed_example : AreAllowed gmail_only × ¬ (gmail_only ≡ [])
unfolding normalize_collection_providers allowed_providers
normalize_collection_providers-AreAllowed_example =
    normalize_collection_providers-AreAllowed env (text "gmail" ∷ text "gmail" ∷ []) gmail_only refl
