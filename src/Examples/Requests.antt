-- ===== src/Examples/Requests.antt =====
-- Requests for reports and collections that are sent twice.
use invoices_codex.Prelude.{String, ◌≡◌, refl, none, some, List, [], ◌∷◌, filter}
use invoices_codex.Env.{Json, text}
use invoices_codex.Models.{queued, Report, CollectionJob}
use invoices_codex.Store.{ok}
use invoices_codex.Jobs.Idempotency.{
  resolve, resolve_idempotent_report, resolve_idempotent_collection_job,
}
use invoices_codex.Jobs.Reports.{missing_jobs, add_report, create_report_job}
use invoices_codex.Jobs.Reports.Retry.{create_report_job-Created, create_report_job_retry}
use invoices_codex.Jobs.CollectionJobs.{
  add_collection_job, create_collection_job, allowed_providers, normalize_collection_providers,
  normalize_collection_month_scope,
}
use invoices_codex.Jobs.CollectionJobs.Retry.{create_collection_job_retry}
use invoices_codex.Examples.Base.{env, env-reads, world_of, value_or}
use invoices_codex.Examples.Creations.{theirs}

abbrev old_report : Report
old_report = record {
  id = "r";
  tenant_id = "t";
  status = queued;
  idempotency_key = some "k";
  queue_job_id = some "q";
  requested_formats_json = "formats";
  filters_json = "{}";
  error_message = none;
  created_at = 1;
  started_at = none;
  finished_at = none;
}

abbrev csv_only : List String
csv_only = "csv" ∷ []

abbrev no_jobs : List String
no_jobs = []

abbrev reported : Report
reported =
    value_or old_report
      (create_report_job env 5 "t" no_jobs csv_only [] (some "k") none (world_of theirs)).0

create_report_job-Created_example :
    invoices_codex.Jobs.Reports.Retry.Created env 5 "t" no_jobs csv_only [] "k" reported
      (world_of theirs)
      (create_report_job env 5 "t" no_jobs csv_only [] (some "k") none (world_of theirs)).1
unfolding create_report_job add_report missing_jobs resolve_idempotent_report resolve filter
create_report_job-Created_example =
    create_report_job-Created env env-reads 5 "t" no_jobs csv_only [] (some "k") "k" reported
      (world_of theirs) refl refl refl

create_report_job_retry_example :
    create_report_job env 6 "t"
      ("j" ∷ [])
      csv_only
      []
      (some "k")
      none
      (create_report_job env 5 "t" no_jobs csv_only [] (some "k") none (world_of theirs)).1
    ≡ (
      ok reported,
      (create_report_job env 5 "t" no_jobs csv_only [] (some "k") none (world_of theirs)).1,
    )
unfolding create_report_job add_report missing_jobs resolve_idempotent_report resolve filter
create_report_job_retry_example =
    create_report_job_retry env env-reads 5 6 "t" no_jobs ("j" ∷ []) csv_only [] [] (some "k") "k"
      reported (world_of theirs) refl refl refl refl

abbrev old_collection : CollectionJob
old_collection = record {
  id = "c";
  tenant_id = "t";
  status = queued;
  idempotency_key = none;
  providers_json = "providers";
  month_scope = "2024-01";
  queue_job_id = some "q";
  files_discovered = 0;
  files_downloaded = 0;
  parse_job_ids_json = "[]";
  error_message = none;
  created_at = 1;
  updated_at = 1;
  started_at = none;
  finished_at = none;
}

abbrev gmail : List Json
gmail = text "gmail" ∷ []

abbrev collected : CollectionJob
collected =
    value_or old_collection
      (create_collection_job env 5 "t" gmail (text "2024-01") (some "k") none none
        (world_of theirs)).0

create_collection_job_retry_example :
    create_collection_job env 6 "t" gmail
      (text "2024-01")
      (some "k")
      none
      none
      (create_collection_job env 5 "t" gmail
        (text "2024-01")
        (some "k")
        none
        none
        (world_of theirs)).1
    ≡ (
      ok collected,
      (create_collection_job env 5 "t" gmail
          (text "2024-01")
          (some "k")
          none
          none
          (world_of theirs)).1,
    )
unfolding create_collection_job add_collection_job normalize_collection_providers allowed_providers
    normalize_collection_month_scope resolve_idempotent_collection_job resolve filter
create_collection_job_retry_example =
    create_collection_job_retry env env-reads 5 6 "t" gmail (text "2024-01") (some "k") none none
      "k" collected (world_of theirs) refl refl refl refl
