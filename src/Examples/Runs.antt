-- ===== src/Examples/Runs.antt =====
-- Runs of the worker's jobs.
use invoices_codex.Prelude.{◌≡◌, refl, ◌⊎◌, false, none, some, [], ◌∷◌, filter}
use invoices_codex.Models.{queued, running, ParseJob, Report, CollectionJob}
use invoices_codex.Store.{World, ok, transaction}
use invoices_codex.Worker.ParseRun.{run_parse_job}
use invoices_codex.Worker.ParseRun.Outcomes.{Succeeded, Failed, run_parse_job-outcomes}
use invoices_codex.Worker.ReportRun.{ReportTools, run_report_job}
use invoices_codex.Worker.ReportRun.Outcomes.{run_report_job-outcomes}
use invoices_codex.Worker.CollectionRun.{CollectionTools, claimed}
use invoices_codex.Worker.CollectionRun.Claim.{claim_collection_job_once}
use invoices_codex.Worker.CollectionRun.Outcomes.{run_collection_job-outcomes, Finished}
use invoices_codex.Worker.CollectionRun.Steps.{claim_collection_job, run_collection_job}
use invoices_codex.Worker.Cleanup.{run_report_retention_cleanup, clean_reports, delete_objects}
use invoices_codex.Worker.Cleanup.Sweep.{Swept, run_report_retention_cleanup-Swept}
use invoices_codex.Examples.Tools.{disk, file, parse_tools, collection_tools, report_tools}
use invoices_codex.Examples.Base.{env, env-reads, empty_db, world_of}

abbrev parse_job : ParseJob
parse_job = record {
  id = "j";
  tenant_id = "t";
  status = queued;
  idempotency_key = none;
  queue_job_id = some "q";
  debug = false;
  records_count = 0;
  failed_count = 0;
  error_message = none;
  created_at = 1;
  started_at = none;
  finished_at = none;
}

abbrev report : Report
report = record {
  id = "r";
  tenant_id = "t";
  status = queued;
  idempotency_key = none;
  queue_job_id = some "q";
  requested_formats_json = "formats";
  filters_json = "{}";
  error_message = none;
  created_at = 1;
  started_at = none;
  finished_at = some 1;
}

abbrev collection_job : CollectionJob
collection_job = record {
  id = "c";
  tenant_id = "t";
  status = queued;
  idempotency_key = none;
  providers_json = "providers";
  month_scope = "2024-01";
  queue_job_id = some "q";
  files_discovered = 0;
  files_downloaded = 0;
  parse_job_ids_json = "[]";
  error_message = none;
  created_at = 1;
  updated_at = 1;
  started_at = none;
  finished_at = none;
}

abbrev busy_job : CollectionJob
busy_job = record collection_job { status = running }

abbrev world : World
world = world_of (record empty_db {
  files = file ∷ [];
  parse_jobs = parse_job ∷ [];
  parse_job_files = (record { parse_job_id = "j"; file_id = "f"; created_at = 1 }) ∷ [];
  reports = report ∷ [];
  collection_jobs = collection_job ∷ [];
})

abbrev busy_world : World
busy_world = world_of (record empty_db { collection_jobs = busy_job ∷ [] })

run_parse_job-outcomes_example :
    Succeeded env parse_tools 5 6 "j" parse_job world (run_parse_job env parse_tools 5 6 "j" world)
    ⊎ Failed parse_tools 5 6 parse_job world (run_parse_job env parse_tools 5 6 "j" world)
unfolding filter
run_parse_job-outcomes_example =
    run_parse_job-outcomes env env-reads parse_tools 5 6 "j" parse_job world (tt, tt) refl

run_report_job-outcomes_example :
    invoices_codex.Worker.ReportRun.Outcomes.Succeeded env disk report_tools 5 6 report world
      (run_report_job env disk report_tools 5 6 "r" world)
    ⊎ invoices_codex.Worker.ReportRun.Outcomes.Failed report_tools 5 6 report world
        (run_report_job env disk report_tools 5 6 "r" world)
unfolding filter
run_report_job-outcomes_example =
    run_report_job-outcomes env env-reads disk report_tools 5 6 "r" report world (tt, tt) refl

run_collection_job-outcomes_example :
    Finished env collection_tools 5 6 collection_job world
      (run_collection_job env disk collection_tools 5 6 "c" world)
    ⊎ invoices_codex.Worker.CollectionRun.Outcomes.Failed collection_tools 5 6 collection_job world
        (run_collection_job env disk collection_tools 5 6 "c" world)
unfolding filter
run_collection_job-outcomes_example =
    run_collection_job-outcomes env env-reads disk collection_tools 5 6 "c" collection_job world
      (tt, tt) refl refl

claim_collection_job_once_example :
    run_collection_job env disk collection_tools 6 7 "c"
      (transaction (claim_collection_job env disk collection_tools 5 "c") world).1
    ≡ (ok running, (transaction (claim_collection_job env disk collection_tools 5 "c") world).1)
unfolding filter
claim_collection_job_once_example =
    claim_collection_job_once env env-reads disk collection_tools 5 6 7 "c" collection_job world
      (tt, tt) refl refl

run_report_retention_cleanup-Swept_example :
    Swept env 200000000000 1
      (report ∷ [])
      1
      (run_report_retention_cleanup env disk 200000000000 1 world).1.db.reports
unfolding run_report_retention_cleanup clean_reports delete_objects filter
run_report_retention_cleanup-Swept_example =
    run_report_retention_cleanup-Swept env disk 200000000000 1 world env-reads 1 (tt, tt) refl
