-- ===== src/Worker/Tasks.antt =====
-- The task functions of saas/tasks.py, as the handlers of the in-memory queue.
pub mod Ends
use invoices_codex.Prelude.{ℕ, String, Option, none, some, ◌==◌, if◌then◌else◌}
use invoices_codex.Env.{Env}
use invoices_codex.Store.{World, Outcome, ok, raised, value_error}
use invoices_codex.Jobs.ParseJobs.{parse_job_task}
use invoices_codex.Jobs.Reports.{report_job_task, report_cleanup_task}
use invoices_codex.Jobs.CollectionJobs.{collection_job_task}
use invoices_codex.Worker.Storage.{Disk}
use invoices_codex.Worker.ParseRun.{ParseTools, run_parse_job}
use invoices_codex.Worker.ReportRun.{ReportTools, run_report_job}
use invoices_codex.Worker.CollectionRun.{CollectionTools}
use invoices_codex.Worker.CollectionRun.Steps.{run_collection_job}
use invoices_codex.Worker.Cleanup.{run_report_retention_cleanup}
use invoices_codex.Worker.Queue.{Handlers}

-- What the jobs use, the two readings of the clock, and `int(text)`, which may raise.
pub record TaskTools : Type 0 where
  pub parse : ParseTools
  pub report : ReportTools
  pub collection : CollectionTools
  pub disk : Disk
  pub begun : ℕ
  pub ended : ℕ
  pub int_text : String → Option ℕ

-- A handler's result is dropped, an exception is not.
abbrev pub returned : {A : Type 0} → Outcome A × World → Outcome (Unit {0}) × World
returned (ok a, w) = (ok tt, w)
returned (raised e, w) = (raised e, w)

module _ (env : Env) (tools : TaskTools) where
  unfoldable pub run_parse_job_task : String → World → Outcome (Unit {0}) × World
  run_parse_job_task parse_job_id w =
      returned (run_parse_job env tools.parse tools.begun tools.ended parse_job_id w)

  unfoldable pub run_collection_job_task : String → World → Outcome (Unit {0}) × World
  run_collection_job_task collection_job_id w = returned (
      run_collection_job env tools.disk tools.collection tools.begun tools.ended collection_job_id
        w)

  unfoldable pub run_report_job_task : String → World → Outcome (Unit {0}) × World
  run_report_job_task report_id w =
      returned (run_report_job env tools.disk tools.report tools.begun tools.ended report_id w)

  -- The argument is the text of the retention days; the payload that enqueue_report_cleanup makes has it.
  unfoldable pub run_report_retention_cleanup_task : String → World → Outcome (Unit {0}) × World
  run_report_retention_cleanup_task retention_days w = elim (tools.int_text retention_days) [
    | none ↦ (raised (value_error "invalid literal for int()"), w)
    | some n ↦ returned (run_report_retention_cleanup env tools.disk tools.begun n w)
  ]

  -- The handlers under the names that the service enqueues.
  unfoldable pub task_handlers : Handlers
  task_handlers name =
      if name == parse_job_task
      then some run_parse_job_task
      else if name == collection_job_task
      then some run_collection_job_task
      else if name == report_job_task
      then some run_report_job_task
      else if name == report_cleanup_task
      then some run_report_retention_cleanup_task
      else none
