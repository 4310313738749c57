-- ===== src/Jobs/Reports.antt =====
-- `create_report_job`, `get_report`, `list_reports`, `retry_report_job` and
-- `enqueue_report_cleanup` of service.py.
pub mod Retry
use invoices_codex.Prelude.{
  ℕ, String, Bool, true, false, not, ◌&&◌, Option, none, some, List, [], ◌∷◌, ◌++◌, map, ◌==◌,
  contains, ltb,
}
use invoices_codex.Env.{Env, Dict, text, texts, text_or_null}
use invoices_codex.Models.{
  JobStatus, queued, running, succeeded, failed, ParseJob, Report, ReportParseJob,
}
use invoices_codex.Store.{
  Db, Tx, Outcome, World, value_error, unknown_ids, pure, raise, raise_if, reads, query, optional,
  modify, draw_uuid, enqueue, add_event, commit, save_report, transaction, ◌>>=◌, ◌>>◌,
}
use invoices_codex.Jobs.Repository.{TenantScoped, one_or_none, list_newest, count}
use invoices_codex.Jobs.Idempotency.{
  normalize_key, resolve_idempotent_report, existing_for, remember_key, commit_or, winner,
}
use invoices_codex.Jobs.ParseJobs.{missing_from, is_empty}

abbrev pub report_job_task : String
report_job_task = "invplatform.saas.tasks.run_report_job_task"

abbrev pub report_cleanup_task : String
report_cleanup_task = "invplatform.saas.tasks.run_report_retention_cleanup_task"

abbrev pub report_allowed_formats : List String
report_allowed_formats = "json" ∷ "csv" ∷ "summary_csv" ∷ "pdf" ∷ []

abbrev pub default_formats : List String
default_formats = "json" ∷ "csv" ∷ "summary_csv" ∷ []

-- `formats or [...]`
abbrev pub requested_formats : List String → List String
requested_formats [] = default_formats
requested_formats (f ∷ fs) = f ∷ fs

abbrev pub report_model : TenantScoped Report
report_model = record {
  tenant_of = λ r. r.tenant_id;
  created_at_of = λ r. r.created_at;
  id_of = λ r. r.id;
}

abbrev pub report_links : ℕ → String → List String → List ReportParseJob
report_links now report_id [] = []
report_links now report_id (j ∷ js) =
    (record { report_id = report_id; parse_job_id = j; created_at = now })
    ∷ report_links now report_id js

unfoldable pub report_row : ℕ → String → String → Option String → String → String → String → Report
report_row now id tenant_id key formats_json filters_json queue_job_id = record {
  id = id;
  tenant_id = tenant_id;
  status = queued;
  idempotency_key = key;
  queue_job_id = some queue_job_id;
  requested_formats_json = formats_json;
  filters_json = filters_json;
  error_message = none;
  created_at = now;
  started_at = none;
  finished_at = none;
}

-- A report that is queued once more.
unfoldable pub requeued : Report → String → Report
requeued report queue_job_id = record report {
  queue_job_id = some queue_job_id;
  status = queued;
  error_message = none;
  started_at = none;
  finished_at = none;
}

-- `Report.status == status`, where a status is asked for.
abbrev pub same_status : JobStatus → JobStatus → Bool
same_status queued queued = true
same_status running running = true
same_status succeeded succeeded = true
same_status failed failed = true
same_status _ _ = false

abbrev pub has_status : Option JobStatus → JobStatus → Bool
has_status none s = true
has_status (some wanted) s = same_status wanted s

module _ (env : Env) where
  unfoldable pub missing_jobs : String → List String → Db → List String
  missing_jobs tenant_id ids db =
      missing_from
        (map (λ (j : ParseJob). j.id)
          (env.all_rows (λ (j : ParseJob). (j.tenant_id == tenant_id) && contains j.id ids)
            db.parse_jobs))
        ids

  unfoldable pub add_report :
      ℕ → String → List String → List String → Dict → Option String → Option Db → Tx Report
  add_report now tenant_id parse_job_ids formats filters key lost = do
    id ← draw_uuid env
    queue_job_id ← enqueue env report_job_task id
    let row =
        report_row now id tenant_id key (env.dumps_texts formats) (env.dumps filters) queue_job_id
    modify (λ db. record db {
      reports = db.reports ++ row ∷ [];
      report_parse_jobs = db.report_parse_jobs ++ report_links now id parse_job_ids;
    })
    remember_key env now tenant_id "reports.create" key "report" id
    add_event env now tenant_id "report.create" none (
        ("report_id", text id)
        ∷ ("queue_job_id", text queue_job_id)
        ∷ ("parse_job_ids", texts parse_job_ids)
        ∷ ("formats", texts formats)
        ∷ ("idempotency_key", text_or_null key)
        ∷ [])
    commit_or env lost (pure row) (winner env key (resolve_idempotent_report env tenant_id))

  unfoldable pub create_report_anew :
      ℕ
      → String
      → List String
      → List String
      → Dict
      → Option String
      → Option Db
      → Option Report
      → Tx Report
  create_report_anew now tenant_id parse_job_ids formats filters key lost (some existing) =
      pure existing
  create_report_anew now tenant_id parse_job_ids formats filters key lost none = do
    missing ← reads (missing_jobs tenant_id parse_job_ids)
    raise_if (not (is_empty missing)) (unknown_ids "unknown parse_job ids for tenant: " missing)
    add_report now tenant_id parse_job_ids formats filters key lost

  -- An absent list of ids, formats or filters is the empty one.
  unfoldable pub create_report_job :
      ℕ
      → String
      → List String
      → List String
      → Dict
      → Option String
      → Option Db
      → World
      → Outcome Report × World
  unfolding create_report_anew
  create_report_job now tenant_id parse_job_ids formats filters idempotency_key lost =
      transaction do
        let wanted = requested_formats formats
        let invalid = missing_from report_allowed_formats wanted
        raise_if (not (is_empty invalid)) (unknown_ids "unsupported report formats: " invalid)
        let key = normalize_key env idempotency_key
        existing ← existing_for env key (resolve_idempotent_report env tenant_id)
        create_report_anew now tenant_id parse_job_ids wanted filters key lost existing

  unfoldable pub get_report : String → String → World → Outcome (Option Report) × World
  get_report tenant_id report_id = transaction (
      query (λ db.
        optional (one_or_none env report_model tenant_id (λ r. r.id == report_id) db.reports)))

  unfoldable pub list_reports :
      String → Option JobStatus → ℕ → ℕ → World → Outcome (List Report × ℕ) × World
  list_reports tenant_id status limit offset = transaction do
    raise_if (ltb limit 1) (value_error "limit must be >= 1")
    let wanted = λ (r : Report). has_status status r.status
    total ← reads (λ db. count env report_model tenant_id wanted db.reports)
    items ← reads (λ db. list_newest env report_model tenant_id wanted limit offset db.reports)
    pure (items, total)

  unfoldable pub retry_report_job : ℕ → String → String → World → Outcome Report × World
  unfolding requeued
  retry_report_job now tenant_id report_id = transaction do
    found ← query (λ db.
        optional (one_or_none env report_model tenant_id (λ r. r.id == report_id) db.reports))
    elim found [
      | none ↦ raise (value_error "report not found")
      | some report ↦ do
        queue_job_id ← enqueue env report_job_task report.id
        let row = requeued report queue_job_id
        modify (λ db. record db { reports = save_report row db.reports })
        add_event env now tenant_id "report.retry" none
            (("report_id", text report.id) ∷ ("queue_job_id", text queue_job_id) ∷ [])
        commit
        pure row
    ]

  -- The task carries the days as a text.
  unfoldable pub enqueue_report_cleanup : (ℕ → String) → ℕ → World → Outcome String × World
  enqueue_report_cleanup str retention_days = transaction do
    raise_if (ltb retention_days 1) (value_error "retention_days must be >= 1")
    enqueue env report_cleanup_task (str retention_days)
