-- ===== src/Jobs/Dashboard.antt =====
-- `list_invoices`, `get_invoice` and `dashboard_summary` of service.py.
use invoices_codex.Prelude.{
  ℕ, String, Bool, true, ◌&&◌, Option, none, some, List, ◌==◌, ltb, leb, truthy?, if◌then◌else◌,
}
use invoices_codex.Env.{Env}
use invoices_codex.Models.{
  JobStatus, queued, running, succeeded, failed, InvoiceFile, InvoiceRecord, ParseJob, Report,
}
use invoices_codex.Store.{
  Db, Outcome, World, value_error, pure, raise_if, reads, query, optional, transaction, ◌>>=◌, ◌>>◌,
}
use invoices_codex.Jobs.Repository.{TenantScoped, one_or_none, list_newest, count}
use invoices_codex.Jobs.ParseJobs.{parse_job_model}
use invoices_codex.Jobs.Reports.{report_model, same_status}

abbrev pub invoice_model : TenantScoped InvoiceRecord
invoice_model = record {
  tenant_of = λ i. i.tenant_id;
  created_at_of = λ i. i.created_at;
  id_of = λ i. i.id;
}

abbrev pub file_model : TenantScoped InvoiceFile
file_model = record {
  tenant_of = λ f. f.tenant_id;
  created_at_of = λ f. f.created_at;
  id_of = λ f. f.id;
}

-- The filters of a listing of invoices.
pub record InvoiceFilters : Type 0 where
  pub parse_job_id : Option String
  pub vendor : Option String
  pub from_date : Option ℕ
  pub to_date : Option ℕ

abbrev equal_if_given : Option String → String → Bool
equal_if_given none s = true
equal_if_given (some wanted) s = if wanted == "" then true else s == wanted

abbrev from_if_given : Option ℕ → Option ℕ → Bool
from_if_given none d = true
from_if_given (some from) none = Bool.false
from_if_given (some from) (some d) = leb from d

abbrev to_if_given : Option ℕ → Option ℕ → Bool
to_if_given none d = true
to_if_given (some to) none = Bool.false
to_if_given (some to) (some d) = leb d to

-- The numbers of `dashboard_summary`; its lists of recent rows come beside them.
pub record StatusCounts : Type 0 where
  pub queued_count : ℕ
  pub running_count : ℕ
  pub succeeded_count : ℕ
  pub failed_count : ℕ

pub record DashboardSummary : Type 0 where
  pub files : ℕ
  pub parse_jobs : ℕ
  pub invoices : ℕ
  pub reports : ℕ
  pub parse_jobs_by_status : StatusCounts
  pub reports_by_status : StatusCounts
  pub recent_parse_jobs : List ParseJob
  pub recent_reports : List Report

abbrev vendor_of : Option String → String
vendor_of none = ""
vendor_of (some v) = v

module _ (env : Env) where
  -- `like s t` is SQL's `lower(s) LIKE '%' || lower(t) || '%'`.
  abbrev invoice_wanted : (String → String → Bool) → InvoiceFilters → InvoiceRecord → Bool
  invoice_wanted like f i =
      equal_if_given f.parse_job_id i.parse_job_id
      && ((if truthy? f.vendor then like i.vendor (vendor_of f.vendor) else true)
          && (from_if_given f.from_date i.invoice_date && to_if_given f.to_date i.invoice_date))

  unfoldable pub list_invoices :
      (String → String → Bool)
      → String
      → InvoiceFilters
      → ℕ
      → ℕ
      → World
      → Outcome (List InvoiceRecord × ℕ) × World
  list_invoices like tenant_id f limit offset = transaction do
    raise_if (ltb limit 1) (value_error "limit must be >= 1")
    total ← reads (λ db. count env invoice_model tenant_id (invoice_wanted like f) db.invoices)
    items ← reads (λ db.
        list_newest env invoice_model tenant_id (invoice_wanted like f) limit offset db.invoices)
    pure (items, total)

  unfoldable pub get_invoice : String → String → World → Outcome (Option InvoiceRecord) × World
  get_invoice tenant_id invoice_id = transaction (
      query (λ db.
        optional (one_or_none env invoice_model tenant_id (λ i. i.id == invoice_id) db.invoices)))

  abbrev all_of : {A : Type 0} → A → Bool
  all_of a = true

  abbrev count_statuses :
      {A : Type 0} → TenantScoped A → (A → JobStatus) → String → List A → StatusCounts
  count_statuses model status tenant_id rows = record {
    queued_count = count env model tenant_id (λ a. same_status (status a) queued) rows;
    running_count = count env model tenant_id (λ a. same_status (status a) running) rows;
    succeeded_count = count env model tenant_id (λ a. same_status (status a) succeeded) rows;
    failed_count = count env model tenant_id (λ a. same_status (status a) failed) rows;
  }

  unfoldable pub summary : String → Db → DashboardSummary
  summary tenant_id db = record {
    files = count env file_model tenant_id all_of db.files;
    parse_jobs = count env parse_job_model tenant_id all_of db.parse_jobs;
    invoices = count env invoice_model tenant_id all_of db.invoices;
    reports = count env report_model tenant_id all_of db.reports;
    parse_jobs_by_status = count_statuses parse_job_model (λ j. j.status) tenant_id db.parse_jobs;
    reports_by_status = count_statuses report_model (λ r. r.status) tenant_id db.reports;
    recent_parse_jobs = list_newest env parse_job_model tenant_id all_of 10 0 db.parse_jobs;
    recent_reports = list_newest env report_model tenant_id all_of 10 0 db.reports;
  }

  unfoldable pub dashboard_summary : String → World → Outcome DashboardSummary × World
  unfolding summary
  dashboard_summary tenant_id = transaction (reads (summary tenant_id))
