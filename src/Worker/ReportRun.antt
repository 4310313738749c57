-- ===== src/Worker/ReportRun.antt =====
-- `run_report_job` of worker.py.
pub mod Outcomes
use invoices_codex.Prelude.{
  ℕ, String, ◌+◌, Bool, ◌&&◌, true, false, Option, none, some, List, [], ◌∷◌, ◌++◌, map, ◌==◌,
  contains, delete_where, joined, if◌then◌else◌,
}
use invoices_codex.Env.{Env, Json, Loaded, Dict, text, num, null, text_or_null, array}
use invoices_codex.Models.{
  JobStatus, running, succeeded, failed, InvoiceRecord, Report, ReportParseJob, ReportArtifact,
}
use invoices_codex.Store.{
  Db, Tx, Outcome, ok, raised, World, Fault, value_error, external, pure, raise, reads, query,
  optional, exactly_one, modify, commit, draw_uuid, and_then, save_report, attempt, afterwards,
  ◌>>=◌, ◌>>◌,
}
use invoices_codex.Worker.Storage.{Disk, StoredObject, save_bytes}

-- `json.dumps` and `csv.DictWriter` over rows, the two files that need floats or pypdf, `str(exc)`,
-- and `list(v)` of a loaded value that is no array.
pub record ReportTools : Type 0 where
  pub json_rows : List Dict → String
  pub csv_rows : List String → List Dict → String
  pub summary_csv : List InvoiceRecord → String
  pub pdf : String
  pub number : ℕ → Json
  pub date_text : ℕ → String
  pub str_exc : Fault → String
  pub str_json : Json → String
  pub list_of : Loaded → Outcome (List Json)

abbrev date_or_null : ReportTools → Option ℕ → Json
date_or_null tools none = null
date_or_null tools (some d) = text (tools.date_text d)

abbrev number_or_null : ReportTools → Option ℕ → Json
number_or_null tools none = null
number_or_null tools (some x) = tools.number x

-- `_invoice_to_export_row`
unfoldable pub export_row : ReportTools → InvoiceRecord → Dict
export_row tools i =
    ("id", text i.id)
    ∷ ("parse_job_id", text i.parse_job_id)
    ∷ ("vendor", text i.vendor)
    ∷ ("file_name", text i.file_name)
    ∷ ("invoice_number", text_or_null i.invoice_number)
    ∷ ("invoice_date", date_or_null tools i.invoice_date)
    ∷ ("invoice_total", number_or_null tools i.invoice_total)
    ∷ ("invoice_vat", number_or_null tools i.invoice_vat)
    ∷ ("currency", text i.currency)
    ∷ ("purpose", text_or_null i.purpose)
    ∷ []

abbrev csv_columns : List String
csv_columns =
    "id" ∷ "parse_job_id" ∷ "vendor" ∷ "file_name" ∷ "invoice_number" ∷ "invoice_date"
    ∷ "invoice_total" ∷ "invoice_vat" ∷ "currency" ∷ "purpose" ∷ []

-- `_json_report_bytes` and `_csv_report_bytes`
unfoldable pub json_report_bytes : ReportTools → List InvoiceRecord → String
json_report_bytes tools records = tools.json_rows (map (export_row tools) records)

unfoldable pub csv_report_bytes : ReportTools → List InvoiceRecord → String
csv_report_bytes tools records = tools.csv_rows csv_columns (map (export_row tools) records)

unfoldable pub started_report : ℕ → Report → Report
started_report now r = record r { status = running; started_at = some now }

unfoldable pub finished_report : ℕ → Report → Report
finished_report now r = record r {
  error_message = none;
  status = succeeded;
  finished_at = some now;
}

unfoldable pub failed_report : ℕ → Report → String → Report
failed_report now r message = record r {
  status = failed;
  error_message = some message;
  finished_at = some now;
}

-- The name of the file that a format is written to, and its bytes; `none` is an unknown format.
unfoldable pub report_file : ReportTools → List InvoiceRecord → String → Option (String × String)
report_file tools invoices format =
    if format == "json"
    then some ("report.json", json_report_bytes tools invoices)
    else if format == "csv"
    then some ("report.csv", csv_report_bytes tools invoices)
    else if format == "summary_csv"
    then some ("report.summary.csv", tools.summary_csv invoices)
    else if format == "pdf"
    then some ("report.pdf", tools.pdf)
    else none

-- `artifacts/{tenant}/{report}/{file}`
abbrev pub artifact_key : Report → String → String
artifact_key r file =
    joined "artifacts/" (joined r.tenant_id (joined "/" (joined r.id (joined "/" file))))

-- A format with the stored object that holds it.
pub record Written : Type 0 where
  pub format : String
  pub path : String
  pub size : ℕ

unfoldable pub artifact_row : ℕ → Report → String → Written → ReportArtifact
artifact_row now r id a = record {
  id = id;
  tenant_id = r.tenant_id;
  report_id = r.id;
  format = a.format;
  storage_path = a.path;
  bytes = some a.size;
  created_at = now;
}

-- The formats of the report, or the three defaults where the list is empty.
abbrev pub formats_or_default : List Json → List Json
formats_or_default [] = text "json" ∷ text "csv" ∷ text "summary_csv" ∷ []
formats_or_default (f ∷ fs) = f ∷ fs

-- `list(json.loads(text))`
abbrev pub loaded_list : ReportTools → Loaded → Outcome (List Json)
loaded_list tools (array js) = ok js
loaded_list tools l = tools.list_of l

module _ (env : Env) (disk : Disk) (tools : ReportTools) where
  unfoldable pub artifact_rows : ℕ → Report → ℕ → List Written → List ReportArtifact
  artifact_rows now r drawn [] = []
  artifact_rows now r drawn (a ∷ as') =
      artifact_row now r (env.uuid4 drawn) a ∷ artifact_rows now r (drawn + 1) as'

  -- The loop over the formats, which stops at an unknown one or a refused write.
  unfoldable pub write_artifacts : Report → List InvoiceRecord → List Json → Tx (List Written)
  unfolding report_file
  write_artifacts r invoices [] = pure []
  write_artifacts r invoices (text format ∷ rest) = elim (report_file tools invoices format) [
    | none ↦ raise (value_error (joined "unsupported report format: " format))
    | some (file, content) ↦ do
      stored ← save_bytes disk (artifact_key r file) content
      later ← write_artifacts r invoices rest
      pure ((record { format = format; path = stored.key; size = stored.size }) ∷ later)
  ]
  write_artifacts r invoices (j ∷ rest) =
      raise (value_error (joined "unsupported report format: " (tools.str_json j)))

  abbrev report_by_id : String → Db → Outcome (Option Report)
  report_by_id id db = optional (env.one_or_none (λ (r : Report). r.id == id) db.reports)

  -- The tenant's invoices, or those of the jobs that the report names.
  unfoldable pub report_invoices : Report → Db → List InvoiceRecord
  report_invoices r db =
      elim (map (λ (l : ReportParseJob). l.parse_job_id)
        (env.all_rows (λ (l : ReportParseJob). l.report_id == r.id) db.report_parse_jobs)) [
          | [] ↦ env.all_rows (λ (i : InvoiceRecord). i.tenant_id == r.tenant_id) db.invoices
          | id ∷ ids ↦
              env.all_rows
                (λ (i : InvoiceRecord).
                  (i.tenant_id == r.tenant_id) && contains i.parse_job_id (id ∷ ids))
                db.invoices
        ]

  abbrev pub start_report : ℕ → String → Tx (Unit {0})
  start_report now id = do
    found ← query (report_by_id id)
    elim found [
      | none ↦ raise (value_error (joined "report not found: " id))
      | some r ↦ do
        modify (λ db. record db { reports = save_report (started_report now r) db.reports })
        commit
    ]

  -- The artifact rows of the report as they are after a run: the old ones are gone.
  unfoldable pub renewed_artifacts :
      ℕ → Report → ℕ → List Written → List ReportArtifact → List ReportArtifact
  renewed_artifacts now r drawn written rows =
      delete_where (λ a. a.report_id == r.id) rows ++ artifact_rows now r drawn written

  abbrev finish_report : ℕ → Report → List Written → Tx JobStatus
  finish_report now r written s =
      (do
        modify (λ db. record db {
          artifacts = renewed_artifacts now r s.outside.drawn written db.artifacts;
          reports = save_report (finished_report now r) db.reports;
        })
        commit
        pure succeeded)
        s

  unfoldable pub report_body : ℕ → String → Tx JobStatus
  report_body now id = do
    r ← query (λ db. exactly_one (env.one_or_none (λ (r : Report). r.id == id) db.reports))
    formats ← query (λ db. loaded_list tools (env.loads r.requested_formats_json))
    invoices ← reads (report_invoices r)
    written ← write_artifacts r invoices (formats_or_default formats)
    finish_report now r written

  abbrev pub fail_report : ℕ → String → Fault → Tx JobStatus
  fail_report now id e = do
    r ← query (λ db. exactly_one (env.one_or_none (λ (r : Report). r.id == id) db.reports))
    modify (λ db. record db {
      reports = save_report (failed_report now r (tools.str_exc e)) db.reports;
    })
    commit
    pure failed

  unfoldable pub run_report_job : ℕ → ℕ → String → World → Outcome JobStatus × World
  run_report_job begun ended id =
      afterwards (start_report begun id) (attempt (report_body ended id) (fail_report ended id))
