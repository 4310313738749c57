-- ===== src/Worker/ParseRun.antt =====
-- `run_parse_job` of worker.py.
pub mod Outcomes
use invoices_codex.Prelude.{
  ℕ, String, ◌+◌, Bool, true, Option, none, some, List, [], ◌∷◌, ◌++◌, map, length, ◌==◌, or_empty,
  joined,
}
use invoices_codex.Env.{Env, text, text_or_null}
use invoices_codex.Models.{
  JobStatus, running, succeeded, failed, FileStatus, parsed, InvoiceFile, ParseJob, ParseJobFile,
  InvoiceRecord,
}
use invoices_codex.Store.{
  Db, Tx, Outcome, ok, raised, World, Fault, value_error, pure, raise, reads, query, optional,
  exactly_one, modify, commit, draw_uuid, and_then, save_parse_job, save_file, attempt, afterwards,
  ◌>>=◌, ◌>>◌,
}

-- An attribute of a parsed record that should be a date, or a number (by its bit pattern); `other` is
-- any value of another kind, `None` included.
pub data Attribute : Type 0 where
  value : ℕ → Attribute
  other : Attribute

-- What `parse_paths` gives for each invoice.
pub record ParsedInvoice : Type 0 where
  pub vendor : Option String
  pub file_name : Option String
  pub invoice_number : Option String
  pub invoice_date : Attribute
  pub invoice_total : Attribute
  pub invoice_vat : Attribute
  pub purpose : Option String

-- `_to_date` and `_safe_float`
abbrev pub given : Attribute → Option ℕ
given (value n) = some n
given other = none

-- The parser, the storage's `resolve_local_path`, `str(exc)`, and `json.dumps` of a record's payload.
pub record ParseTools : Type 0 where
  pub parse_paths : List String → Bool → Outcome (List ParsedInvoice)
  pub resolve_local_path : String → Outcome String
  pub str_exc : Fault → String
  pub raw_json : ParsedInvoice → String

unfoldable pub started_job : ℕ → ParseJob → ParseJob
started_job now job = record job { status = running; started_at = some now }

unfoldable pub finished_job : ℕ → ParseJob → ℕ → ParseJob
finished_job now job records_count = record job {
  records_count = records_count;
  failed_count = 0;
  error_message = none;
  status = succeeded;
  finished_at = some now;
}

unfoldable pub failed_job : ℕ → ParseJob → String → ParseJob
failed_job now job message = record job {
  status = failed;
  failed_count = 1;
  error_message = some message;
  finished_at = some now;
}

unfoldable pub invoice_row : ParseTools → ℕ → String → ParseJob → ParsedInvoice → InvoiceRecord
invoice_row tools now id job r = record {
  id = id;
  tenant_id = job.tenant_id;
  parse_job_id = job.id;
  vendor = or_empty r.vendor;
  file_name = or_empty r.file_name;
  invoice_number = r.invoice_number;
  invoice_date = given r.invoice_date;
  invoice_total = given r.invoice_total;
  invoice_vat = given r.invoice_vat;
  currency = "ILS";
  purpose = r.purpose;
  raw_json = tools.raw_json r;
  created_at = now;
}

unfoldable pub mark_parsed : List InvoiceFile → List InvoiceFile → List InvoiceFile
mark_parsed [] rows = rows
mark_parsed (f ∷ fs) rows = mark_parsed fs (save_file (record f { status = parsed }) rows)

-- `[storage.resolve_local_path(item.storage_path) for item in files]`
unfoldable pub local_paths : ParseTools → List InvoiceFile → Outcome (List String)
local_paths tools [] = ok []
local_paths tools (f ∷ fs) =
    let rest = local_paths tools fs in
    and_then (tools.resolve_local_path f.storage_path)
      λ path. and_then rest λ paths. ok (path ∷ paths)

module _ (env : Env) (tools : ParseTools) where
  -- One row for each record; the ids are drawn in turn.
  unfoldable pub invoice_rows : ℕ → ParseJob → ℕ → List ParsedInvoice → List InvoiceRecord
  invoice_rows now job drawn [] = []
  invoice_rows now job drawn (r ∷ rs) =
      invoice_row tools now (env.uuid4 drawn) job r ∷ invoice_rows now job (drawn + 1) rs

  abbrev parse_job_by_id : String → Db → Outcome (Option ParseJob)
  parse_job_by_id id db = optional (env.one_or_none (λ (j : ParseJob). j.id == id) db.parse_jobs)

  -- The files of a job: `ParseJobFile` joined with `InvoiceFile`.
  abbrev pub files_of_links : List ParseJobFile → Db → List InvoiceFile
  files_of_links [] db = []
  files_of_links (l ∷ ls) db =
      env.all_rows (λ (f : InvoiceFile). f.id == l.file_id) db.files ++ files_of_links ls db

  unfoldable pub job_files : String → Db → List InvoiceFile
  job_files id db =
      files_of_links (env.all_rows (λ (l : ParseJobFile). l.parse_job_id == id) db.parse_job_files)
        db

  abbrev pub start_parse_job : ℕ → String → Tx (Unit {0})
  start_parse_job now id = do
    found ← query (parse_job_by_id id)
    elim found [
      | none ↦ raise (value_error (joined "parse job not found: " id))
      | some job ↦ do
        modify (λ db. record db { parse_jobs = save_parse_job (started_job now job) db.parse_jobs })
        commit
    ]

  -- `session.add(InvoiceRecord(...))` for every record
  abbrev add_invoices : ℕ → ParseJob → List ParsedInvoice → Tx (Unit {0})
  add_invoices now job records s = (
    ok tt,
    record s {
      pending = record s.pending {
        invoices = s.pending.invoices ++ invoice_rows now job s.outside.drawn records;
      };
      outside = record s.outside { drawn = s.outside.drawn + length records };
    },
  )

  abbrev parse_files : ℕ → ParseJob → List InvoiceFile → Tx JobStatus
  parse_files now job [] = raise (value_error (joined "parse job has no files: " job.id))
  parse_files now job (f ∷ fs) = do
    paths ← query (λ db. local_paths tools (f ∷ fs))
    records ← query (λ db. tools.parse_paths paths job.debug)
    add_invoices now job records
    modify (λ db. record db {
      files = mark_parsed (f ∷ fs) db.files;
      parse_jobs = save_parse_job (finished_job now job (length records)) db.parse_jobs;
    })
    commit
    pure succeeded

  abbrev pub parse_job_body : ℕ → String → Tx JobStatus
  parse_job_body now id = do
    job ← query (λ db. exactly_one (env.one_or_none (λ (j : ParseJob). j.id == id) db.parse_jobs))
    files ← reads (job_files id)
    parse_files now job files

  abbrev pub fail_parse_job : ℕ → String → Fault → Tx JobStatus
  fail_parse_job now id e = do
    job ← query (λ db. exactly_one (env.one_or_none (λ (j : ParseJob). j.id == id) db.parse_jobs))
    modify (λ db. record db {
      parse_jobs = save_parse_job (failed_job now job (tools.str_exc e)) db.parse_jobs;
    })
    commit
    pure failed

  -- `begun` and `ended` are the two readings of the clock.
  unfoldable pub run_parse_job : ℕ → ℕ → String → World → Outcome JobStatus × World
  run_parse_job begun ended id =
      afterwards (start_parse_job begun id)
        (attempt (parse_job_body ended id) (fail_parse_job ended id))
