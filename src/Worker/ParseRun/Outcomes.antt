-- ===== src/Worker/ParseRun/Outcomes.antt =====
-- The ends of `run_parse_job` of worker.py.
use invoices_codex.Prelude.{
  ℕ, String, ◌≡◌, refl, sym, ap, ◌∙◌, Bool, inl, inr, ◌⊎◌, List, ◌∷◌, ◌++◌, ◌==◌, arith, length,
  List-cases, joined, ◌+◌, [], or_empty, some, none, IsKeyed, filter-save_kept, filter_holds,
}
use invoices_codex.Env.{Env, found, Selected, ReadsRows, filter_of_found, found_of_filter}
use invoices_codex.Models.{
  JobStatus, running, succeeded, failed, ParseJob, ParseJobFile, InvoiceFile, InvoiceRecord,
}
use invoices_codex.Store.{World, Db, Outcome, ok, save_parse_job, Outcome-cases, Fault, value_error}
use invoices_codex.Worker.ParseRun.{
  ParseTools, ParsedInvoice, given, invoice_row, started_job, finished_job, failed_job,
  invoice_rows, job_files, files_of_links, local_paths, run_parse_job,
}

abbrev pub parse_job_of : Env → String → Db → Selected ParseJob
parse_job_of env id db = env.one_or_none (λ (j : ParseJob). j.id == id) db.parse_jobs

-- One row for each parsed invoice in turn, with the job's tenant and a new id.
abbrev pub AreRows :
    Env → ParseTools → ℕ → ParseJob → ℕ → List ParsedInvoice → List InvoiceRecord → Type 0
AreRows env tools now job drawn [] [] = Unit
AreRows env tools now job drawn [] (i ∷ is) = ⊥
AreRows env tools now job drawn (r ∷ rs) [] = ⊥
AreRows env tools now job drawn (r ∷ rs) (i ∷ is) =
    (i ≡ record {
      id = env.uuid4 drawn;
      tenant_id = job.tenant_id;
      parse_job_id = job.id;
      vendor = or_empty r.vendor;
      file_name = or_empty r.file_name;
      invoice_number = r.invoice_number;
      invoice_date = given r.invoice_date;
      invoice_total = given r.invoice_total;
      invoice_vat = given r.invoice_vat;
      currency = "ILS";
      purpose = r.purpose;
      raw_json = tools.raw_json r;
      created_at = now;
    })
    × AreRows env tools now job (drawn + 1) rs is

invoice_rows-AreRows :
    (env : Env) (tools : ParseTools) (begun now : ℕ) (job : ParseJob) (drawn : ℕ)
    (rs : List ParsedInvoice)
    → AreRows env tools now job drawn rs
        (invoice_rows env tools now (started_job begun job) drawn rs)
unfolding invoice_rows invoice_row started_job
invoice_rows-AreRows env tools begun now job drawn [] = tt
invoice_rows-AreRows env tools begun now job drawn (r ∷ rs) =
    (refl, invoice_rows-AreRows env tools begun now job (drawn + 1) rs)

pub record Succeeded (env : Env) (tools : ParseTools) (begun ended : ℕ) (id : String)
    (job : ParseJob) (w : World) (r : Outcome JobStatus × World) : Type 0 where
  pub paths : List String
  pub records : List ParsedInvoice
  pub rows : List InvoiceRecord
  pub paths_found : local_paths tools (job_files env tools id w.db) ≡ ok paths
  pub records_parsed : tools.parse_paths paths job.debug ≡ ok records
  pub rows_new : AreRows env tools ended job w.drawn records rows
  pub status_succeeded : r.0 ≡ ok succeeded
  pub queue_kept : r.1.queue ≡ w.queue
  pub invoices_added : r.1.db.invoices ≡ w.db.invoices ++ rows
  pub job_finished :
      r.1.db.parse_jobs
      ≡ save_parse_job
          (record job {
            status = succeeded;
            started_at = some begun;
            records_count = length records;
            failed_count = 0;
            error_message = none;
            finished_at = some ended;
          })
          (save_parse_job
            (record job { status = running; started_at = some begun })
            w.db.parse_jobs)

pub record Failed (tools : ParseTools) (begun ended : ℕ) (job : ParseJob) (w : World)
    (r : Outcome JobStatus × World) : Type 0 where
  pub fault : Fault
  pub status_failed : r.0 ≡ ok failed
  pub queue_kept : r.1.queue ≡ w.queue
  pub invoices_kept : r.1.db.invoices ≡ w.db.invoices
  pub files_kept : r.1.db.files ≡ w.db.files
  pub job_failed :
      r.1.db.parse_jobs
      ≡ save_parse_job
          (record job {
            status = failed;
            started_at = some begun;
            failed_count = 1;
            error_message = some (tools.str_exc fault);
            finished_at = some ended;
          })
          (save_parse_job
            (record job { status = running; started_at = some begun })
            w.db.parse_jobs)

-- The files of a job do not depend on the rows of the jobs.
files_of_links_kept :
    (env : Env) (tools : ParseTools) (jobs : List ParseJob) (db : Db) (ls : List ParseJobFile)
    → files_of_links env tools ls (record db { parse_jobs = jobs }) ≡ files_of_links env tools ls db
files_of_links_kept env tools jobs db [] = refl
files_of_links_kept env tools jobs db (l ∷ ls) =
    ap (λ fs. env.all_rows (λ (f : InvoiceFile). f.id == l.file_id) db.files ++ fs)
      (files_of_links_kept env tools jobs db ls)

job_files_kept :
    (env : Env) (tools : ParseTools) (id : String) (jobs : List ParseJob) (db : Db)
    → job_files env tools id (record db { parse_jobs = jobs }) ≡ job_files env tools id db
unfolding job_files
job_files_kept env tools id jobs db =
    files_of_links_kept env tools jobs db
      (env.all_rows (λ (l : ParseJobFile). l.parse_job_id == id) db.parse_job_files)

started_job-id : (now : ℕ) (job : ParseJob) → (started_job now job).id ≡ job.id
unfolding started_job
started_job-id now job = refl

-- The job that the second transaction reads.
started-found :
    (env : Env) (reads : ReadsRows env) (now : ℕ) (id : String) (job : ParseJob)
    (rows : List ParseJob)
    → IsKeyed (λ (j : ParseJob). j.id) rows
    → env.one_or_none (λ (j : ParseJob). j.id == id) rows ≡ found job
    → env.one_or_none (λ (j : ParseJob). j.id == id) (save_parse_job (started_job now job) rows)
      ≡ found (started_job now job)
unfolding save_parse_job
started-found env reads now id job rows keyed known =
    let p : ParseJob → Bool = λ j. j.id == id in
    let one = filter_of_found reads p rows job known in
    found_of_filter reads p _ _ (
      filter-save_kept p (λ (j : ParseJob). j.id) job (started_job now job) rows
        (ap (λ (s : String). s == id) (started_job-id now job) ∙ filter_holds p job rows one)
        (started_job-id now job) keyed one)

-- A run of a job that the database holds always returns a status. Either it succeeds, adds one row, with the job's
-- tenant and id, for each invoice that the parser gives for the paths of the job's files, and stores their count, or it
-- fails, and then invoices and files are as before and the job holds the message of the exception. The queue is left as it is.
pub run_parse_job-outcomes :
    (env : Env) (reads : ReadsRows env) (tools : ParseTools) (begun ended : ℕ) (id : String)
    (job : ParseJob) (w : World)
    → IsKeyed (λ (j : ParseJob). j.id) w.db.parse_jobs
    → parse_job_of env id w.db ≡ found job
    → Succeeded env tools begun ended id job w (run_parse_job env tools begun ended id w)
      ⊎ Failed tools begun ended job w (run_parse_job env tools begun ended id w)
unfolding run_parse_job started_job finished_job failed_job
run_parse_job-outcomes env reads tools begun ended id job w keyed known =
    let known' = started-found env reads begun id job w.db.parse_jobs keyed known in
    let db' = record w.db { parse_jobs = save_parse_job (started_job begun job) w.db.parse_jobs } in
    let files = job_files env tools id db' in
    elim (List-cases files) [
      | inl e ↦ inr (record {
        fault = value_error (joined "parse job has no files: " (started_job begun job).id);
        status_failed = ground arith;
        queue_kept = ground arith;
        invoices_kept = ground arith;
        files_kept = ground arith;
        job_failed = ground arith;
      })
      | inr (f, (fs, e)) ↦ elim (Outcome-cases (local_paths tools (f ∷ fs))) [
        | inr (x, e') ↦ inr (record {
          fault = x;
          status_failed = ground arith;
          queue_kept = ground arith;
          invoices_kept = ground arith;
          files_kept = ground arith;
          job_failed = ground arith;
        })
        | inl (paths, e') ↦
            elim (Outcome-cases (tools.parse_paths paths (started_job begun job).debug)) [
              | inr (x, e'') ↦ inr (record {
                fault = x;
                status_failed = ground arith;
                queue_kept = ground arith;
                invoices_kept = ground arith;
                files_kept = ground arith;
                job_failed = ground arith;
              })
              | inl (records, e'') ↦ inl (record {
                paths = paths;
                records = records;
                rows = invoice_rows env tools ended (started_job begun job) w.drawn records;
                paths_found =
                    ap (local_paths tools) (
                      sym (
                        job_files_kept env tools id
                          (save_parse_job (started_job begun job) w.db.parse_jobs) w.db)
                      ∙ e)
                    ∙ e';
                records_parsed = e'';
                rows_new = invoice_rows-AreRows env tools begun ended job w.drawn records;
                status_succeeded = ground arith;
                queue_kept = ground arith;
                invoices_added = ground arith;
                job_finished = ground arith;
              })
            ]
      ]
    ]
