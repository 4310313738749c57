-- ===== src/Worker/ReportRun/Outcomes.antt =====
-- The ends of `run_report_job` of worker.py.
use invoices_codex.Prelude.{
  ℕ, String, ◌≡◌, refl, ap, ◌∙◌, Bool, inl, inr, ◌⊎◌, List, [], ◌∷◌, ◌==◌, arith, IsKeyed,
  filter-save_kept, filter_holds, Option-cases, ◌+◌, ◌++◌, All, not, some, none, filter,
  delete_where,
}
use invoices_codex.Env.{
  Env, Json, null, text, num, bool, texts, other, found, Selected, ReadsRows, filter_of_found,
  found_of_filter,
}
use invoices_codex.Models.{
  JobStatus, running, succeeded, failed, Report, ReportArtifact, InvoiceRecord,
}
use invoices_codex.Store.{World, Db, Session, Outcome, ok, save_report, Outcome-cases, Fault}
use invoices_codex.Worker.Storage.{Disk, save_bytes}
use invoices_codex.Worker.ReportRun.{
  ReportTools, Written, formats_or_default, loaded_list, started_report, finished_report,
  failed_report, report_file, artifact_key, report_invoices, write_artifacts, renewed_artifacts,
  artifact_rows, artifact_row, report_body, run_report_job,
}

abbrev pub report_of : Env → String → Db → Selected Report
report_of env id db = env.one_or_none (λ (r : Report). r.id == id) db.reports

-- The formats of the artifacts written.
abbrev pub written_formats : List Written → List Json
written_formats [] = []
written_formats (a ∷ as') = text a.format ∷ written_formats as'

abbrev pub row_formats : List ReportArtifact → List Json
row_formats [] = []
row_formats (a ∷ as') = text a.format ∷ row_formats as'

delete_where-filter :
    {A : Type 0} (p : A → Bool) (xs : List A) → delete_where p xs ≡ filter (λ x. not (p x)) xs
unfolding delete_where filter
delete_where-filter p [] = refl
delete_where-filter p (x ∷ xs) = ground (arith, delete_where-filter p xs)

-- The rows of what was written.
module _ (env : Env) (disk : Disk) (tools : ReportTools) (now begun : ℕ) (r : Report) where
  artifact_rows-formats :
      (drawn : ℕ) (written : List Written)
      → row_formats (artifact_rows env disk tools now (started_report begun r) drawn written)
        ≡ written_formats written
  unfolding artifact_rows artifact_row
  artifact_rows-formats drawn [] = refl
  artifact_rows-formats drawn (a ∷ as') =
      ap (λ l. text a.format ∷ l) (artifact_rows-formats (drawn + 1) as')

  artifact_rows-owned :
      (drawn : ℕ) (written : List Written)
      → All
          (λ (a : ReportArtifact). (a.tenant_id ≡ r.tenant_id) × (a.report_id ≡ r.id))
          (artifact_rows env disk tools now (started_report begun r) drawn written)
  unfolding artifact_rows artifact_row started_report
  artifact_rows-owned drawn [] = tt
  artifact_rows-owned drawn (a ∷ as') = ((refl, refl), artifact_rows-owned (drawn + 1) as')

  renewed-filter :
      (drawn : ℕ) (written : List Written) (rows : List ReportArtifact)
      → renewed_artifacts env disk tools now (started_report begun r) drawn written rows
        ≡ filter (λ a. not (a.report_id == r.id)) rows
          ++ artifact_rows env disk tools now (started_report begun r) drawn written
  unfolding renewed_artifacts started_report
  renewed-filter drawn written rows =
      ap (λ l. l ++ artifact_rows env disk tools now (started_report begun r) drawn written)
        (delete_where-filter (λ (a : ReportArtifact). a.report_id == r.id) rows)

save_bytes-tables :
    (disk : Disk) (key content : String) (s : Session)
    → ((save_bytes disk key content s).1.pending ≡ s.pending)
      × ((save_bytes disk key content s).1.stored ≡ s.stored)
      × ((save_bytes disk key content s).1.outside.drawn ≡ s.outside.drawn)
unfolding save_bytes
save_bytes-tables disk key content s = elim (Option-cases (disk.write_fault key)) [
  | inl fine ↦ (ground arith, ground arith, ground arith)
  | inr (e, refused) ↦ (ground arith, ground arith, ground arith)
]

-- Writing the artifacts touches the storage only.
write_artifacts-tables :
    (env : Env) (disk : Disk) (tools : ReportTools) (r : Report) (invoices : List InvoiceRecord)
    (js : List Json) (s : Session)
    → ((write_artifacts env disk tools r invoices js s).1.pending ≡ s.pending)
      × ((write_artifacts env disk tools r invoices js s).1.stored ≡ s.stored)
      × ((write_artifacts env disk tools r invoices js s).1.outside.drawn ≡ s.outside.drawn)
unfolding write_artifacts
write_artifacts-tables env disk tools r invoices [] s = (refl, refl, refl)
write_artifacts-tables env disk tools r invoices (text f ∷ js) s =
    elim (Option-cases (report_file tools invoices f)) [
      | inl unknown ↦ (ground arith, ground arith, ground arith)
      | inr ((file, content), e) ↦
          let key = artifact_key r file in
          let one = save_bytes-tables disk key content s in
          let rest =
            write_artifacts-tables env disk tools r invoices js (save_bytes disk key content s).1 in
          (ground (arith, one, rest), ground (arith, one, rest), ground (arith, one, rest))
    ]
write_artifacts-tables env disk tools r invoices (null ∷ js) s = (refl, refl, refl)
write_artifacts-tables env disk tools r invoices (num n ∷ js) s = (refl, refl, refl)
write_artifacts-tables env disk tools r invoices (bool b ∷ js) s = (refl, refl, refl)
write_artifacts-tables env disk tools r invoices (texts t ∷ js) s = (refl, refl, refl)
write_artifacts-tables env disk tools r invoices (other t ∷ js) s = (refl, refl, refl)

write_artifacts-formats :
    (env : Env) (disk : Disk) (tools : ReportTools) (r : Report) (invoices : List InvoiceRecord)
    (js : List Json) (s : Session) (written : List Written)
    → (write_artifacts env disk tools r invoices js s).0 ≡ ok written
    → written_formats written ≡ js
unfolding write_artifacts
write_artifacts-formats env disk tools r invoices [] s written h = ground arith
write_artifacts-formats env disk tools r invoices (text f ∷ js) s written h =
    elim (Option-cases (report_file tools invoices f)) [
      | inl unknown ↦ absurd (ground arith)
      | inr ((file, content), e) ↦
          let key = artifact_key r file in
          let s' = (save_bytes disk key content s).1 in
          elim (Outcome-cases (save_bytes disk key content s).0) [
            | inr (x, refused) ↦ absurd (ground arith)
            | inl (stored, e') ↦
                elim (Outcome-cases (write_artifacts env disk tools r invoices js s').0) [
                  | inr (x, refused) ↦ absurd (ground arith)
                  | inl (later, e'') ↦
                      let rest =
                        write_artifacts-formats env disk tools r invoices js s' later e'' in
                      ground (arith, rest)
                ]
          ]
    ]
write_artifacts-formats env disk tools r invoices (null ∷ js) s written h = absurd (ground arith)
write_artifacts-formats env disk tools r invoices (num n ∷ js) s written h = absurd (ground arith)
write_artifacts-formats env disk tools r invoices (bool b ∷ js) s written h = absurd (ground arith)
write_artifacts-formats env disk tools r invoices (texts t ∷ js) s written h = absurd (ground arith)
write_artifacts-formats env disk tools r invoices (other t ∷ js) s written h = absurd (ground arith)

pub record Succeeded (env : Env) (disk : Disk) (tools : ReportTools) (begun ended : ℕ)
    (report : Report) (w : World) (r : Outcome JobStatus × World) : Type 0 where
  pub formats : List Json
  pub new : List ReportArtifact
  pub status_succeeded : r.0 ≡ ok succeeded
  pub formats_read : loaded_list tools (env.loads report.requested_formats_json) ≡ ok formats
  pub formats_written : row_formats new ≡ formats_or_default formats
  pub new_owned :
      All (λ (a : ReportArtifact). (a.tenant_id ≡ report.tenant_id) × (a.report_id ≡ report.id)) new
  pub artifacts_renewed :
      r.1.db.artifacts ≡ filter (λ a. not (a.report_id == report.id)) w.db.artifacts ++ new
  pub report_finished :
      r.1.db.reports
      ≡ save_report
          (record report {
            status = succeeded;
            started_at = some begun;
            error_message = none;
            finished_at = some ended;
          })
          (save_report (record report { status = running; started_at = some begun }) w.db.reports)

pub record Failed (tools : ReportTools) (begun ended : ℕ) (report : Report) (w : World)
    (r : Outcome JobStatus × World) : Type 0 where
  pub fault : Fault
  pub status_failed : r.0 ≡ ok failed
  pub artifacts_kept : r.1.db.artifacts ≡ w.db.artifacts
  pub report_failed :
      r.1.db.reports
      ≡ save_report
          (record report {
            status = failed;
            started_at = some begun;
            error_message = some (tools.str_exc fault);
            finished_at = some ended;
          })
          (save_report (record report { status = running; started_at = some begun }) w.db.reports)

started_report-kept :
    (now : ℕ) (r : Report)
    → ((started_report now r).id ≡ r.id)
      × ((started_report now r).requested_formats_json ≡ r.requested_formats_json)
unfolding started_report
started_report-kept now r = (refl, refl)

started-found :
    (env : Env) (reads : ReadsRows env) (now : ℕ) (id : String) (r : Report) (rows : List Report)
    → IsKeyed (λ (x : Report). x.id) rows
    → env.one_or_none (λ (x : Report). x.id == id) rows ≡ found r
    → env.one_or_none (λ (x : Report). x.id == id) (save_report (started_report now r) rows)
      ≡ found (started_report now r)
unfolding save_report
started-found env reads now id r rows keyed known =
    let p : Report → Bool = λ x. x.id == id in
    let one = filter_of_found reads p rows r known in
    found_of_filter reads p _ _ (
      filter-save_kept p (λ (x : Report). x.id) r (started_report now r) rows
        (ap (λ (s : String). s == id) (started_report-kept now r).0 ∙ filter_holds p r rows one)
        (started_report-kept now r).0 keyed one)

-- A run of a report that the database holds always returns a status. Either it succeeds, and the report's
-- artifact rows are gone and in their place stands one new row for each format in turn, or it fails, and then
-- the artifact rows are as before and the report holds the message of the exception.
pub run_report_job-outcomes :
    (env : Env) (reads : ReadsRows env) (disk : Disk) (tools : ReportTools) (begun ended : ℕ)
    (id : String) (report : Report) (w : World)
    → IsKeyed (λ (r : Report). r.id) w.db.reports
    → report_of env id w.db ≡ found report
    → Succeeded env disk tools begun ended report w (run_report_job env disk tools begun ended id w)
      ⊎ Failed tools begun ended report w (run_report_job env disk tools begun ended id w)
unfolding run_report_job report_body started_report finished_report failed_report
run_report_job-outcomes env reads disk tools begun ended id report w keyed known =
    let known' = started-found env reads begun id report w.db.reports keyed known in
    let started = started_report begun report in
    let kept = started_report-kept begun report in
    let db' = record w.db { reports = save_report started w.db.reports } in
    elim (Outcome-cases (loaded_list tools (env.loads report.requested_formats_json))) [
      | inr (x, e) ↦ inr (record {
        fault = x;
        status_failed = ground (arith, kept);
        artifacts_kept = ground (arith, kept);
        report_failed = ground (arith, kept);
      })
      | inl (formats, e) ↦
          let s' : Session = record {
            stored = db';
            pending = db';
            outside = record w { db = db' };
          } in
          let invoices = report_invoices env disk tools started db' in
          let wanted = formats_or_default formats in
          let tables = write_artifacts-tables env disk tools started invoices wanted s' in
          elim (Outcome-cases (write_artifacts env disk tools started invoices wanted s').0) [
            | inr (x, e') ↦ inr (record {
              fault = x;
              status_failed = ground (arith, kept, tables);
              artifacts_kept = ground (arith, kept, tables);
              report_failed = ground (arith, kept, tables);
            })
            | inl (written, e') ↦ inl (record {
              formats = formats;
              new = artifact_rows env disk tools ended started w.drawn written;
              status_succeeded = ground (arith, kept, tables);
              formats_read = e;
              formats_written =
                  artifact_rows-formats env disk tools ended begun report w.drawn written
                  ∙ write_artifacts-formats env disk tools started invoices wanted s' written e';
              new_owned = artifact_rows-owned env disk tools ended begun report w.drawn written;
              artifacts_renewed =
                  ground (arith, kept, tables)
                  ∙ renewed-filter env disk tools ended begun report w.drawn written w.db.artifacts;
              report_finished = ground (arith, kept, tables);
            })
          ]
    ]
