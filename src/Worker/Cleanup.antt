-- ===== src/Worker/Cleanup.antt =====
-- `run_report_retention_cleanup` of worker.py.
pub mod Sweep
use invoices_codex.Prelude.{
  ℕ, String, ◌+◌, ◌-◌, ◌*◌, Bool, ◌&&◌, false, Option, none, some, List, [], ◌∷◌, ◌==◌, ltb,
  delete_where, if◌then◌else◌,
}
use invoices_codex.Env.{Env}
use invoices_codex.Models.{Report, ReportArtifact, ReportParseJob, IdempotencyRecord}
use invoices_codex.Store.{
  Db, Tx, Outcome, World, value_error, pure, raise, raise_if, reads, modify, commit, transaction,
  ◌>>=◌, ◌>>◌,
}
use invoices_codex.Worker.Storage.{Disk, delete}

-- `Report.finished_at.is_not(None)` and `Report.finished_at < cutoff`
abbrev pub is_stale : ℕ → Report → Bool
is_stale cutoff r = elim r.finished_at [ none ↦ false | some t ↦ ltb t cutoff ]

-- `timedelta(days=n)` in microseconds
abbrev pub days : ℕ → ℕ
days n = n * 86400000000

-- The rows that go with a report: its artifacts, its links, its idempotency records and itself.
unfoldable pub without_report : Report → Db → Db
without_report r db = record db {
  artifacts = delete_where (λ a. a.report_id == r.id) db.artifacts;
  report_parse_jobs = delete_where (λ l. l.report_id == r.id) db.report_parse_jobs;
  idempotency =
      delete_where (λ k. (k.resource_type == "report") && (k.resource_id == r.id)) db.idempotency;
  reports = delete_where (λ x. x.id == r.id) db.reports;
}

module _ (env : Env) (disk : Disk) where
  unfoldable pub delete_objects : List ReportArtifact → Tx (Unit {0})
  delete_objects [] = pure tt
  delete_objects (a ∷ as') = do delete disk a.storage_path; delete_objects as'

  -- The loop over the stale reports; `deleted` counts them.
  unfoldable pub clean_reports : ℕ → List Report → Tx ℕ
  unfolding delete_objects
  clean_reports deleted [] = pure deleted
  clean_reports deleted (r ∷ rs) = do
    artifacts ←
        reads (λ db. env.all_rows (λ (a : ReportArtifact). a.report_id == r.id) db.artifacts)
    delete_objects artifacts
    modify (without_report r)
    clean_reports (deleted + 1) rs

  unfoldable pub run_report_retention_cleanup : ℕ → ℕ → World → Outcome ℕ × World
  unfolding clean_reports
  run_report_retention_cleanup now retention_days = transaction do
    raise_if (ltb retention_days 1) (value_error "retention_days must be >= 1")
    let cutoff = now - days retention_days
    stale ← reads (λ db. env.all_rows (is_stale cutoff) db.reports)
    deleted ← clean_reports 0 stale
    commit
    pure deleted
