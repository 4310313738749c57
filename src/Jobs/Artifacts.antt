-- ===== src/Jobs/Artifacts.antt =====
-- `list_report_artifacts` and `record_audit_event` of service.py.
use invoices_codex.Prelude.{ℕ, String, Option, List, length, ◌==◌}
use invoices_codex.Env.{Env, Dict}
use invoices_codex.Models.{ReportArtifact}
use invoices_codex.Store.{Outcome, World, reads, add_event, commit, transaction, ◌>>◌}
use invoices_codex.Jobs.Repository.{TenantScoped, list_newest}

abbrev pub artifact_model : TenantScoped ReportArtifact
artifact_model = record {
  tenant_of = λ a. a.tenant_id;
  created_at_of = λ a. a.created_at;
  id_of = λ a. a.id;
}

module _ (env : Env) where
  -- The listing has no limit, that is one of as many as there are rows.
  unfoldable list_report_artifacts : String → String → World → Outcome (List ReportArtifact) × World
  list_report_artifacts tenant_id report_id = transaction (
      reads (λ db.
        list_newest env artifact_model tenant_id (λ a. a.report_id == report_id)
          (length db.artifacts) 0 db.artifacts))

  unfoldable record_audit_event :
      ℕ → String → String → Dict → Option String → World → Outcome (Unit {0}) × World
  record_audit_event now tenant_id event_type payload actor =
      transaction do add_event env now tenant_id event_type actor payload; commit
