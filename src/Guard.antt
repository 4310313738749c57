-- ===== src/Guard.antt =====
-- The tenant guard of saas/db.py: the listener that runs before every statement of a session, and
-- `_tenant_scope` of service.py, which tells it the tenant.
pub mod Isolation
use invoices_codex.Prelude.{
  ℕ, String, ◌+◌, Bool, true, false, not, ◌||◌, Option, none, some, List, [], ◌∷◌, ◌++◌, ◌==◌, map,
  length, if◌then◌else◌, truthy?,
}
use invoices_codex.Store.{Tx, Session, Outcome, ok, raised}

-- The mapped classes of models.py.
pub data Model : Type 0 where
  tenant user tenant_membership auth_session provider_config api_key invoice_file parse_job
        collection_job parse_job_file report_parse_job invoice_record report report_artifact
        audit_event idempotency_record :
      Model

-- `model in _tenant_scoped_models()`
unfoldable pub is_tenant_model : Model → Bool
is_tenant_model tenant = false
is_tenant_model user = false
is_tenant_model api_key = false
is_tenant_model parse_job_file = false
is_tenant_model report_parse_job = false
is_tenant_model _ = true

abbrev pub tenant_scoped_models : List Model
tenant_scoped_models =
    invoice_file ∷ parse_job ∷ collection_job ∷ invoice_record ∷ report ∷ report_artifact
    ∷ provider_config ∷ audit_event ∷ idempotency_record ∷ tenant_membership ∷ auth_session ∷ []

-- `session.info`
pub record Info : Type 0 where
  pub enforce_tenant_guard : Bool
  pub disable_tenant_guard : Bool
  pub tenant_id : Option String

-- What the listener reads of a statement, and the loader criteria that it adds: the rows of a model are those of a
-- tenant.
pub record Statement : Type 0 where
  pub is_select : Bool
  pub skip_tenant_guard : Bool
  pub entities : List Model
  pub criteria : List (Model × String)

unfoldable pub touches_tenant_model : List Model → Bool
unfolding is_tenant_model
touches_tenant_model [] = false
touches_tenant_model (m ∷ ms) = is_tenant_model m || touches_tenant_model ms

abbrev pub criteria_of : String → List Model → List (Model × String)
criteria_of t [] = []
criteria_of t (m ∷ ms) = (m, t) ∷ criteria_of t ms

-- A read that was let through, or `TenantGuardError`.
pub data Guarded (A : Type 0) : Type 0 where
  passed : A → Guarded A
  tenant_guard_error : Guarded A

-- `filtered_stmt`
abbrev pub scoped_by : String → Statement → Statement
scoped_by t stmt = record stmt { criteria = stmt.criteria ++ criteria_of t tenant_scoped_models }

abbrev pub scoped_statement : Option String → Statement → Guarded Statement
scoped_statement none stmt = tenant_guard_error
scoped_statement (some t) stmt = if t == "" then tenant_guard_error else passed (scoped_by t stmt)

-- `_enforce_tenant_scope`
unfoldable pub enforce_tenant_scope : Info → Statement → Guarded Statement
unfolding touches_tenant_model
enforce_tenant_scope info stmt =
    if not stmt.is_select
    then passed stmt
    else if not info.enforce_tenant_guard
    then passed stmt
    else if info.disable_tenant_guard
    then passed stmt
    else if stmt.skip_tenant_guard
    then passed stmt
    else if not (touches_tenant_model stmt.entities)
    then passed stmt
    else scoped_statement info.tenant_id stmt

-- A row, as far as the guard sees it.
pub record Row : Type 0 where
  pub model : Model
  pub tenant_of : String
  pub row_id : String

-- What runs a statement on the tables, with the listener in front of it.
module _ (run_statement : Statement → List Row → List Row) where
  unfoldable pub execute : Info → Statement → List Row → Guarded (List Row)
  execute info stmt rows = elim (enforce_tenant_scope info stmt) [
    | passed scoped ↦ passed (run_statement scoped rows)
    | tenant_guard_error ↦ tenant_guard_error
  ]

-- `_tenant_scope` around a body that reads and changes `session.info`: the `finally` runs whatever the body did.
unfoldable pub tenant_scope : {A : Type 0} → String → (Info → A × Info) → Info → A × Info
tenant_scope tenant_id body info =
    let (a, after) = body (record info { tenant_id = some tenant_id }) in
    (a, record after { tenant_id = info.tenant_id })
