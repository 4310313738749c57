-- ===== src/Guard/Isolation.antt =====
-- What a guarded read gives, and when it is refused.
use invoices_codex.Prelude.{
  String, ◌≡◌, refl, ◌⊎◌, true, false, none, some, inl, inr, List, [], ◌∷◌, ◌++◌, ◌==◌, arith, In,
  Bool-cases,
}
use invoices_codex.Guard.{
  Model, tenant, user, tenant_membership, auth_session, provider_config, api_key, invoice_file,
  parse_job, collection_job, parse_job_file, report_parse_job, invoice_record, report,
  report_artifact, audit_event, idempotency_record, is_tenant_model, tenant_scoped_models,
  criteria_of, Info, Statement, passed, tenant_guard_error, scoped_by, scoped_statement,
  touches_tenant_model, enforce_tenant_scope, Row, execute, tenant_scope,
}

In-append_right : {A : Type 0} (a : A) (xs ys : List A) → In a ys → In a (xs ++ ys)
In-append_right a [] ys i = i
In-append_right a (x ∷ xs) ys i = inr (In-append_right a xs ys i)

-- The two ways of saying which models are scoped agree.
criteria-tenant_model :
    (m : Model) (t : String)
    → is_tenant_model m ≡ true
    → In (m, t) (criteria_of t tenant_scoped_models)
unfolding is_tenant_model
criteria-tenant_model invoice_file t h = inl refl
criteria-tenant_model parse_job t h = inr (inl refl)
criteria-tenant_model collection_job t h = inr (inr (inl refl))
criteria-tenant_model invoice_record t h = inr (inr (inr (inl refl)))
criteria-tenant_model report t h = inr (inr (inr (inr (inl refl))))
criteria-tenant_model report_artifact t h = inr (inr (inr (inr (inr (inl refl)))))
criteria-tenant_model provider_config t h = inr (inr (inr (inr (inr (inr (inl refl))))))
criteria-tenant_model audit_event t h = inr (inr (inr (inr (inr (inr (inr (inl refl)))))))
criteria-tenant_model idempotency_record t h =
    inr (inr (inr (inr (inr (inr (inr (inr (inl refl))))))))
criteria-tenant_model tenant_membership t h =
    inr (inr (inr (inr (inr (inr (inr (inr (inr (inl refl)))))))))
criteria-tenant_model auth_session t h =
    inr (inr (inr (inr (inr (inr (inr (inr (inr (inr (inl refl))))))))))
criteria-tenant_model tenant t h = absurd (ground arith)
criteria-tenant_model user t h = absurd (ground arith)
criteria-tenant_model api_key t h = absurd (ground arith)
criteria-tenant_model parse_job_file t h = absurd (ground arith)
criteria-tenant_model report_parse_job t h = absurd (ground arith)

-- What the guard reads of a session and a statement before it adds its criteria.
pub record IsGuarded (info : Info) (stmt : Statement) : Type 0 where
  pub a_select : stmt.is_select ≡ true
  pub enforced : info.enforce_tenant_guard ≡ true
  pub not_disabled : info.disable_tenant_guard ≡ false
  pub not_skipped : stmt.skip_tenant_guard ≡ false
  pub touches : touches_tenant_model stmt.entities ≡ true

enforce-scoped :
    (info : Info) (stmt : Statement)
    → IsGuarded info stmt
    → enforce_tenant_scope info stmt ≡ scoped_statement info.tenant_id stmt
unfolding enforce_tenant_scope
enforce-scoped info stmt g =
    ground (arith, g.a_select, g.enforced, g.not_disabled, g.not_skipped, g.touches)

module _ (run_statement : Statement → List Row → List Row) where
  -- A guarded read without a tenant is refused, and so is one with an empty tenant id.
  pub execute-refused :
      (info : Info) (stmt : Statement) (rows : List Row)
      → IsGuarded info stmt
      → (info.tenant_id ≡ none) ⊎ (info.tenant_id ≡ some "")
      → execute run_statement info stmt rows ≡ tenant_guard_error
  unfolding execute
  execute-refused info stmt rows g (inl h) = ground (arith, enforce-scoped info stmt g)
  execute-refused info stmt rows g (inr h) = ground (arith, enforce-scoped info stmt g)

  module _
      (respects : (stmt : Statement) (rows : List Row) (r : Row) (t : String)
        → In r (run_statement stmt rows)
        → In (r.model, t) stmt.criteria
        → r.tenant_of ≡ t) where
    -- Inside `_tenant_scope`, where what runs the statement keeps to its loader criteria, a guarded read gives of
    -- the scoped models only rows of the tenant, and the session's own tenant is set back afterwards.
    pub tenant_scope-isolated :
        (t : String) (info : Info) (stmt : Statement) (rows result : List Row) (r : Row)
        → IsGuarded info stmt
        → (tenant_scope t (λ i. (execute run_statement i stmt rows, i)) info).0 ≡ passed result
        → In r result
        → is_tenant_model r.model ≡ true
        → (r.tenant_of ≡ t)
          × ((tenant_scope t (λ i. (execute run_statement i stmt rows, i)) info).1 ≡ info)
    unfolding tenant_scope execute
    tenant_scope-isolated t info stmt rows result r g h i scoped =
        let inner : Info = record info { tenant_id = some t } in
        let guarded : IsGuarded inner stmt = record {
          a_select = g.a_select;
          enforced = g.enforced;
          not_disabled = g.not_disabled;
          not_skipped = g.not_skipped;
          touches = g.touches;
        } in
        let e = enforce-scoped inner stmt guarded in
        elim (Bool-cases (t == "")) [
          | inl empty ↦ absurd (ground (arith, e))
          | inr named ↦
              let ran : run_statement (scoped_by t stmt) rows ≡ result = ground (arith, e) in
              let i' : In r (run_statement (scoped_by t stmt) rows) = rw ran i in
              (
                respects (scoped_by t stmt) rows r t i' (
                    In-append_right (r.model, t) stmt.criteria (criteria_of t tenant_scoped_models)
                      (criteria-tenant_model r.model t scoped)),
                refl,
              )
        ]
