-- ===== src/Examples/Guards.antt =====
-- A guarded read of two tenants' rows.
use invoices_codex.Prelude.{
  String, ◌≡◌, refl, ap, ◌&&◌, Bool, true, false, none, inl, inr, List, [], ◌∷◌, ◌==◌, In, filter,
  filter_sound, eq_iff, arith,
}
use invoices_codex.Guard.{
  Model, report, Info, Statement, Row, execute, enforce_tenant_scope, is_tenant_model,
  touches_tenant_model, tenant_scope,
}
use invoices_codex.Guard.Isolation.{tenant_scope-isolated}

-- What meets all criteria, whatever the model.
abbrev meets : List (Model × String) → Row → Bool
meets [] r = true
meets ((m, t) ∷ cs) r = (r.tenant_of == t) && meets cs r

abbrev run_statement : Statement → List Row → List Row
run_statement stmt rows = filter (meets stmt.criteria) rows

meets-In :
    (cs : List (Model × String)) (m : Model) (t : String) (r : Row)
    → In (m, t) cs
    → meets cs r ≡ true
    → r.tenant_of ≡ t
meets-In [] m t r i h = absurd i
meets-In ((m', t') ∷ cs) m t r (inl e) h =
    let same : t ≡ t' = ap (λ p. p.1) e in ground (arith, eq_iff r.tenant_of t', same)
meets-In ((m', t') ∷ cs) m t r (inr i) h = meets-In cs m t r i (ground arith)

run_statement-respects :
    (stmt : Statement) (rows : List Row) (r : Row) (t : String)
    → In r (run_statement stmt rows)
    → In (r.model, t) stmt.criteria
    → r.tenant_of ≡ t
run_statement-respects stmt rows r t i c =
    meets-In stmt.criteria r.model t r c (filter_sound (meets stmt.criteria) rows r i).1

abbrev ours : Row
ours = record { model = report; tenant_of = "t"; row_id = "r1" }

abbrev rows : List Row
rows = ours ∷ (record { model = report; tenant_of = "u"; row_id = "r2" }) ∷ []

abbrev session_info : Info
session_info = record {
  enforce_tenant_guard = true;
  disable_tenant_guard = false;
  tenant_id = none;
}

abbrev select_reports : Statement
select_reports = record {
  is_select = true;
  skip_tenant_guard = false;
  entities = report ∷ [];
  criteria = [];
}

tenant_scope-isolated_example :
    (ours.tenant_of ≡ "t")
    × ((tenant_scope "t" (λ i. (execute run_statement i select_reports rows, i)) session_info).1
        ≡ session_info)
unfolding tenant_scope execute enforce_tenant_scope is_tenant_model touches_tenant_model filter
tenant_scope-isolated_example =
    tenant_scope-isolated run_statement run_statement-respects "t" session_info select_reports rows
      (ours ∷ []) ours
      (record {
        a_select = refl;
        enforced = refl;
        not_disabled = refl;
        not_skipped = refl;
        touches = refl;
      })
      refl (inl refl) refl
