-- ===== src/Auth/Members/Bootstrap.antt =====
-- `bootstrap_tenant_admin_user` of service.py, called twice for a tenant.
use text.Mathlib.TextPositions.{eq_refl}
use invoices_codex.Prelude.{
  ℕ, String, ◌≡◌, refl, sym, ap, ◌∙◌, Bool, true, false, Option, none, some, inl, inr, List, [],
  ◌∷◌, ◌++◌, ◌==◌, arith, In, List-cases, Bool-cases,
}
use invoices_codex.Env.{Env, Selected, found, ReadsRows}
use invoices_codex.Models.{Tenant, User, TenantMembership}
use invoices_codex.Store.{
  World, Db, Session, ok, raised, value_error, optional, transaction, Selected-cases, Outcome-cases,
}
use invoices_codex.Auth.Login.{is_valid_email}
use invoices_codex.Auth.Passwords.{verify_password}
use invoices_codex.Auth.Members.{
  find_or_add_user, put_membership, add_first_user, bootstrap_tenant_admin_user,
}

In-append_last : {A : Type 0} (xs : List A) (a : A) → In a (xs ++ a ∷ [])
In-append_last [] a = inl refl
In-append_last (x ∷ xs) a = inr (In-append_last xs a)

abbrev pub tenant_by_id : Env → String → Db → Selected Tenant
tenant_by_id env id db = env.one_or_none (λ (t : Tenant). t.id == id) db.tenants

-- A tenant that has a member gets no first user.
bootstrap-taken :
    (env : Env) (now : ℕ) (tenant_id email password : String) (full_name actor : Option String)
    (t : Tenant) (m : TenantMembership) (ms : List TenantMembership) (w : World)
    → (env.lower (env.strip email) == "") ≡ false
    → is_valid_email env (env.lower (env.strip email)) ≡ true
    → (password == "") ≡ false
    → tenant_by_id env tenant_id w.db ≡ found t
    → env.all_rows (λ (x : TenantMembership). x.tenant_id == tenant_id) w.db.memberships ≡ m ∷ ms
    → bootstrap_tenant_admin_user env now tenant_id email password full_name actor w
      ≡ (raised (value_error "tenant already has users"), w)
unfolding bootstrap_tenant_admin_user
bootstrap-taken env now tenant_id email password full_name actor t m ms w e1 e2 e3 known taken =
    ground arith

record Bootstrapped (env : Env) (tenant_id : String) (r : User × TenantMembership) (w w' : World)
    : Type 0 where
  pub tenant : Tenant
  pub tenant_found : tenant_by_id env tenant_id w.db ≡ found tenant
  pub membership_added : w'.db.memberships ≡ w.db.memberships ++ r.1 ∷ []
  pub membership_of_tenant : r.1.tenant_id ≡ tenant_id
  pub tenants_kept : w'.db.tenants ≡ w.db.tenants

find_or_add_user-kept :
    (env : Env) (now : ℕ) (email normalized password : String) (full_name : Option String)
    (u : Option User) (s : Session)
    → ((find_or_add_user env now email normalized password full_name u s).1.pending.memberships
        ≡ s.pending.memberships)
      × ((find_or_add_user env now email normalized password full_name u s).1.pending.tenants
          ≡ s.pending.tenants)
unfolding find_or_add_user
find_or_add_user-kept env now email normalized password full_name none s = (refl, refl)
find_or_add_user-kept env now email normalized password full_name (some u) s =
    elim (Bool-cases (verify_password env password u.password_hash)) [
      | inl right ↦ (rw right refl, rw right refl)
      | inr wrong ↦ (rw wrong refl, rw wrong refl)
    ]

-- A new membership is one of the tenant, and is added at the end.
put_membership-added :
    (env : Env) (now : ℕ) (tenant_id : String) (user : User) (role status : String) (s : Session)
    → (m : TenantMembership) × ((put_membership env now tenant_id user role status none s).0 ≡ ok m)
      × ((put_membership env now tenant_id user role status none s).1.pending.memberships
          ≡ s.pending.memberships ++ m ∷ [])
      × (m.tenant_id ≡ tenant_id)
      × ((put_membership env now tenant_id user role status none s).1.pending.tenants
          ≡ s.pending.tenants)
unfolding put_membership
put_membership-added env now tenant_id user role status s = (_, refl, refl, refl, refl)

-- The stage that adds the first user, when it returns.
add_first_user-added :
    (env : Env) (now : ℕ) (tenant_id email normalized password : String)
    (full_name actor : Option String) (r : User × TenantMembership) (s : Session)
    → (add_first_user env now tenant_id email normalized password full_name actor s).0 ≡ ok r
    → ((add_first_user env now tenant_id email normalized password full_name actor
          s).1.stored.memberships
        ≡ s.pending.memberships ++ r.1 ∷ [])
      × (r.1.tenant_id ≡ tenant_id)
      × ((add_first_user env now tenant_id email normalized password full_name actor
            s).1.stored.tenants
          ≡ s.pending.tenants)
unfolding add_first_user
add_first_user-added env now tenant_id email normalized password full_name actor r s h =
    elim (Outcome-cases (
      optional
        (env.one_or_none (λ (u : User). u.email_normalized == normalized) s.pending.users))) [
          | inr (x, e) ↦ absurd (ground arith)
          | inl (u, e) ↦
              let o = find_or_add_user env now email normalized password full_name u s in
              let kept = find_or_add_user-kept env now email normalized password full_name u s in
              elim (Outcome-cases o.0) [
                | inr (x, e') ↦ absurd (ground arith)
                | inl (user, e') ↦
                    let added = put_membership-added env now tenant_id user "admin" "active" o.1 in
                    (
                      ground (arith, kept.0, added.1, added.2),
                      ground (arith, added.1, added.3),
                      ground (arith, kept.1, added.1, added.4),
                    )
              ]
        ]

-- Past the guards a call is the stage that adds the first user.
bootstrap-stage :
    (env : Env) (now : ℕ) (tenant_id email password : String) (full_name actor : Option String)
    (t : Tenant) (w : World)
    → (env.lower (env.strip email) == "") ≡ false
    → is_valid_email env (env.lower (env.strip email)) ≡ true
    → (password == "") ≡ false
    → tenant_by_id env tenant_id w.db ≡ found t
    → env.all_rows (λ (x : TenantMembership). x.tenant_id == tenant_id) w.db.memberships ≡ []
    → bootstrap_tenant_admin_user env now tenant_id email password full_name actor w
      ≡ transaction
          (add_first_user env now tenant_id email
            (env.lower (env.strip email))
            password
            full_name
            actor)
          w
unfolding bootstrap_tenant_admin_user
bootstrap-stage env now tenant_id email password full_name actor t w e1 e2 e3 known empty =
    ground arith

-- A call that returns has passed the guards.
bootstrap-guards :
    (env : Env) (now : ℕ) (tenant_id email password : String) (full_name actor : Option String)
    (r : User × TenantMembership) (w : World)
    → (bootstrap_tenant_admin_user env now tenant_id email password full_name actor w).0 ≡ ok r
    → ((env.lower (env.strip email) == "") ≡ false)
      × (is_valid_email env (env.lower (env.strip email)) ≡ true)
      × ((password == "") ≡ false)
unfolding bootstrap_tenant_admin_user
bootstrap-guards env now tenant_id email password full_name actor r w h =
    (ground arith, ground arith, ground arith)

bootstrap-Bootstrapped :
    (env : Env) (now : ℕ) (tenant_id email password : String) (full_name actor : Option String)
    (r : User × TenantMembership) (w : World)
    → (bootstrap_tenant_admin_user env now tenant_id email password full_name actor w).0 ≡ ok r
    → Bootstrapped env tenant_id r w
        (bootstrap_tenant_admin_user env now tenant_id email password full_name actor w).1
unfolding bootstrap_tenant_admin_user
bootstrap-Bootstrapped env now tenant_id email password full_name actor r w h =
    let g = bootstrap-guards env now tenant_id email password full_name actor r w h in
    elim (Selected-cases (tenant_by_id env tenant_id w.db)) [
      | inl none_found ↦ absurd (ground arith)
      | inr (inr several) ↦ absurd (ground arith)
      | inr (inl (t, e)) ↦
          elim (List-cases
            (env.all_rows (λ (x : TenantMembership). x.tenant_id == tenant_id) w.db.memberships)) [
              | inr (m, (ms, e')) ↦ absurd (ground arith)
              | inl empty ↦
                  let s : Session = record { stored = w.db; pending = w.db; outside = w } in
                  let stage =
                    bootstrap-stage env now tenant_id email password full_name actor t w g.0 g.1 g.2
                      e empty in
                  let done =
                    add_first_user-added env now tenant_id email (env.lower (env.strip email))
                      password full_name actor r s (ap (λ o. o.0) (sym stage) ∙ h) in
                  record {
                    tenant = t;
                    tenant_found = e;
                    membership_added = ap (λ o. o.1.db.memberships) stage ∙ done.0;
                    membership_of_tenant = done.1;
                    tenants_kept = ap (λ o. o.1.db.tenants) stage ∙ done.2;
                  }
            ]
    ]

-- Once the first user of a tenant has been created, another call for the tenant, with any valid email and any
-- password, is refused and changes nothing.
pub bootstrap_tenant_admin_user_once :
    (env : Env) (reads : ReadsRows env) (now later : ℕ)
    (tenant_id email password email' password' : String)
    (full_name actor full_name' actor' : Option String) (r : User × TenantMembership) (w : World)
    → (env.lower (env.strip email') == "") ≡ false
    → is_valid_email env (env.lower (env.strip email')) ≡ true
    → (password' == "") ≡ false
    → (bootstrap_tenant_admin_user env now tenant_id email password full_name actor w).0 ≡ ok r
    → bootstrap_tenant_admin_user env later tenant_id email' password' full_name' actor'
        (bootstrap_tenant_admin_user env now tenant_id email password full_name actor w).1
      ≡ (
        raised (value_error "tenant already has users"),
        (bootstrap_tenant_admin_user env now tenant_id email password full_name actor w).1,
      )
bootstrap_tenant_admin_user_once env reads now later tenant_id email password email' password'
      full_name actor full_name' actor' r w e1 e2 e3 h =
    let b = bootstrap-Bootstrapped env now tenant_id email password full_name actor r w h in
    let w' = (bootstrap_tenant_admin_user env now tenant_id email password full_name actor w).1 in
    let p : TenantMembership → Bool = λ x. x.tenant_id == tenant_id in
    let member : In r.1 w'.db.memberships =
      rw b.membership_added (In-append_last w.db.memberships r.1) in
    let hit : p r.1 ≡ true = rw b.membership_of_tenant (eq_refl tenant_id) in
    let listed = reads.all_rows-complete p w'.db.memberships r.1 member hit in
    elim (List-cases (env.all_rows p w'.db.memberships)) [
      | inl empty ↦ absurd (rw empty at listed)
      | inr (m, (ms, e)) ↦
          bootstrap-taken env later tenant_id email' password' full_name' actor' b.tenant m ms w' e1
            e2 e3
            (ap (env.one_or_none (λ (t : Tenant). t.id == tenant_id)) b.tenants_kept
              ∙ b.tenant_found)
            e
    ]
