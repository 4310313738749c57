-- ===== src/Auth/ApiKeys/Bootstrap.antt =====
-- `bootstrap_tenant`: the slug of the new tenant, and the lookup of the text that it returns.
use invoices_codex.Prelude.{
  ℕ, suc, String, ◌+◌, ◌≡◌, refl, sym, ap, ◌∙◌, Bool, true, false, Option, some, inl, inr, [], ◌∷◌,
  ◌++◌, ◌==◌, arith, contains, length, length-map, map, filter, filter-nil, filter-append,
  Bool-cases,
}
use text.Mathlib.TextPositions.{eq_refl}
use invoices_codex.Prelude.Keyed.{Lacks-contains}
use invoices_codex.Env.{Env, ReadsRows, found_of_filter, absent_of_filter}
use invoices_codex.Models.{Tenant, ApiKey}
use invoices_codex.Store.{Db, World, Session, ok, Outcome-cases}
use invoices_codex.Auth.Members.Bootstrap.{tenant_by_id}
use invoices_codex.Auth.Slugs.{unique_tenant_slug}
use invoices_codex.Auth.Slugs.Free.{unique_tenant_slug-free}
use invoices_codex.Auth.ApiKeys.{
  material_of, add_api_key, new_tenant, slug_exists, next_unique_tenant_slug, bootstrap_tenant,
  get_tenant_by_api_key,
}
use invoices_codex.Auth.ApiKeys.Creation.{Added, add_api_key-Added, Added-filter, get_tenant-found}

module _ (env : Env) (reads : ReadsRows env) where
  slug_exists-contains :
      (db : Db) (slug : String)
      → slug_exists env db slug ≡ true
      → contains slug (map (λ (t : Tenant). t.slug) db.tenants) ≡ true
  unfolding slug_exists
  slug_exists-contains db slug h =
      let slug_of : Tenant → String = λ t. t.slug in
      elim (Bool-cases (contains slug (map slug_of db.tenants))) [
        | inl there ↦ there
        | inr free ↦
            let p : Tenant → Bool = λ t. t.slug == slug in
            let none_left = filter-nil p db.tenants (Lacks-contains slug_of slug db.tenants free) in
            absurd (ground (arith, absent_of_filter reads p db.tenants none_left))
      ]

  -- The slug of a new tenant is always found, and no tenant has it.
  pub next_unique_tenant_slug-free :
      (name : String) (db : Db)
      → (slug : String) × (next_unique_tenant_slug env name db ≡ ok slug)
        × (slug_exists env db slug ≡ false)
  unfolding next_unique_tenant_slug
  next_unique_tenant_slug-free name db =
      let slugs = map (λ (t : Tenant). t.slug) db.tenants in
      let free =
        unique_tenant_slug-free env name (slug_exists env db) slugs (slug_exists-contains db) in
      let fuel : suc (length slugs) ≡ suc (length db.tenants) =
        ap suc (length-map (λ (t : Tenant). t.slug) db.tenants) in
      let got = ap (λ n. unique_tenant_slug env n name (slug_exists env db)) (sym fuel) ∙ free.1 in
      (free.0, ground (arith, got), free.2)

  record Bootstrapped (name : String) (r : Tenant × String) (w w' : World) : Type 0 where
    pub slug_free : slug_exists env w.db r.0.slug ≡ false
    pub key : ApiKey
    pub db : Db
    pub before : db.api_keys ≡ w.db.api_keys
    pub key_added : Added env r.0.id (material_of env r.1) key db w'.db
    pub id_free : contains r.0.id (map (λ (t : Tenant). t.id) w.db.tenants) ≡ false
    pub tenant_added : w'.db.tenants ≡ w.db.tenants ++ r.0 ∷ []
    pub named : r.0.name ≡ name

  bootstrap_tenant-Bootstrapped :
      (now : ℕ) (name : String) (actor : Option String) (r : Tenant × String) (w : World)
      → (bootstrap_tenant env now name actor w).0 ≡ ok r
      → Bootstrapped name r w (bootstrap_tenant env now name actor w).1
  unfolding bootstrap_tenant new_tenant
  bootstrap_tenant-Bootstrapped now name actor r w h =
      let (slug, got, free) = next_unique_tenant_slug-free name w.db in
      let m = material_of env (env.token_urlsafe w.drawn) in
      let id = env.uuid4 (w.drawn + 1) in
      let t = new_tenant now name slug id in
      let db₁ = record w.db { tenants = w.db.tenants ++ t ∷ [] } in
      let s : Session = record {
        stored = w.db;
        pending = db₁;
        outside = record w { drawn = w.drawn + 1 + 1 };
      } in
      elim (Bool-cases (contains id (map (λ (t : Tenant). t.id) w.db.tenants))) [
        | inl taken ↦ absurd (ground arith)
        | inr fresh ↦ elim (Outcome-cases (add_api_key env now id m s).0) [
          | inr (x, e) ↦ absurd (ground arith)
          | inl (k, e) ↦
              let a = add_api_key-Added env now id m k s e in
              record {
                slug_free = ground arith;
                key = k;
                db = db₁;
                before = refl;
                key_added = record {
                  id_free = ground (arith, a.id_free);
                  hash_free = ground (arith, a.hash_free);
                  row_added = ground (arith, a.row_added);
                  hash_kept = ground (arith, a.hash_kept);
                  not_revoked = ground (arith, a.not_revoked);
                  of_tenant = ground (arith, a.of_tenant);
                  tenants_kept = ground (arith, a.tenants_kept);
                };
                id_free = ground arith;
                tenant_added = ground (arith, a.tenants_kept);
                named = ground arith;
              }
        ]
      ]

  -- `bootstrap_tenant`, when it returns, has made a tenant of the name with a slug that no tenant had, and the
  -- returned text is taken for that tenant.
  pub bootstrap_tenant-lookup :
      (now : ℕ) (name : String) (actor : Option String) (r : Tenant × String) (w : World)
      → (bootstrap_tenant env now name actor w).0 ≡ ok r
      → (r.0.name ≡ name)
        × (slug_exists env w.db r.0.slug ≡ false)
        × (get_tenant_by_api_key env r.1 (bootstrap_tenant env now name actor w).1.db
            ≡ ok (some r.0))
  unfolding filter
  bootstrap_tenant-lookup now name actor r w h =
      let b = bootstrap_tenant-Bootstrapped now name actor r w h in
      let w' = (bootstrap_tenant env now name actor w).1 in
      let p : Tenant → Bool = λ t. t.id == r.0.id in
      let old =
        filter-nil p w.db.tenants
          (Lacks-contains (λ (t : Tenant). t.id) r.0.id w.db.tenants b.id_free) in
      let one : filter p w'.db.tenants ≡ r.0 ∷ [] =
        ap (filter p) b.tenant_added
        ∙ filter-append p w.db.tenants (r.0 ∷ [])
        ∙ ap (λ xs. xs ++ filter p (r.0 ∷ [])) old
        ∙ ground (arith, eq_refl r.0.id) in
      (
        b.named,
        b.slug_free,
        get_tenant-found env reads r.1 b.key r.0 w'.db
            (Added-filter env r.0.id (material_of env r.1) b.key b.db w'.db b.key_added)
            b.key_added.not_revoked
            (ap (λ id. tenant_by_id env id w'.db) b.key_added.of_tenant
              ∙ found_of_filter reads p w'.db.tenants r.0 one),
      )
