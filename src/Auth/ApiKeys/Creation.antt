-- ===== src/Auth/ApiKeys/Creation.antt =====
-- New API keys: `create_api_key`, and the lookup of the text that it returns.
use invoices_codex.Prelude.{
  ℕ, String, ◌+◌, ◌≡◌, ap, ◌∙◌, Bool, false, ◌||◌, Option, some, inl, inr, [], ◌∷◌, ◌++◌, ◌==◌,
  arith, filter, filter-nil, filter-append, Bool-cases, eq_iff,
}
use invoices_codex.Prelude.Keyed.{Lacks-contains}
use invoices_codex.Env.{Env, found, ReadsRows, found_of_filter}
use invoices_codex.Models.{Tenant, ApiKey}
use invoices_codex.Store.{Db, World, Session, Fault, ok, raised, Outcome-cases}
use invoices_codex.Auth.Members.Bootstrap.{tenant_by_id}
use invoices_codex.Auth.ApiKeys.{
  ApiKeyMaterial, hash_api_key, material_of, id_taken, hash_taken, new_api_key, add_api_key,
  create_api_key, resolve_tenant_id_from_api_key, get_tenant_by_api_key,
}

-- A row that the flush took.
pub record Added (env : Env) (tenant_id : String) (m : ApiKeyMaterial) (k : ApiKey) (db db' : Db)
    : Type 0 where
  pub id_free : id_taken k.id db.api_keys ≡ false
  pub hash_free : hash_taken m.key_hash db.api_keys ≡ false
  pub row_added : db'.api_keys ≡ db.api_keys ++ k ∷ []
  pub hash_kept : k.key_hash ≡ m.key_hash
  pub not_revoked : k.revoked ≡ false
  pub of_tenant : k.tenant_id ≡ tenant_id
  pub tenants_kept : db'.tenants ≡ db.tenants

pub add_api_key-Added :
    (env : Env) (now : ℕ) (tenant_id : String) (m : ApiKeyMaterial) (k : ApiKey) (s : Session)
    → (add_api_key env now tenant_id m s).0 ≡ ok k
    → Added env tenant_id m k s.pending (add_api_key env now tenant_id m s).1.pending
unfolding add_api_key new_api_key
add_api_key-Added env now tenant_id m k s h =
    let id = env.uuid4 s.outside.drawn in
    elim (Bool-cases (id_taken id s.pending.api_keys || hash_taken m.key_hash s.pending.api_keys)) [
      | inl taken ↦ absurd (ground arith)
      | inr free ↦ record {
        id_free = ground arith;
        hash_free = ground arith;
        row_added = ground arith;
        hash_kept = ground arith;
        not_revoked = ground arith;
        of_tenant = ground arith;
        tenants_kept = ground arith;
      }
    ]

-- The lookup of a text whose hash one row has.
pub get_tenant-found :
    (env : Env) (reads : ReadsRows env) (raw : String) (k : ApiKey) (t : Tenant) (db : Db)
    → filter (λ (x : ApiKey). x.key_hash == hash_api_key env raw) db.api_keys ≡ k ∷ []
    → k.revoked ≡ false
    → tenant_by_id env k.tenant_id db ≡ found t
    → get_tenant_by_api_key env raw db ≡ ok (some t)
unfolding get_tenant_by_api_key resolve_tenant_id_from_api_key
get_tenant-found env reads raw k t db one valid known =
    let hit =
      found_of_filter reads (λ (x : ApiKey). x.key_hash == hash_api_key env raw) db.api_keys k
        one in
    ground arith

-- A row that was added is the only one of its hash.
pub Added-filter :
    (env : Env) (tenant_id : String) (m : ApiKeyMaterial) (k : ApiKey) (db db' : Db)
    → Added env tenant_id m k db db'
    → filter (λ (x : ApiKey). x.key_hash == m.key_hash) db'.api_keys ≡ k ∷ []
unfolding filter
Added-filter env tenant_id m k db db' a =
    let p : ApiKey → Bool = λ x. x.key_hash == m.key_hash in
    let old =
      filter-nil p db.api_keys
        (Lacks-contains (λ (x : ApiKey). x.key_hash) m.key_hash db.api_keys a.hash_free) in
    ap (filter p) a.row_added
    ∙ filter-append p db.api_keys (k ∷ [])
    ∙ ap (λ xs. xs ++ filter p (k ∷ [])) old
    ∙ ground (arith, eq_iff k.key_hash m.key_hash, a.hash_kept)

-- The row of a creation that returns.
pub create_api_key-Added :
    (env : Env) (now : ℕ) (tenant_id : String) (actor : Option String) (r : ApiKey × String)
    (w : World)
    → (create_api_key env now tenant_id actor w).0 ≡ ok r
    → Added env tenant_id
        (material_of env r.1)
        r.0
        w.db
        (create_api_key env now tenant_id actor w).1.db
unfolding create_api_key
create_api_key-Added env now tenant_id actor r w h =
    let m = material_of env (env.token_urlsafe w.drawn) in
    let s : Session = record {
      stored = w.db;
      pending = w.db;
      outside = record w { drawn = w.drawn + 1 };
    } in
    elim (Outcome-cases (add_api_key env now tenant_id m s).0) [
      | inr (x, e) ↦ absurd (ground arith)
      | inl (k, e) ↦
          let a = add_api_key-Added env now tenant_id m k s e in
          record {
            id_free = ground (arith, a.id_free);
            hash_free = ground (arith, a.hash_free);
            row_added = ground (arith, a.row_added);
            hash_kept = ground (arith, a.hash_kept);
            not_revoked = ground (arith, a.not_revoked);
            of_tenant = ground (arith, a.of_tenant);
            tenants_kept = ground (arith, a.tenants_kept);
          }
    ]

-- The text that `create_api_key` returns is taken for the tenant that it was made for.
pub create_api_key-lookup :
    (env : Env) (reads : ReadsRows env) (now : ℕ) (tenant_id : String) (actor : Option String)
    (r : ApiKey × String) (t : Tenant) (w : World)
    → tenant_by_id env tenant_id w.db ≡ found t
    → (create_api_key env now tenant_id actor w).0 ≡ ok r
    → get_tenant_by_api_key env r.1 (create_api_key env now tenant_id actor w).1.db ≡ ok (some t)
create_api_key-lookup env reads now tenant_id actor r t w known h =
    let db' = (create_api_key env now tenant_id actor w).1.db in
    let a = create_api_key-Added env now tenant_id actor r w h in
    get_tenant-found env reads r.1 r.0 t db'
      (Added-filter env tenant_id (material_of env r.1) r.0 w.db db' a) a.not_revoked
      (ap (λ id. tenant_by_id env id db') a.of_tenant
        ∙ ap (env.one_or_none (λ (x : Tenant). x.id == tenant_id)) a.tenants_kept
        ∙ known)

add_api_key-kept :
    (env : Env) (now : ℕ) (tenant_id : String) (m : ApiKeyMaterial) (s : Session)
    → (add_api_key env now tenant_id m s).1.stored ≡ s.stored
unfolding add_api_key
add_api_key-kept env now tenant_id m s =
    let id = env.uuid4 s.outside.drawn in
    elim (Bool-cases (id_taken id s.pending.api_keys || hash_taken m.key_hash s.pending.api_keys)) [
      | inl taken ↦ ground arith
      | inr free ↦ ground arith
    ]

-- A creation that raises changes nothing.
pub create_api_key-kept :
    (env : Env) (now : ℕ) (tenant_id : String) (actor : Option String) (e : Fault) (w : World)
    → (create_api_key env now tenant_id actor w).0 ≡ raised e
    → (create_api_key env now tenant_id actor w).1.db ≡ w.db
unfolding create_api_key
create_api_key-kept env now tenant_id actor e w h =
    let m = material_of env (env.token_urlsafe w.drawn) in
    let s : Session = record {
      stored = w.db;
      pending = w.db;
      outside = record w { drawn = w.drawn + 1 };
    } in
    elim (Outcome-cases (add_api_key env now tenant_id m s).0) [
      | inr (x, f) ↦ ground (arith, add_api_key-kept env now tenant_id m s)
      | inl (k, f) ↦ absurd (ground arith)
    ]
