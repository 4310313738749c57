-- ===== src/Auth/ApiKeys/Lookups.antt =====
-- The lookup of an API key's text after a rotation or a revocation of the key.
use invoices_codex.Prelude.{
  ℕ, String, ◌≡◌, refl, sym, ap, ◌∙◌, Bool, true, false, ◌&&◌, Option, none, some, inl, inr, List,
  [], ◌∷◌, ◌==◌, arith, In, IsKeyed, filter, save, filter-save_kept, filter-save_dropped, eq_iff,
}
use invoices_codex.Prelude.Keyed.{
  All-delete_where, In-filter, In-save, filter-IsKeyed, IsKeyed-save_column,
}
use invoices_codex.Env.{Env, found, ReadsRows, filter_of_found, found_of_filter, absent_of_filter}
use invoices_codex.Models.{Tenant, ApiKey}
use invoices_codex.Store.{Db, World, ok, save_api_key}
use invoices_codex.Auth.Members.Bootstrap.{tenant_by_id}
use invoices_codex.Auth.ApiKeys.{
  hash_api_key, material_of, key_by_id, rotated_key, rotate_api_key, revoked_key, revoke_api_key,
  resolve_tenant_id_from_api_key, get_tenant_by_api_key,
}
use invoices_codex.Auth.ApiKeys.Creation.{get_tenant-found}
use invoices_codex.Auth.ApiKeys.Changes.{Rotated, revoke_api_key-outcomes, rotate_api_key-outcomes}

-- A key table with distinct ids and distinct hashes.
pub record IsKeyTable (keys : List ApiKey) : Type 0 where
  pub ids_distinct : IsKeyed (λ (k : ApiKey). k.id) keys
  pub hashes_distinct : IsKeyed (λ (k : ApiKey). k.key_hash) keys

module _ (env : Env) (reads : ReadsRows env) where
  pub found-In :
      (tenant_id api_key_id : String) (k : ApiKey) (db : Db)
      → key_by_id env tenant_id api_key_id db ≡ found k
      → In k db.api_keys
  found-In tenant_id api_key_id k db h =
      let p : ApiKey → Bool = λ x. (x.tenant_id == tenant_id) && (x.id == api_key_id) in
      In-filter p k db.api_keys (filter_of_found reads p db.api_keys k h)

  pub get_tenant-none :
      (raw : String) (db : Db)
      → filter (λ (x : ApiKey). x.key_hash == hash_api_key env raw) db.api_keys ≡ []
      → get_tenant_by_api_key env raw db ≡ ok none
  unfolding get_tenant_by_api_key resolve_tenant_id_from_api_key
  get_tenant-none raw db h =
      let miss =
        absent_of_filter reads (λ (x : ApiKey). x.key_hash == hash_api_key env raw) db.api_keys h in
      ground arith

  get_tenant-revoked :
      (raw : String) (k : ApiKey) (db : Db)
      → filter (λ (x : ApiKey). x.key_hash == hash_api_key env raw) db.api_keys ≡ k ∷ []
      → k.revoked ≡ true
      → get_tenant_by_api_key env raw db ≡ ok none
  unfolding get_tenant_by_api_key resolve_tenant_id_from_api_key
  get_tenant-revoked raw k db one revoked =
      let hit =
        found_of_filter reads (λ (x : ApiKey). x.key_hash == hash_api_key env raw) db.api_keys k
          one in
      ground arith

  -- After `revoke_api_key` has returned, in a table of distinct ids and hashes, no text with the hash of the
  -- revoked row is taken for any tenant.
  pub revoke_api_key-lookup :
      (now : ℕ) (tenant_id api_key_id raw : String) (actor : Option String) (r : ApiKey) (w : World)
      → IsKeyTable w.db.api_keys
      → (revoke_api_key env now tenant_id api_key_id actor w).0 ≡ ok r
      → hash_api_key env raw ≡ r.key_hash
      → get_tenant_by_api_key env raw (revoke_api_key env now tenant_id api_key_id actor w).1.db
        ≡ ok none
  unfolding revoked_key save_api_key
  revoke_api_key-lookup now tenant_id api_key_id raw actor r w table h same =
      elim (revoke_api_key-outcomes env now tenant_id api_key_id actor w) [
        | inl (kept, (x, e)) ↦ absurd (ground arith)
        | inr (k, done, p) ↦
            let db' = (revoke_api_key env now tenant_id api_key_id actor w).1.db in
            let hash_of : ApiKey → Bool = λ x. x.key_hash == hash_api_key env raw in
            let k' = revoked_key now k in
            let e : hash_api_key env raw ≡ k.key_hash = ground arith in
            let before : filter hash_of w.db.api_keys ≡ k ∷ [] = rw e (
              filter-IsKeyed (λ (x : ApiKey). x.key_hash) k w.db.api_keys table.hashes_distinct
                (found-In tenant_id api_key_id k w.db p.row_found)) in
            let after =
              filter-save_kept hash_of (λ (x : ApiKey). x.id) k k' w.db.api_keys
                (rw e (ground (arith, eq_iff k.key_hash k.key_hash))) refl table.ids_distinct
                before in
            get_tenant-revoked raw k' db' (ap (filter hash_of) p.row_saved ∙ after) refl
      ]

  -- The table after a rotation: the row written back is the only one of its new hash, and no row has the old one.
  Rotated-filters :
      (tenant_id api_key_id plain raw : String) (k : ApiKey) (db db' : Db)
      → IsKeyTable db.api_keys
      → Rotated env tenant_id api_key_id k plain db db'
      → hash_api_key env raw ≡ k.key_hash
      → (hash_api_key env plain == hash_api_key env raw) ≡ false
      → (filter (λ (x : ApiKey). x.key_hash == hash_api_key env plain) db'.api_keys
          ≡ rotated_key (material_of env plain) k ∷ [])
        × (filter (λ (x : ApiKey). x.key_hash == hash_api_key env raw) db'.api_keys ≡ [])
  unfolding rotated_key save_api_key
  Rotated-filters tenant_id api_key_id plain raw k db db' table p same other =
      let k' = rotated_key (material_of env plain) k in
      let id_of : ApiKey → String = λ x. x.id in
      let hash_of : ApiKey → String = λ x. x.key_hash in
      let row = found-In tenant_id api_key_id k db p.replaced.row_found in
      let distinct =
        IsKeyed-save_column id_of hash_of k' db.api_keys table.ids_distinct table.hashes_distinct
          (All-delete_where id_of hash_of (hash_api_key env plain) k.id db.api_keys p.hash_free) in
      let new =
        filter-IsKeyed hash_of k' (save id_of k' db.api_keys) distinct
          (In-save id_of k k' db.api_keys row refl) in
      let before : filter (λ (x : ApiKey). x.key_hash == hash_api_key env raw) db.api_keys
          ≡ k ∷ [] =
        rw same (filter-IsKeyed hash_of k db.api_keys table.hashes_distinct row) in
      let old =
        filter-save_dropped (λ (x : ApiKey). x.key_hash == hash_api_key env raw) id_of k k'
          db.api_keys other refl before in
      (
        ap (filter (λ (x : ApiKey). x.key_hash == hash_api_key env plain)) p.replaced.row_saved
            ∙ new,
        ap (filter (λ (x : ApiKey). x.key_hash == hash_api_key env raw)) p.replaced.row_saved ∙ old,
      )

  -- After `rotate_api_key` has returned, in a table of distinct ids and hashes, the returned text is taken for the
  -- key's tenant, and a text with the hash of the row before, which is not the new hash, for none.
  pub rotate_api_key-lookup :
      (now : ℕ) (tenant_id api_key_id raw : String) (actor : Option String) (k : ApiKey)
      (r : ApiKey × String) (t : Tenant) (w : World)
      → IsKeyTable w.db.api_keys
      → key_by_id env tenant_id api_key_id w.db ≡ found k
      → tenant_by_id env k.tenant_id w.db ≡ found t
      → (rotate_api_key env now tenant_id api_key_id actor w).0 ≡ ok r
      → hash_api_key env raw ≡ k.key_hash
      → (hash_api_key env r.1 == hash_api_key env raw) ≡ false
      → (get_tenant_by_api_key env r.1 (rotate_api_key env now tenant_id api_key_id actor w).1.db
          ≡ ok (some t))
        × (get_tenant_by_api_key env raw (rotate_api_key env now tenant_id api_key_id actor w).1.db
            ≡ ok none)
  unfolding rotated_key
  rotate_api_key-lookup now tenant_id api_key_id raw actor k r t w table row known h same other =
      elim (rotate_api_key-outcomes env now tenant_id api_key_id actor w) [
        | inl (kept, (x, e)) ↦ absurd (ground arith)
        | inr (k₀, plain, done, p) ↦
            let db' = (rotate_api_key env now tenant_id api_key_id actor w).1.db in
            let one : k₀ ≡ k = found_eq (sym p.replaced.row_found ∙ row) in
            let text : plain ≡ r.1 = ground arith in
            let filters =
              Rotated-filters tenant_id api_key_id plain raw k₀ w.db db' table p
                (same ∙ ap (λ (x : ApiKey). x.key_hash) (sym one)) (rw text other) in
            (
              rw (← text) (
                  get_tenant-found env reads plain (rotated_key (material_of env plain) k₀) t db'
                    filters.0 p.not_revoked
                    (ap (λ (x : ApiKey). tenant_by_id env x.tenant_id db') one
                      ∙ ap (env.one_or_none (λ (x : Tenant). x.id == k.tenant_id))
                          p.replaced.tenants_kept
                      ∙ known)),
              get_tenant-none raw db' filters.1,
            )
      ]
    where
      found_eq : {a b : ApiKey} → found a ≡ found b → a ≡ b
      found_eq e = ground arith
