-- ===== src/Auth/ApiKeys/Changes.antt =====
-- `rotate_api_key` and `revoke_api_key`: what they leave of the row.
use invoices_codex.Prelude.{
  ℕ, String, ◌+◌, ◌≡◌, ap, ◌∙◌, ◌⊎◌, inl, inr, false, Option, ◌==◌, arith, delete_where, Bool-cases,
}
use invoices_codex.Env.{Env, absent, found, ambiguous}
use invoices_codex.Models.{ApiKey}
use invoices_codex.Store.{
  Db, World, Session, Fault, ok, raised, value_error, integrity_error, multiple_results,
  save_api_key, transaction, Selected-cases,
}
use invoices_codex.Auth.ApiKeys.{
  ApiKeyMaterial, material_of, key_by_id, hash_taken, rotated_key, put_rotated, rotate_api_key,
  revoked_key, revoke_api_key,
}

-- A row of the tenant, and what stands in its place.
pub record Replaced (env : Env) (tenant_id api_key_id : String) (k k' : ApiKey) (db db' : Db)
    : Type 0 where
  pub row_found : key_by_id env tenant_id api_key_id db ≡ found k
  pub row_saved : db'.api_keys ≡ save_api_key k' db.api_keys
  pub tenants_kept : db'.tenants ≡ db.tenants

pub revoke_api_key-outcomes :
    (env : Env) (now : ℕ) (tenant_id api_key_id : String) (actor : Option String) (w : World)
    → ((revoke_api_key env now tenant_id api_key_id actor w).1.db ≡ w.db)
        × ((e : Fault) × ((revoke_api_key env now tenant_id api_key_id actor w).0 ≡ raised e))
      ⊎ ((k : ApiKey) × ((revoke_api_key env now tenant_id api_key_id actor w).0
            ≡ ok (revoked_key now k))
          × Replaced env tenant_id api_key_id k
              (revoked_key now k)
              w.db
              (revoke_api_key env now tenant_id api_key_id actor w).1.db)
unfolding revoke_api_key
revoke_api_key-outcomes env now tenant_id api_key_id actor w =
    elim (Selected-cases (key_by_id env tenant_id api_key_id w.db)) [
      | inl none_found ↦ inl (ground arith, (value_error "api key not found", ground arith))
      | inr (inr several) ↦ inl (ground arith, (multiple_results, ground arith))
      | inr (inl (k, e)) ↦ inr (
        k,
        ground arith,
        record { row_found = e; row_saved = ground arith; tenants_kept = ground arith },
      )
    ]

-- The stage of a rotation past the look-up of the row.
put_rotated-outcomes :
    (env : Env) (now : ℕ) (tenant_id : String) (actor : Option String) (m : ApiKeyMaterial)
    (k : ApiKey) (s : Session)
    → ((put_rotated env now tenant_id actor m k s).1.stored ≡ s.stored)
        × ((e : Fault) × ((put_rotated env now tenant_id actor m k s).0 ≡ raised e))
      ⊎ ((put_rotated env now tenant_id actor m k s).0 ≡ ok (rotated_key m k, m.plain_text))
        × (k.revoked ≡ false)
        × (hash_taken m.key_hash (delete_where (λ (x : ApiKey). x.id == k.id) s.pending.api_keys)
            ≡ false)
        × ((put_rotated env now tenant_id actor m k s).1.stored.api_keys
            ≡ save_api_key (rotated_key m k) s.pending.api_keys)
        × ((put_rotated env now tenant_id actor m k s).1.stored.tenants ≡ s.pending.tenants)
unfolding put_rotated
put_rotated-outcomes env now tenant_id actor m k s = elim (Bool-cases k.revoked) [
  | inl revoked ↦ inl (ground arith, (value_error "cannot rotate revoked api key", ground arith))
  | inr valid ↦
      elim (Bool-cases
        (hash_taken m.key_hash (delete_where (λ (x : ApiKey). x.id == k.id) s.pending.api_keys))) [
          | inl taken ↦ inl (ground arith, (integrity_error, ground arith))
          | inr free ↦ inr (ground arith, valid, free, ground arith, ground arith)
        ]
]

-- Past the look-up a rotation is the stage that writes the row.
rotate-stage :
    (env : Env) (now : ℕ) (tenant_id api_key_id : String) (actor : Option String) (k : ApiKey)
    (w : World)
    → key_by_id env tenant_id api_key_id w.db ≡ found k
    → rotate_api_key env now tenant_id api_key_id actor w
      ≡ transaction
          (put_rotated env now tenant_id actor (material_of env (env.token_urlsafe w.drawn)) k)
          (record w { drawn = w.drawn + 1 })
unfolding rotate_api_key
rotate-stage env now tenant_id api_key_id actor k w h = ground arith

rotate-refused :
    (env : Env) (now : ℕ) (tenant_id api_key_id : String) (actor : Option String) (w : World)
    → (key_by_id env tenant_id api_key_id w.db ≡ absent)
      ⊎ (key_by_id env tenant_id api_key_id w.db ≡ ambiguous)
    → ((rotate_api_key env now tenant_id api_key_id actor w).1.db ≡ w.db)
      × ((e : Fault) × ((rotate_api_key env now tenant_id api_key_id actor w).0 ≡ raised e))
unfolding rotate_api_key
rotate-refused env now tenant_id api_key_id actor w (inl h) =
    (ground arith, (value_error "api key not found", ground arith))
rotate-refused env now tenant_id api_key_id actor w (inr h) =
    (ground arith, (multiple_results, ground arith))

pub record Rotated (env : Env) (tenant_id api_key_id : String) (k : ApiKey) (plain : String)
    (db db' : Db) : Type 0 where
  pub replaced : Replaced env tenant_id api_key_id k (rotated_key (material_of env plain) k) db db'
  pub not_revoked : k.revoked ≡ false
  pub hash_free :
      hash_taken
        (material_of env plain).key_hash
        (delete_where (λ (x : ApiKey). x.id == k.id) db.api_keys)
      ≡ false

pub rotate_api_key-outcomes :
    (env : Env) (now : ℕ) (tenant_id api_key_id : String) (actor : Option String) (w : World)
    → ((rotate_api_key env now tenant_id api_key_id actor w).1.db ≡ w.db)
        × ((e : Fault) × ((rotate_api_key env now tenant_id api_key_id actor w).0 ≡ raised e))
      ⊎ ((k : ApiKey) × (plain : String) × ((rotate_api_key env now tenant_id api_key_id actor w).0
            ≡ ok (rotated_key (material_of env plain) k, plain))
          × Rotated env tenant_id api_key_id k plain w.db
              (rotate_api_key env now tenant_id api_key_id actor w).1.db)
rotate_api_key-outcomes env now tenant_id api_key_id actor w =
    elim (Selected-cases (key_by_id env tenant_id api_key_id w.db)) [
      | inl none_found ↦ inl (rotate-refused env now tenant_id api_key_id actor w (inl none_found))
      | inr (inr several) ↦ inl (rotate-refused env now tenant_id api_key_id actor w (inr several))
      | inr (inl (k, e)) ↦
          let plain = env.token_urlsafe w.drawn in
          let m = material_of env plain in
          let s : Session = record {
            stored = w.db;
            pending = w.db;
            outside = record w { drawn = w.drawn + 1 };
          } in
          let stage = rotate-stage env now tenant_id api_key_id actor k w e in
          elim (put_rotated-outcomes env now tenant_id actor m k s) [
            | inl (kept, (x, f)) ↦ inl (ap (λ o. o.1.db) stage ∙ kept, (x, ap (λ o. o.0) stage ∙ f))
            | inr (done, valid, free, saved, tenants) ↦ inr (
              k,
              plain,
              ap (λ o. o.0) stage ∙ done,
              record {
                replaced = record {
                  row_found = e;
                  row_saved = ap (λ o. o.1.db.api_keys) stage ∙ saved;
                  tenants_kept = ap (λ o. o.1.db.tenants) stage ∙ tenants;
                };
                not_revoked = valid;
                hash_free = free;
              },
            )
          ]
    ]
