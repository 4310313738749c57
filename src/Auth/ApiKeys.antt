-- ===== src/Auth/ApiKeys.antt =====
-- API keys and tenants: `hash_api_key`, `generate_api_key` and `resolve_tenant_id_from_api_key` of
-- saas/auth.py, and the methods of service.py that make, rotate, revoke and look up keys.
pub mod Creation
pub mod Changes
pub mod Lookups
pub mod Unique
pub mod Bootstrap
use invoices_codex.Prelude.{
  ℕ, suc, String, ◌+◌, Bool, not, ◌&&◌, ◌||◌, Option, none, some, List, [], ◌∷◌, ◌++◌, ◌==◌,
  contains, map, delete_where, is_some, length, ltb, if◌then◌else◌,
}
use invoices_codex.Env.{Env, Dict, Selected, absent, text}
use invoices_codex.Models.{Tenant, ApiKey}
use invoices_codex.Auth.Slugs.{unique_tenant_slug}
use invoices_codex.Store.{
  Db, Tx, Outcome, World, ok, raised, and_then, value_error, integrity_error, external, pure, raise,
  raise_if, reads, query, optional, modify, commit, draw_uuid, draw_token, save_api_key, add_event,
  transaction, ◌>>=◌, ◌>>◌,
}

pub record ApiKeyMaterial : Type 0 where
  pub plain_text : String
  pub key_prefix : String
  pub key_hash : String

-- The primary key and the unique column `key_hash`, which the flush of a new or changed row checks
-- against the other rows.
abbrev pub id_taken : String → List ApiKey → Bool
id_taken id keys = contains id (map (λ (k : ApiKey). k.id) keys)

abbrev pub hash_taken : String → List ApiKey → Bool
hash_taken key_hash keys = contains key_hash (map (λ (k : ApiKey). k.key_hash) keys)

abbrev pub tenant_of_key : Option ApiKey → Option String
tenant_of_key none = none
tenant_of_key (some k) = if k.revoked then none else some k.tenant_id

unfoldable pub new_api_key : ℕ → String → ApiKeyMaterial → String → ApiKey
new_api_key now tenant_id material id = record {
  id = id;
  tenant_id = tenant_id;
  key_prefix = material.key_prefix;
  key_hash = material.key_hash;
  revoked = Bool.false;
  created_at = now;
  revoked_at = none;
}

unfoldable pub rotated_key : ApiKeyMaterial → ApiKey → ApiKey
rotated_key material key_row = record key_row {
  key_prefix = material.key_prefix;
  key_hash = material.key_hash;
}

unfoldable pub revoked_key : ℕ → ApiKey → ApiKey
revoked_key now key_row = record key_row { revoked = Bool.true; revoked_at = some now }

unfoldable pub new_tenant : ℕ → String → String → String → Tenant
new_tenant now name slug id = record { id = id; name = name; slug = slug; created_at = now }

module _ (env : Env) where
  unfoldable pub hash_api_key : String → String
  hash_api_key raw_key = env.sha256 raw_key

  -- The text that `secrets.token_urlsafe(32)` draws, and what is kept of it.
  abbrev pub material_of : String → ApiKeyMaterial
  material_of plain = record {
    plain_text = plain;
    key_prefix = env.slice_to 8 plain;
    key_hash = hash_api_key plain;
  }

  -- `generate_api_key`, which draws before the session is opened.
  abbrev pub generate_api_key :
      {A : Type 0} → (ApiKeyMaterial → World → Outcome A × World) → World → Outcome A × World
  generate_api_key next w =
      next (material_of (env.token_urlsafe w.drawn)) (record w { drawn = w.drawn + 1 })

  abbrev pub key_by_id : String → String → Db → Selected ApiKey
  key_by_id tenant_id api_key_id db =
      env.one_or_none (λ (k : ApiKey). (k.tenant_id == tenant_id) && (k.id == api_key_id))
        db.api_keys

  abbrev pub key_by_hash : String → Db → Selected ApiKey
  key_by_hash key_hash db = env.one_or_none (λ (k : ApiKey). k.key_hash == key_hash) db.api_keys

  -- `session.add(ApiKey(...))` and the flush of it.
  unfoldable pub add_api_key : ℕ → String → ApiKeyMaterial → Tx ApiKey
  add_api_key now tenant_id material = do
    id ← draw_uuid env
    taken ← reads (λ db. id_taken id db.api_keys || hash_taken material.key_hash db.api_keys)
    raise_if taken integrity_error
    modify
        (λ db. record db { api_keys = db.api_keys ++ new_api_key now tenant_id material id ∷ [] })
    pure (new_api_key now tenant_id material id)

  unfoldable pub create_api_key :
      ℕ → String → Option String → World → Outcome (ApiKey × String) × World
  create_api_key now tenant_id actor = generate_api_key λ material. transaction do
    api_key ← add_api_key now tenant_id material
    add_event env now tenant_id "api_key.create" actor
        (("api_key_id", text api_key.id) ∷ ("key_prefix", text api_key.key_prefix) ∷ [])
    commit
    pure (api_key, material.plain_text)

  abbrev pub require_api_key : String → String → Tx ApiKey
  require_api_key tenant_id api_key_id = do
    key_row ← query (λ db. optional (key_by_id tenant_id api_key_id db))
    elim key_row [ none ↦ raise (value_error "api key not found") | some k ↦ pure k ]

  -- What a rotation writes.
  unfoldable pub put_rotated :
      ℕ → String → Option String → ApiKeyMaterial → ApiKey → Tx (ApiKey × String)
  put_rotated now tenant_id actor material key_row = do
    raise_if key_row.revoked (value_error "cannot rotate revoked api key")
    taken ← reads (λ db.
        hash_taken material.key_hash
          (delete_where (λ (k : ApiKey). k.id == key_row.id) db.api_keys))
    raise_if taken integrity_error
    modify (λ db. record db { api_keys = save_api_key (rotated_key material key_row) db.api_keys })
    add_event env now tenant_id "api_key.rotate" actor
        (("api_key_id", text key_row.id) ∷ ("key_prefix", text material.key_prefix) ∷ [])
    commit
    pure (rotated_key material key_row, material.plain_text)

  unfoldable pub rotate_api_key :
      ℕ → String → String → Option String → World → Outcome (ApiKey × String) × World
  rotate_api_key now tenant_id api_key_id actor = generate_api_key λ material. transaction do
    key_row ← require_api_key tenant_id api_key_id
    put_rotated now tenant_id actor material key_row

  unfoldable pub revoke_api_key :
      ℕ → String → String → Option String → World → Outcome ApiKey × World
  revoke_api_key now tenant_id api_key_id actor = transaction do
    key_row ← require_api_key tenant_id api_key_id
    modify (λ db. record db { api_keys = save_api_key (revoked_key now key_row) db.api_keys })
    add_event env now tenant_id "api_key.revoke" actor (("api_key_id", text key_row.id) ∷ [])
    commit
    pure (revoked_key now key_row)

  unfoldable pub resolve_tenant_id_from_api_key : String → Db → Outcome (Option String)
  resolve_tenant_id_from_api_key raw_key db =
      and_then (optional (key_by_hash (hash_api_key raw_key) db))
        λ api_key. ok (tenant_of_key api_key)

  unfoldable pub get_tenant_by_api_key : String → Db → Outcome (Option Tenant)
  get_tenant_by_api_key raw_api_key db =
      and_then (resolve_tenant_id_from_api_key raw_api_key db) λ tenant_id. elim tenant_id [
        | none ↦ ok none
        | some id ↦ optional (env.one_or_none (λ (t : Tenant). t.id == id) db.tenants)
      ]

  -- The listing has no limit.
  unfoldable pub list_api_keys : String → Db → List ApiKey
  list_api_keys tenant_id db =
      env.newest (λ (k : ApiKey). k.created_at) (λ k. k.id) (λ k. k.tenant_id == tenant_id)
        (length db.api_keys) 0 db.api_keys

  unfoldable pub list_tenants : ℕ → ℕ → Db → Outcome (List Tenant × ℕ)
  list_tenants limit offset db =
      if ltb limit 1
      then raised (value_error "limit must be >= 1")
      else ok (
        env.newest (λ (t : Tenant). t.created_at) (λ t. t.id) (λ t. Bool.true) limit offset
            db.tenants,
        env.count_rows (λ (t : Tenant). Bool.true) db.tenants,
      )

  -- `_next_unique_tenant_slug`: the column `slug` is unique, so that no read finds two rows.
  unfoldable pub slug_exists : Db → String → Bool
  slug_exists db candidate =
      elim (env.one_or_none (λ (t : Tenant). t.slug == candidate) db.tenants) [
        | absent ↦ Bool.false
        | _ ↦ Bool.true
      ]

  unfoldable pub next_unique_tenant_slug : String → Db → Outcome String
  next_unique_tenant_slug name db =
      elim (unique_tenant_slug env (suc (length db.tenants)) name (slug_exists db)) [
        | none ↦ raised (external "out of fuel")
        | some slug ↦ ok slug
      ]

  unfoldable pub bootstrap_tenant :
      ℕ → String → Option String → World → Outcome (Tenant × String) × World
  bootstrap_tenant now name actor = generate_api_key λ material. transaction do
    slug ← query (next_unique_tenant_slug name)
    id ← draw_uuid env
    taken ← reads (λ db. contains id (map (λ (t : Tenant). t.id) db.tenants))
    raise_if taken integrity_error
    modify (λ db. record db { tenants = db.tenants ++ new_tenant now name slug id ∷ [] })
    add_api_key now id material
    add_event env now id "tenant.bootstrap" actor (("tenant_name", text name) ∷ [])
    commit
    pure (new_tenant now name slug id, material.plain_text)
