-- ===== src/Jobs/Idempotency.antt =====
-- Idempotency keys: `_resolve_idempotent_parse_job`, `_resolve_idempotent_report` and
-- `_resolve_idempotent_collection_job` of service.py, and the end of a creation that uses a key.
pub mod Lookup
use invoices_codex.Prelude.{
  ℕ, String, Bool, ◌&&◌, Option, none, some, [], ◌∷◌, ◌++◌, ◌==◌, or_none, or_empty,
}
use invoices_codex.Env.{Env, Selected}
use invoices_codex.Models.{IdempotencyRecord, ParseJob, Report, CollectionJob}
use invoices_codex.Store.{
  Db, Tx, Outcome, ok, integrity_error, pure, raise, query, modify, commit, draw_uuid, optional,
  and_then, ◌>>=◌, ◌>>◌,
}

-- `(idempotency_key or "").strip() or None`
abbrev pub normalize_key : Env → Option String → Option String
normalize_key env key = or_none (env.strip (or_empty key))

module _ (env : Env) where
  -- The record of a key under a scope.
  abbrev pub has_key : String → String → String → IdempotencyRecord → Bool
  has_key tenant_id scope key r =
      (r.tenant_id == tenant_id) && ((r.scope == scope) && (r.idempotency_key == key))

  -- The resource that a key was given to, by the read of its table.
  unfoldable pub resolve :
      {R : Type 0} → String → String → String → (String → Db → Selected R) → Db → Outcome (Option R)
  resolve tenant_id scope key read db =
      and_then (optional (env.one_or_none (has_key tenant_id scope key) db.idempotency))
        λ known. elim known [ none ↦ ok none | some r ↦ optional (read r.resource_id db) ]

  abbrev pub read_parse_job : String → String → Db → Selected ParseJob
  read_parse_job tenant_id id db =
      env.one_or_none (λ (j : ParseJob). (j.tenant_id == tenant_id) && (j.id == id)) db.parse_jobs

  abbrev pub read_report : String → String → Db → Selected Report
  read_report tenant_id id db =
      env.one_or_none (λ (r : Report). (r.tenant_id == tenant_id) && (r.id == id)) db.reports

  abbrev pub read_collection_job : String → String → Db → Selected CollectionJob
  read_collection_job tenant_id id db =
      env.one_or_none (λ (j : CollectionJob). (j.tenant_id == tenant_id) && (j.id == id))
        db.collection_jobs

  unfoldable pub resolve_idempotent_parse_job : String → String → Db → Outcome (Option ParseJob)
  unfolding resolve
  resolve_idempotent_parse_job tenant_id key =
      resolve tenant_id "parse_jobs.create" key (read_parse_job tenant_id)

  unfoldable pub resolve_idempotent_report : String → String → Db → Outcome (Option Report)
  unfolding resolve
  resolve_idempotent_report tenant_id key =
      resolve tenant_id "reports.create" key (read_report tenant_id)

  unfoldable pub resolve_idempotent_collection_job :
      String → String → Db → Outcome (Option CollectionJob)
  unfolding resolve
  resolve_idempotent_collection_job tenant_id key =
      resolve tenant_id "collection_jobs.create" key (read_collection_job tenant_id)

  -- The resource of a key, and nothing where no key is given.
  abbrev pub existing_for :
      {R : Type 0} → Option String → (String → Db → Outcome (Option R)) → Tx (Option R)
  existing_for none resolve_key = pure none
  existing_for (some key) resolve_key = query (resolve_key key)

  unfoldable pub idempotency_row :
      ℕ → String → String → String → String → String → String → IdempotencyRecord
  idempotency_row now id tenant_id scope key resource_type resource_id = record {
    id = id;
    tenant_id = tenant_id;
    scope = scope;
    idempotency_key = key;
    resource_type = resource_type;
    resource_id = resource_id;
    created_at = now;
  }

  -- `session.add(IdempotencyRecord(...))`, where a key is given
  abbrev pub remember_key : ℕ → String → String → Option String → String → String → Tx (Unit {0})
  remember_key now tenant_id scope none resource_type resource_id = pure tt
  remember_key now tenant_id scope (some key) resource_type resource_id = do
    id ← draw_uuid env
    modify (λ db. record db {
      idempotency =
          db.idempotency
          ++ idempotency_row now id tenant_id scope key resource_type resource_id ∷ [];
    })

  -- `session.commit()` that another transaction may have overtaken: `some db` is what the database
  -- holds where the commit raises `IntegrityError`, after the rollback.
  abbrev pub commit_or : {A : Type 0} → Option Db → Tx A → Tx A → Tx A
  commit_or none done lost s = (commit >> done) s
  commit_or (some db) done lost s = lost (record s { stored = db; pending = db })

  -- The `except IntegrityError` block of a creation.
  abbrev pub winner : {R : Type 0} → Option String → (String → Db → Outcome (Option R)) → Tx R
  winner none resolve_key = raise integrity_error
  winner (some key) resolve_key = do
    existing ← query (resolve_key key)
    elim existing [ none ↦ raise integrity_error | some r ↦ pure r ]
