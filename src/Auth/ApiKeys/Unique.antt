-- ===== src/Auth/ApiKeys/Unique.antt =====
-- Sequences of calls that change the API keys, and the unique columns of the table.
use invoices_codex.Prelude.{ℕ, String, ap, Option, List, [], ◌∷◌, inl, inr}
use invoices_codex.Prelude.Keyed.{
  Lacks-contains, All-delete_where, All-IsKeyed, IsKeyed-append_last, IsKeyed-save,
  IsKeyed-save_column,
}
use invoices_codex.Env.{Env, ReadsRows}
use invoices_codex.Models.{ApiKey}
use invoices_codex.Store.{Db, World, save_api_key, Outcome-cases}
use invoices_codex.Auth.ApiKeys.{
  hash_api_key, material_of, create_api_key, rotated_key, rotate_api_key, revoked_key,
  revoke_api_key,
}
use invoices_codex.Auth.ApiKeys.Creation.{Added, create_api_key-Added, create_api_key-kept}
use invoices_codex.Auth.ApiKeys.Changes.{revoke_api_key-outcomes, rotate_api_key-outcomes}
use invoices_codex.Auth.ApiKeys.Lookups.{IsKeyTable, found-In}

-- The calls, each with its instant, its arguments and its actor.
pub data KeyCall : Type 0 where
  create_key : ℕ → String → Option String → KeyCall
  rotate_key : ℕ → String → String → Option String → KeyCall
  revoke_key : ℕ → String → String → Option String → KeyCall

Added-IsKeyTable :
    (env : Env) (tenant_id plain : String) (k : ApiKey) (db db' : Db)
    → Added env tenant_id (material_of env plain) k db db'
    → IsKeyTable db.api_keys
    → IsKeyTable db'.api_keys
Added-IsKeyTable env tenant_id plain k db db' a table =
    let id_of : ApiKey → String = λ x. x.id in
    let hash_of : ApiKey → String = λ x. x.key_hash in
    let ids = Lacks-contains id_of k.id db.api_keys a.id_free in
    let hashes = Lacks-contains hash_of (hash_api_key env plain) db.api_keys a.hash_free in
    rw a.row_added (record {
      ids_distinct = IsKeyed-append_last id_of k db.api_keys table.ids_distinct ids;
      hashes_distinct =
          IsKeyed-append_last hash_of k db.api_keys table.hashes_distinct (rw a.hash_kept hashes);
    })

module _ (env : Env) where
  abbrev pub run_call : KeyCall → World → World
  run_call (create_key now tenant_id actor) w = (create_api_key env now tenant_id actor w).1
  run_call (rotate_key now tenant_id id actor) w = (rotate_api_key env now tenant_id id actor w).1
  run_call (revoke_key now tenant_id id actor) w = (revoke_api_key env now tenant_id id actor w).1

  abbrev pub run_calls : List KeyCall → World → World
  run_calls [] w = w
  run_calls (c ∷ cs) w = run_calls cs (run_call c w)

module _ (env : Env) (reads : ReadsRows env) where
  create-IsKeyTable :
      (now : ℕ) (tenant_id : String) (actor : Option String) (w : World)
      → IsKeyTable w.db.api_keys
      → IsKeyTable (create_api_key env now tenant_id actor w).1.db.api_keys
  create-IsKeyTable now tenant_id actor w table =
      let w' = (create_api_key env now tenant_id actor w).1 in
      elim (Outcome-cases (create_api_key env now tenant_id actor w).0) [
        | inr (e, h) ↦
            let kept = create_api_key-kept env now tenant_id actor e w h in
            rw (ap (λ (db : Db). db.api_keys) kept) table
        | inl (r, h) ↦
            Added-IsKeyTable env tenant_id r.1 r.0 w.db w'.db
              (create_api_key-Added env now tenant_id actor r w h) table
      ]

  rotate-IsKeyTable :
      (now : ℕ) (tenant_id id : String) (actor : Option String) (w : World)
      → IsKeyTable w.db.api_keys
      → IsKeyTable (rotate_api_key env now tenant_id id actor w).1.db.api_keys
  unfolding rotated_key save_api_key
  rotate-IsKeyTable now tenant_id id actor w table =
      elim (rotate_api_key-outcomes env now tenant_id id actor w) [
        | inl (kept, (x, e)) ↦ rw (ap (λ (db : Db). db.api_keys) kept) table
        | inr (k, plain, done, p) ↦
            let id_of : ApiKey → String = λ x. x.id in
            let hash_of : ApiKey → String = λ x. x.key_hash in
            rw p.replaced.row_saved (record {
              ids_distinct = IsKeyed-save id_of _ w.db.api_keys table.ids_distinct;
              hashes_distinct =
                  IsKeyed-save_column id_of hash_of _ w.db.api_keys table.ids_distinct
                    table.hashes_distinct
                    (All-delete_where id_of hash_of (hash_api_key env plain) k.id w.db.api_keys
                      p.hash_free);
            })
      ]

  revoke-IsKeyTable :
      (now : ℕ) (tenant_id id : String) (actor : Option String) (w : World)
      → IsKeyTable w.db.api_keys
      → IsKeyTable (revoke_api_key env now tenant_id id actor w).1.db.api_keys
  unfolding revoked_key save_api_key
  revoke-IsKeyTable now tenant_id id actor w table =
      elim (revoke_api_key-outcomes env now tenant_id id actor w) [
        | inl (kept, (x, e)) ↦ rw (ap (λ (db : Db). db.api_keys) kept) table
        | inr (k, done, p) ↦
            let id_of : ApiKey → String = λ x. x.id in
            let hash_of : ApiKey → String = λ x. x.key_hash in
            rw p.row_saved (record {
              ids_distinct = IsKeyed-save id_of _ w.db.api_keys table.ids_distinct;
              hashes_distinct =
                  IsKeyed-save_column id_of hash_of _ w.db.api_keys table.ids_distinct
                    table.hashes_distinct
                    (All-IsKeyed id_of hash_of k w.db.api_keys table.hashes_distinct
                      (found-In env reads tenant_id id k w.db p.row_found));
            })
      ]

  -- Any sequence of creations, rotations and revocations, whether each returns or raises, keeps the ids and the
  -- hashes of the API keys distinct.
  pub run_calls-IsKeyTable :
      (cs : List KeyCall) (w : World)
      → IsKeyTable w.db.api_keys
      → IsKeyTable (run_calls env cs w).db.api_keys
  run_calls-IsKeyTable [] w table = table
  run_calls-IsKeyTable (create_key now t a ∷ cs) w table =
      run_calls-IsKeyTable cs _ (create-IsKeyTable now t a w table)
  run_calls-IsKeyTable (rotate_key now t i a ∷ cs) w table =
      run_calls-IsKeyTable cs _ (rotate-IsKeyTable now t i a w table)
  run_calls-IsKeyTable (revoke_key now t i a ∷ cs) w table =
      run_calls-IsKeyTable cs _ (revoke-IsKeyTable now t i a w table)
