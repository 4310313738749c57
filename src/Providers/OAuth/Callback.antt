-- ===== src/Providers/OAuth/Callback.antt =====
-- `complete_provider_oauth_callback` of service.py when it returns, and called once more.

use invoices_codex.Prelude.{
  ℕ, String, ◌≡◌, refl, ap, ◌∙◌, ◌<◌, ◌+◌, Bool, true, false, Option, none, some, inl, inr, [], ◌∷◌,
  ◌==◌, ◌&&◌, arith, filter_holds, filter-save_kept, IsKeyed, Option-cases, contains, joined,
  eq_iff, if◌then◌else◌,
}
use invoices_codex.Env.{
  Env, Dict, object, get, pop, found, ReadsRows, filter_of_found, found_of_filter,
}
use invoices_codex.Models.{ProviderConfig}
use invoices_codex.Store.{
  World, Session, ok, raised, provider_error, save_provider, Selected-cases, Outcome-cases,
}
use invoices_codex.Providers.Fields.{provider_config_payload, provider_row_or_error}
use invoices_codex.Providers.OAuth.{
  seal_provider_token, state_hash_key, state_expires_at_key, redirect_uri_key,
  clear_provider_oauth_state, state_hash, with_payload, connected_row, expected_state,
  finish_callback, complete_provider_oauth_callback,
}

-- What `pop` takes out is not there any more, and the rest is as it was.
get-pop : (k j : String) (d : Dict) → get k (pop j d) ≡ (if k == j then none else get k d)
get-pop k j [] = ground arith
get-pop k j ((i, v) ∷ d) = ground (arith, get-pop k j d, eq_iff k i, eq_iff j i, eq_iff k j)

get-cleared :
    (k : String) (d : Dict)
    → get k (clear_provider_oauth_state d) ≡ (
        if contains k ("_oauth_state_hash" ∷ "_oauth_state_expires_at" ∷ "_oauth_redirect_uri" ∷ [])
        then none
        else get k d)
unfolding clear_provider_oauth_state
get-cleared k d = ground (
  arith,
  get-pop k state_hash_key d,
  get-pop k state_expires_at_key (pop state_hash_key d),
  get-pop k redirect_uri_key (pop state_expires_at_key (pop state_hash_key d)),
)

abbrev pub is_provider : String → String → ProviderConfig → Bool
is_provider tenant_id id p = (p.tenant_id == tenant_id) && (p.id == id)

pub record Connected (env : Env) (now : ℕ) (tenant_id provider_id state : String)
    (r : ProviderConfig) (w w' : World) : Type 0 where
  pub old : ProviderConfig
  pub payload : Dict
  pub hash : String
  pub expires_at : ℕ
  pub was_found : env.one_or_none (is_provider tenant_id provider_id) w.db.providers ≡ found old
  pub payload_read : provider_config_payload env old ≡ ok payload
  pub state_expected : expected_state env payload ≡ some (hash, expires_at)
  pub not_expired : now < expires_at
  pub state_right : (hash == env.sha256 (env.strip state)) ≡ true
  pub payload_after : Dict
  pub payload_cleared : payload_after ≡ clear_provider_oauth_state payload
  pub state_gone :
      (k : String)
      → get k payload_after ≡ (
          if contains k
            ("_oauth_state_hash" ∷ "_oauth_state_expires_at" ∷ "_oauth_redirect_uri" ∷ [])
          then none
          else get k payload)
  pub returned : r ≡ (record old {
    config_json = env.dumps_sorted payload_after;
    oauth_access_token_enc = some (
        joined "sha256:"
          (env.sha256 (joined old.provider_type (joined ":access:" (env.token_urlsafe w.drawn)))));
    oauth_refresh_token_enc = some (
        joined "sha256:" (
          env.sha256
            (joined old.provider_type (joined ":refresh:" (env.token_urlsafe (w.drawn + 1))))));
    connection_status = "connected";
    token_expires_at = some (now + 3600000000);
    last_successful_sync_at = some now;
    last_error_code = none;
    last_error_message = none;
    updated_at = now;
  })
  pub saved : w'.db.providers ≡ save_provider r w.db.providers

-- What the end of a callback does when it returns.
finish_callback-ok :
    (env : Env) (now : ℕ) (tenant_id state : String) (actor request_id : Option String)
    (row : ProviderConfig) (payload : Dict) (hash : String) (expires_at : ℕ) (s : Session)
    (r : ProviderConfig)
    → (finish_callback env now tenant_id state actor request_id row payload
        (some (hash, expires_at))
        s).0
      ≡ ok r
    → (now < expires_at)
      × ((hash == state_hash env state) ≡ true)
      × (r
          ≡ connected_row env now
              (with_payload env now row (clear_provider_oauth_state payload))
              (env.token_urlsafe s.outside.drawn)
              (env.token_urlsafe (s.outside.drawn + 1)))
      × ((finish_callback env now tenant_id state actor request_id row payload
            (some (hash, expires_at))
            s).1.stored.providers
          ≡ save_provider r s.pending.providers)
unfolding finish_callback
finish_callback-ok env now tenant_id state actor request_id row payload hash expires_at s r h =
    (ground arith, ground arith, ground arith, ground arith)

finish_callback-none :
    (env : Env) (now : ℕ) (tenant_id state : String) (actor request_id : Option String)
    (row : ProviderConfig) (payload : Dict) (s : Session)
    → finish_callback env now tenant_id state actor request_id row payload none s ≡ (
      raised (provider_error "PROVIDER_OAUTH_STATE_INVALID" "oauth state is missing or invalid"),
      s,
    )
unfolding finish_callback
finish_callback-none env now tenant_id state actor request_id row payload s = refl

-- A callback that returns has found the tenant's provider with a stored state that is not expired and whose
-- hash is that of the given state; it seals two new tokens, clears the state and saves the
-- provider's row.
pub complete_provider_oauth_callback-Connected :
    (env : Env) (now : ℕ) (tenant_id provider_id state code : String)
    (actor request_id : Option String) (r : ProviderConfig) (w : World)
    → (complete_provider_oauth_callback env now tenant_id provider_id state code actor request_id
        w).0
      ≡ ok r
    → Connected env now tenant_id provider_id state r w
        (complete_provider_oauth_callback env now tenant_id provider_id state code actor request_id
          w).1
unfolding complete_provider_oauth_callback provider_row_or_error connected_row with_payload
    state_hash seal_provider_token
complete_provider_oauth_callback-Connected env now tenant_id provider_id state code actor request_id
      r w h =
    elim (Selected-cases (env.one_or_none (is_provider tenant_id provider_id) w.db.providers)) [
      | inl none_found ↦ absurd (ground arith)
      | inr (inr several) ↦ absurd (ground arith)
      | inr (inl (old, e)) ↦ elim (Outcome-cases (provider_config_payload env old)) [
        | inr (x, e') ↦ absurd (ground arith)
        | inl (payload, e') ↦ elim (Option-cases (expected_state env payload)) [
          | inl nothing ↦
              let s0 : Session = record { stored = w.db; pending = w.db; outside = w } in
              absurd (
                ground (
                  arith,
                  finish_callback-none env now tenant_id (env.strip state) actor request_id old
                      payload s0,
                ))
          | inr ((hash, expires_at), e'') ↦
              let s0 : Session = record { stored = w.db; pending = w.db; outside = w } in
              let done =
                finish_callback-ok env now tenant_id (env.strip state) actor request_id old payload
                  hash expires_at s0 r in
              record {
                old = old;
                payload = payload;
                hash = hash;
                expires_at = expires_at;
                was_found = e;
                payload_read = e';
                state_expected = e'';
                not_expired = ground (arith, done);
                state_right = ground (arith, done);
                payload_after = clear_provider_oauth_state payload;
                payload_cleared = refl;
                state_gone = λ k. get-cleared k payload;
                returned = ground (arith, done);
                saved = ground (arith, done);
              }
        ]
      ]
    ]

cleared :
    (env : Env) (payload : Dict)
    → get state_hash_key payload ≡ none
    → expected_state env payload ≡ none
unfolding expected_state
cleared env payload gone = rw (gone, expected_state) refl

-- A payload that was read from JSON and that `json.dumps` writes without its state, sorted, is read back by
-- `json.loads` with the same values.
abbrev pub LoadsDumped : Env → Type 0
LoadsDumped env =
    (t : String) (d : Dict)
    → env.loads t ≡ object d
    → (d' : Dict) × (env.loads (env.dumps_sorted (clear_provider_oauth_state d)) ≡ object d')
      × ((k : String) → get k d' ≡ get k (clear_provider_oauth_state d))

callback-no_state :
    (env : Env) (now : ℕ) (tenant_id provider_id state code : String)
    (actor request_id : Option String) (row : ProviderConfig) (payload : Dict) (w : World)
    → (env.strip state == "") ≡ false
    → (env.strip code == "") ≡ false
    → env.one_or_none (is_provider tenant_id provider_id) w.db.providers ≡ found row
    → provider_config_payload env row ≡ ok payload
    → expected_state env payload ≡ none
    → complete_provider_oauth_callback env now tenant_id provider_id state code actor request_id w
      ≡ (
        raised (provider_error "PROVIDER_OAUTH_STATE_INVALID" "oauth state is missing or invalid"),
        w,
      )
unfolding complete_provider_oauth_callback provider_row_or_error
callback-no_state env now tenant_id provider_id state code actor request_id row payload w some_state
      some_code known read nothing =
    let s0 : Session = record { stored = w.db; pending = w.db; outside = w } in
    ground (
      arith,
      finish_callback-none env now tenant_id (env.strip state) actor request_id row payload s0,
    )

new_row-kept :
    (env : Env) (now : ℕ) (old : ProviderConfig) (payload : Dict)
    (access refresh tenant_id provider_id : String)
    → ((connected_row env now (with_payload env now old payload) access refresh).id ≡ old.id)
      × (is_provider tenant_id provider_id
            (connected_row env now (with_payload env now old payload) access refresh)
          ≡ is_provider tenant_id provider_id old)
unfolding connected_row with_payload
new_row-kept env now old payload access refresh tenant_id provider_id = (refl, refl)

new_row-payload :
    (env : Env) (now : ℕ) (old : ProviderConfig) (payload back : Dict) (access refresh : String)
    → env.loads (env.dumps_sorted payload) ≡ object back
    → provider_config_payload env
        (connected_row env now (with_payload env now old payload) access refresh)
      ≡ ok back
unfolding connected_row with_payload provider_config_payload
new_row-payload env now old payload back access refresh h = ground arith

payload-loads :
    (env : Env) (old : ProviderConfig) (payload : Dict)
    → provider_config_payload env old ≡ ok payload
    → env.loads old.config_json ≡ object payload
unfolding provider_config_payload
payload-loads env old payload h = ground arith

-- Once a callback has returned, no state is stored any more: another callback of the provider, with any
-- state and code, is refused and changes nothing.
pub complete_provider_oauth_callback_once :
    (env : Env) (reads : ReadsRows env) (loads_dumped : LoadsDumped env) (now later : ℕ)
    (tenant_id provider_id state code state' code' : String) (actor request_id : Option String)
    (r : ProviderConfig) (w : World)
    → IsKeyed (λ (p : ProviderConfig). p.id) w.db.providers
    → (env.strip state' == "") ≡ false
    → (env.strip code' == "") ≡ false
    → (complete_provider_oauth_callback env now tenant_id provider_id state code actor request_id
        w).0
      ≡ ok r
    → complete_provider_oauth_callback env later tenant_id provider_id state' code' actor request_id
        (complete_provider_oauth_callback env now tenant_id provider_id state code actor request_id
          w).1
      ≡ (
        raised (provider_error "PROVIDER_OAUTH_STATE_INVALID" "oauth state is missing or invalid"),
        (complete_provider_oauth_callback env now tenant_id provider_id state code actor request_id
            w).1,
      )
unfolding save_provider connected_row with_payload seal_provider_token
complete_provider_oauth_callback_once env reads loads_dumped now later tenant_id provider_id state
      code state' code' actor request_id r w keyed some_state some_code h =
    let c =
      complete_provider_oauth_callback-Connected env now tenant_id provider_id state code actor
        request_id r w h in
    let p = is_provider tenant_id provider_id in
    let one = filter_of_found reads p w.db.providers c.old c.was_found in
    let payload' = c.payload_after in
    let back = rw (← c.payload_cleared) at (
      loads_dumped c.old.config_json c.payload
        (payload-loads env c.old c.payload c.payload_read)) in
    let access = env.token_urlsafe w.drawn in
    let refresh = env.token_urlsafe (w.drawn + 1) in
    let kept = new_row-kept env now c.old payload' access refresh tenant_id provider_id in
    let still = found_of_filter reads p _ r (
      rw c.saved (
        filter-save_kept p (λ (q : ProviderConfig). q.id) c.old r w.db.providers
          (ap p c.returned ∙ kept.1 ∙ filter_holds p c.old w.db.providers one)
          (ap (λ (q : ProviderConfig). q.id) c.returned ∙ kept.0) keyed one)) in
    callback-no_state env later tenant_id provider_id state' code' actor request_id r back.0 _
      some_state some_code still
      (ap (provider_config_payload env) c.returned
        ∙ new_row-payload env now c.old payload' back.0 access refresh back.1)
      (cleared env back.0 (back.2 state_hash_key ∙ c.state_gone state_hash_key))
