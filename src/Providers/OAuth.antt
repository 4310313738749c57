-- ===== src/Providers/OAuth.antt =====
-- `start_provider_oauth` and `complete_provider_oauth_callback` of service.py.
pub mod Callback
use invoices_codex.Prelude.{
  ℕ, String, ◌+◌, ◌*◌, Bool, not, Option, none, some, [], ◌∷◌, ◌==◌, leb, joined, if◌then◌else◌,
}
use invoices_codex.Env.{Env, Dict, Json, text, text_or_null, get, put, pop}
use invoices_codex.Models.{ProviderConfig}
use invoices_codex.Store.{
  Db, Tx, Outcome, ok, raised, World, Fault, provider_error, pure, raise, raise_if, query, modify,
  commit, draw_token, add_event, save_provider, transaction, ◌>>=◌, ◌>>◌,
}
use invoices_codex.Providers.Fields.{
  Value, OAuthConfig, validation_error, provider_config_payload, provider_row_or_error,
  validate_oauth_redirect_uri, provider_oauth_authorization_url,
}

abbrev pub state_hash_key : String
state_hash_key = "_oauth_state_hash"

abbrev pub state_expires_at_key : String
state_expires_at_key = "_oauth_state_expires_at"

abbrev pub redirect_uri_key : String
redirect_uri_key = "_oauth_redirect_uri"

-- The state lives ten minutes, an access token one hour.
abbrev pub state_ttl : ℕ
state_ttl = 10 * 60 * 1000000

abbrev pub access_token_ttl : ℕ
access_token_ttl = 60 * 60 * 1000000

pub record ProviderOAuthStartResult : Type 0 where
  pub provider : ProviderConfig
  pub authorization_url : String
  pub state : String
  pub state_expires_at : ℕ

abbrev state_invalid : Fault
state_invalid = provider_error "PROVIDER_OAUTH_STATE_INVALID" "oauth state is missing or invalid"

-- `_clear_provider_oauth_state`
unfoldable pub clear_provider_oauth_state : Dict → Dict
clear_provider_oauth_state payload =
    pop redirect_uri_key (pop state_expires_at_key (pop state_hash_key payload))

module _ (env : Env) where
  -- `_state_hash`
  unfoldable pub state_hash : String → String
  state_hash state = env.sha256 state

  -- `_seal_provider_token`
  unfoldable pub seal_provider_token : String → String
  seal_provider_token raw_token = joined "sha256:" (env.sha256 raw_token)

  -- The payload with the state of a flow that has begun.
  unfoldable pub with_oauth_state : String → ℕ → String → Dict → Dict
  unfolding state_hash
  with_oauth_state state expires_at redirect_uri payload =
      put redirect_uri_key (text redirect_uri) (
        put state_expires_at_key (text (env.isoformat expires_at))
          (put state_hash_key (text (state_hash state)) payload))

  -- `_set_provider_config_payload`, with the update time
  unfoldable pub with_payload : ℕ → ProviderConfig → Dict → ProviderConfig
  with_payload now row payload = record row {
    config_json = env.dumps_sorted payload;
    updated_at = now;
  }

  abbrev pub provider_event :
      ℕ → String → String → Option String → Option String → ProviderConfig → Dict → Tx (Unit {0})
  provider_event now tenant_id event_type actor request_id row more =
      add_event env now tenant_id event_type actor (
        ("provider_id", text row.id)
        ∷ ("provider_type", text row.provider_type)
        ∷ ("request_id", text_or_null request_id)
        ∷ more)

  abbrev pub store_provider : ProviderConfig → Tx (Unit {0})
  store_provider row = modify (λ db. record db { providers = save_provider row db.providers })

  unfoldable pub begin_oauth :
      OAuthConfig
      → ℕ
      → String
      → String
      → String
      → Option String
      → Option String
      → Tx ProviderOAuthStartResult
  begin_oauth config now tenant_id provider_id redirect_uri actor request_id = do
    state ← draw_token env
    row ← query (provider_row_or_error env tenant_id provider_id)
    payload ← query (λ db. provider_config_payload env row)
    let row' = with_payload now row (with_oauth_state state (now + state_ttl) redirect_uri payload)
    store_provider row'
    provider_event now tenant_id "provider.oauth.start" actor request_id row'
        (("state_expires_at", text (env.isoformat (now + state_ttl))) ∷ [])
    commit
    url ←
        query
          (λ db. provider_oauth_authorization_url env config row.provider_type redirect_uri state)
    pure (record {
      provider = row';
      authorization_url = url;
      state = state;
      state_expires_at = now + state_ttl;
    })

  unfoldable pub start_provider_oauth :
      OAuthConfig
      → ℕ
      → String
      → String
      → Value
      → Option String
      → Option String
      → World
      → Outcome ProviderOAuthStartResult × World
  unfolding begin_oauth
  start_provider_oauth config now tenant_id provider_id redirect_uri actor request_id =
      transaction do
        uri ← query (λ db. validate_oauth_redirect_uri env config redirect_uri)
        begin_oauth config now tenant_id provider_id uri actor request_id

  -- The row of a flow whose state has expired.
  unfoldable pub expired_row : ℕ → ProviderConfig → Dict → ProviderConfig
  unfolding clear_provider_oauth_state
  expired_row now row payload = record row {
    config_json = env.dumps_sorted (clear_provider_oauth_state payload);
    connection_status = "error";
    last_error_code = some "OAUTH_STATE_EXPIRED";
    last_error_message = some "OAuth state has expired. Restart provider connect.";
    updated_at = now;
  }

  -- The row after new tokens were sealed: connected, with no error.
  unfoldable pub connected_row : ℕ → ProviderConfig → String → String → ProviderConfig
  connected_row now row access refresh = record row {
    oauth_access_token_enc =
        some (seal_provider_token (joined row.provider_type (joined ":access:" access)));
    oauth_refresh_token_enc =
        some (seal_provider_token (joined row.provider_type (joined ":refresh:" refresh)));
    connection_status = "connected";
    token_expires_at = some (now + access_token_ttl);
    last_successful_sync_at = some now;
    last_error_code = none;
    last_error_message = none;
    updated_at = now;
  }

  -- The hash and the expiry time of the state that is stored.
  unfoldable pub expected_state : Dict → Option (String × ℕ)
  expected_state payload = elim (get state_hash_key payload) [
    | some (text hash) ↦ elim (get state_expires_at_key payload) [
      | some (text raw) ↦ elim (env.fromisoformat raw) [
        | none ↦ none
        | some expires_at ↦ some (hash, expires_at)
      ]
      | _ ↦ none
    ]
    | _ ↦ none
  ]

  abbrev fail_callback :
      ℕ
      → String
      → Option String
      → Option String
      → ProviderConfig
      → String
      → Fault
      → Tx ProviderConfig
  fail_callback now tenant_id actor request_id row reason fault = do
    provider_event now tenant_id "provider.oauth.callback.failed" actor request_id row
        (("reason", text reason) ∷ [])
    commit
    raise fault

  unfoldable pub finish_callback :
      ℕ
      → String
      → String
      → Option String
      → Option String
      → ProviderConfig
      → Dict
      → Option (String × ℕ)
      → Tx ProviderConfig
  unfolding clear_provider_oauth_state
  finish_callback now tenant_id state actor request_id row payload none = raise state_invalid
  finish_callback now tenant_id state actor request_id row payload (some (hash, expires_at)) =
      if leb expires_at now
      then store_provider (expired_row now row payload)
        >> fail_callback now tenant_id actor request_id (expired_row now row payload)
            "state_expired"
            (provider_error "PROVIDER_OAUTH_STATE_EXPIRED" "oauth state has expired")
      else if not (hash == state_hash state)
      then fail_callback now tenant_id actor request_id row "state_invalid" state_invalid
      else do
        access ← draw_token env
        refresh ← draw_token env
        let row' =
            connected_row now (with_payload now row (clear_provider_oauth_state payload)) access
              refresh
        store_provider row'
        provider_event now tenant_id "provider.oauth.callback.succeeded" actor request_id row' []
        commit
        pure row'

  unfoldable pub complete_provider_oauth_callback :
      ℕ
      → String
      → String
      → String
      → String
      → Option String
      → Option String
      → World
      → Outcome ProviderConfig × World
  complete_provider_oauth_callback now tenant_id provider_id state code actor request_id =
      transaction do
        let state' = env.strip state
        raise_if (state' == "") (validation_error "state is required")
        raise_if (env.strip code == "") (validation_error "code is required")
        row ← query (provider_row_or_error env tenant_id provider_id)
        payload ← query (λ db. provider_config_payload env row)
        finish_callback now tenant_id state' actor request_id row payload (expected_state payload)
