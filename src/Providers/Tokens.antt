-- ===== src/Providers/Tokens.antt =====
-- `refresh_provider_oauth`, `revoke_provider_oauth` and `test_provider_connection` of service.py.
pub mod Revoked
use invoices_codex.Prelude.{
  ℕ, String, Bool, true, false, not, ◌||◌, Option, none, some, [], ◌∷◌, ◌==◌, leb, truthy?,
  if◌then◌else◌,
}
use invoices_codex.Env.{Env, Dict, text, bool}
use invoices_codex.Models.{ProviderConfig}
use invoices_codex.Store.{
  Tx, Outcome, World, provider_error, pure, raise, query, commit, draw_token, transaction, ◌>>=◌,
  ◌>>◌,
}
use invoices_codex.Providers.Fields.{provider_config_payload, provider_row_or_error}
use invoices_codex.Providers.OAuth.{
  clear_provider_oauth_state, provider_event, store_provider, connected_row,
}

pub record ProviderConnectionTestResult : Type 0 where
  pub provider : ProviderConfig
  pub success : Bool
  pub message : String
  pub tested_at : ℕ

module _ (env : Env) where
  unfoldable pub refresh_row :
      ℕ → String → Option String → Option String → ProviderConfig → Tx ProviderConfig
  refresh_row now tenant_id actor request_id row =
      if not (truthy? row.oauth_refresh_token_enc)
      then (do
        provider_event env now tenant_id "provider.oauth.refresh.failed" actor request_id row
            (("reason", text "not_connected") ∷ [])
        commit
        raise (provider_error "PROVIDER_OAUTH_NOT_CONNECTED" "provider is not connected"))
      else do
        access ← draw_token env
        refresh ← draw_token env
        let row' = connected_row env now row access refresh
        store_provider env row'
        provider_event env now tenant_id "provider.oauth.refresh.succeeded" actor request_id row' []
        commit
        pure row'

  unfoldable pub refresh_provider_oauth :
      ℕ → String → String → Option String → Option String → World → Outcome ProviderConfig × World
  unfolding refresh_row
  refresh_provider_oauth now tenant_id provider_id actor request_id = transaction do
    row ← query (provider_row_or_error env tenant_id provider_id)
    refresh_row now tenant_id actor request_id row

  -- The row without tokens, state and errors.
  unfoldable pub revoked_provider : ℕ → ProviderConfig → Dict → ProviderConfig
  unfolding clear_provider_oauth_state
  revoked_provider now row payload = record row {
    config_json = env.dumps_sorted (clear_provider_oauth_state payload);
    oauth_access_token_enc = none;
    oauth_refresh_token_enc = none;
    connection_status = "disconnected";
    token_expires_at = none;
    last_error_code = none;
    last_error_message = none;
    updated_at = now;
  }

  unfoldable pub revoke_provider_oauth :
      ℕ → String → String → Option String → Option String → World → Outcome ProviderConfig × World
  revoke_provider_oauth now tenant_id provider_id actor request_id = transaction do
    row ← query (provider_row_or_error env tenant_id provider_id)
    payload ← query (λ db. provider_config_payload env row)
    let row' = revoked_provider now row payload
    store_provider env row'
    provider_event env now tenant_id "provider.oauth.revoke.succeeded" actor request_id row' (
        (
          "had_tokens",
          bool (truthy? row.oauth_access_token_enc || truthy? row.oauth_refresh_token_enc),
        )
        ∷ [])
    commit
    pure row'

-- Why a connection test fails: the message, the reason, and whether the status becomes `error`.
pub record TestFailure : Type 0 where
  pub message : String
  pub reason : String
  pub is_error : Bool

abbrev is_expired : ℕ → Option ℕ → Bool
is_expired now none = false
is_expired now (some t) = leb t now

-- The failure that the fields of a row show, in the order of the code.
unfoldable pub connection_failure : ℕ → ProviderConfig → Option TestFailure
connection_failure now row =
    if row.connection_status == "disconnected"
    then some (record {
      message = "provider is not connected";
      reason = "not_connected";
      is_error = false;
    })
    else if is_expired now row.token_expires_at
    then some (record {
      message = "provider access token has expired";
      reason = "token_expired";
      is_error = true;
    })
    else if not (truthy? row.oauth_access_token_enc)
    then some (record {
      message = "provider credentials are missing; reconnect provider";
      reason = "missing_access_token";
      is_error = true;
    })
    else none

unfoldable pub failing_provider : ℕ → ProviderConfig → TestFailure → ProviderConfig
failing_provider now row f = record row {
  connection_status = if f.is_error then "error" else row.connection_status;
  last_error_code = some "PROVIDER_TEST_CONNECTION_FAILED";
  last_error_message = some f.message;
  updated_at = now;
}

unfoldable pub verified_provider : ℕ → ProviderConfig → ProviderConfig
verified_provider now row = record row {
  connection_status = "connected";
  last_successful_sync_at = some now;
  last_error_code = none;
  last_error_message = none;
  updated_at = now;
}

module _ (env : Env) where
  unfoldable pub record_test :
      ℕ
      → String
      → Option String
      → Option String
      → ProviderConfig
      → Option TestFailure
      → Tx ProviderConnectionTestResult
  record_test now tenant_id actor request_id row (some f) = do
    let row' = failing_provider now row f
    store_provider env row'
    provider_event env now tenant_id "provider.test_connection.failed" actor request_id row'
        (("reason", text f.reason) ∷ ("tested_at", text (env.isoformat now)) ∷ [])
    commit
    pure (record { provider = row'; success = false; message = f.message; tested_at = now })
  record_test now tenant_id actor request_id row none = do
    let row' = verified_provider now row
    store_provider env row'
    provider_event env now tenant_id "provider.test_connection.succeeded" actor request_id row'
        (("tested_at", text (env.isoformat now)) ∷ [])
    commit
    pure (record {
      provider = row';
      success = Bool.true;
      message = "provider connection verified";
      tested_at = now;
    })

  unfoldable pub test_provider_connection :
      ℕ
      → String
      → String
      → Option String
      → Option String
      → World
      → Outcome ProviderConnectionTestResult × World
  unfolding record_test
  test_provider_connection now tenant_id provider_id actor request_id = transaction do
    row ← query (provider_row_or_error env tenant_id provider_id)
    record_test now tenant_id actor request_id row (connection_failure now row)
