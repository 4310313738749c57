-- ===== src/Auth/Refresh.antt =====
-- `refresh_session` and `revoke_session` of service.py.
pub mod Rotation
pub mod Replay
pub mod Logout
pub mod Unconfigured
use invoices_codex.Prelude.{
  ℕ, String, ◌+◌, Bool, true, false, Option, none, some, ◌==◌, leb, is_some, if◌then◌else◌,
}
use invoices_codex.Env.{Env}
use invoices_codex.Models.{Tenant, User, TenantMembership, AuthSession}
use invoices_codex.Store.{
  Tx, Outcome, World, Fault, auth_error, pure, raise, reads, query, optional, modify, commit,
  draw_token, save_session, transaction, ◌>>=◌, ◌>>◌,
}
use invoices_codex.Auth.Common.{
  ServiceConfig, seconds, AuthSessionResult, hash_refresh_token, emit_auth_event, auth_fail,
  get_active_principals, issue_token,
}

module _ (env : Env) where
  -- The session whose refresh token this is.
  abbrev pub session_by_token : String → Tx (Option AuthSession)
  session_by_token refresh_token = do
    query (λ db. optional (
        env.one_or_none
          (λ (s : AuthSession). s.refresh_token_hash == hash_refresh_token env refresh_token)
          db.sessions))

  -- `_auth_fail` as `refresh_session` calls it.
  abbrev refresh_fail : {A : Type 0} → ℕ → Option String → AuthSession → String → String → Tx A
  refresh_fail now request_id existing code message =
      auth_fail env now existing.tenant_id "auth.refresh.failed" code message 401 request_id
        (some existing.user_id) (some existing.id) (some code)

  -- The row after a rotation: the hash of the new token, and the refresh window as it was.
  unfoldable pub rotated_row : ServiceConfig → ℕ → AuthSession → String → AuthSession
  rotated_row config now existing token = record existing {
    refresh_token_hash = hash_refresh_token env token;
    access_expires_at = now + seconds config.auth_access_token_ttl_seconds;
    last_seen_at = some now;
    updated_at = now;
  }

  -- The rotation: a new token's hash in place of the old one.
  unfoldable pub rotate :
      ServiceConfig
      → ℕ
      → Option String
      → AuthSession
      → User × TenantMembership × Tenant
      → Tx AuthSessionResult
  unfolding issue_token
  rotate config now request_id existing (user, membership, tenant) = do
    new_refresh_token ← draw_token env
    let row = rotated_row config now existing new_refresh_token
    modify (λ db. record db { sessions = save_session row db.sessions })
    emit_auth_event env now existing.tenant_id "auth.refresh.succeeded" request_id
        (some existing.user_id) (some existing.id) (some 200) none
    commit
    access_token ←
        issue_token env config existing.user_id existing.tenant_id existing.membership_id
          existing.id (now + seconds config.auth_access_token_ttl_seconds)
    pure (record {
      access_token = access_token;
      refresh_token = new_refresh_token;
      expires_in = config.auth_access_token_ttl_seconds;
      user = user;
      tenant = tenant;
      membership = membership;
      session = row;
    })

  -- The row of a session that is revoked.
  unfoldable pub revoked_row : ℕ → AuthSession → String → AuthSession
  revoked_row now existing reason = record existing {
    revoked_at = some now;
    revoke_reason = some reason;
    updated_at = now;
  }

  unfoldable pub refresh_principals :
      ServiceConfig
      → ℕ
      → Option String
      → AuthSession
      → Option (User × TenantMembership × Tenant)
      → Tx AuthSessionResult
  unfolding rotate
  refresh_principals config now request_id existing none = do
    modify (λ db. record db {
      sessions = save_session (revoked_row now existing "inactive_membership") db.sessions;
    })
    refresh_fail now request_id existing "AUTH_SESSION_REVOKED" "Session has been revoked."
  refresh_principals config now request_id existing (some p) =
      rotate config now request_id existing p

  unfoldable pub refresh_existing :
      ServiceConfig → ℕ → Option String → Option AuthSession → Tx AuthSessionResult
  unfolding refresh_principals
  refresh_existing config now request_id none =
      raise (auth_error "AUTH_REFRESH_INVALID" "Refresh token is invalid." 401)
  refresh_existing config now request_id (some existing) =
      if is_some existing.revoked_at
      then refresh_fail now request_id existing "AUTH_SESSION_REVOKED" "Session has been revoked."
      else if leb existing.refresh_expires_at now
      then refresh_fail now request_id existing "AUTH_SESSION_EXPIRED"
          "Session refresh window has expired."
      else do
        principals ←
            query
              (get_active_principals env existing.tenant_id existing.user_id existing.membership_id)
        refresh_principals config now request_id existing principals

  unfoldable pub refresh_session_tx :
      ServiceConfig → ℕ → Option String → String → Tx AuthSessionResult
  unfolding refresh_existing
  refresh_session_tx config now request_id refresh_token =
      if refresh_token == ""
      then raise (auth_error "AUTH_REFRESH_MISSING" "Refresh token is required." 401)
      else do
        existing ← session_by_token refresh_token
        refresh_existing config now request_id existing

  unfoldable pub refresh_session :
      ServiceConfig → ℕ → Option String → String → World → Outcome AuthSessionResult × World
  unfolding refresh_session_tx
  refresh_session config now request_id refresh_token =
      transaction (refresh_session_tx config now request_id refresh_token)

  -- The row of a session that is logged out; one that is revoked already stays as it is.
  unfoldable pub logged_out : ℕ → AuthSession → AuthSession
  logged_out now s = if is_some s.revoked_at then s else revoked_row now s "logout"

  unfoldable pub revoke_existing : ℕ → Option String → Option AuthSession → Tx (Unit {0})
  unfolding logged_out
  revoke_existing now request_id none = pure tt
  revoke_existing now request_id (some existing) = do
    modify (λ db. record db { sessions = save_session (logged_out now existing) db.sessions })
    emit_auth_event env now existing.tenant_id "auth.logout.succeeded" request_id
        (some existing.user_id) (some existing.id) (some 204) none
    commit

  unfoldable pub revoke_session_tx : ℕ → Option String → Option String → Tx (Unit {0})
  unfolding revoke_existing
  revoke_session_tx now request_id none = pure tt
  revoke_session_tx now request_id (some refresh_token) =
      if refresh_token == ""
      then pure tt
      else do existing ← session_by_token refresh_token; revoke_existing now request_id existing

  unfoldable pub revoke_session :
      ℕ → Option String → Option String → World → Outcome (Unit {0}) × World
  unfolding revoke_session_tx
  revoke_session now request_id refresh_token =
      transaction (revoke_session_tx now request_id refresh_token)
