-- ===== src/Auth/Refresh/Unconfigured.antt =====
-- `refresh_session` of service.py without a configured secret.
use invoices_codex.Prelude.{
  ℕ, String, ◌≡◌, Option, none, some, ◌==◌, false, leb, arith, ◌+◌, refl, filter-save_dropped,
}
use invoices_codex.Env.{Env, found, absent, ReadsRows, filter_of_found, absent_of_filter}
use invoices_codex.Models.{Tenant, User, TenantMembership, AuthSession}
use invoices_codex.Store.{World, ok, raised, runtime_error, auth_error, save_session}
use invoices_codex.Auth.Common.{
  ServiceConfig, seconds, configured, get_active_principals, hash_refresh_token,
}
use invoices_codex.Auth.Refresh.{rotated_row, refresh_session}
use invoices_codex.Auth.Refresh.Rotation.{has_token, row_of}
use invoices_codex.Auth.Refresh.Replay.{refresh_session-unknown}

-- The row that an unconfigured refresh has committed when it raises.
unconfigured-saved :
    (env : Env) (config : ServiceConfig) (now : ℕ) (rid : Option String) (token : String)
    (old : AuthSession) (p : User × TenantMembership × Tenant) (w : World)
    → configured config.auth_access_token_secret ≡ none
    → (token == "") ≡ false
    → row_of env token w.db ≡ found old
    → old.revoked_at ≡ none
    → leb old.refresh_expires_at now ≡ false
    → get_active_principals env old.tenant_id old.user_id old.membership_id w.db ≡ ok (some p)
    → ((refresh_session env config now rid token w).0
        ≡ raised (runtime_error "auth access token secret is not configured"))
      × ((refresh_session env config now rid token w).1.db.sessions
          ≡ save_session
              (record old {
                refresh_token_hash = env.sha256 (env.token_urlsafe w.drawn);
                access_expires_at = now + seconds config.auth_access_token_ttl_seconds;
                last_seen_at = some now;
                updated_at = now;
              })
              w.db.sessions)
unfolding refresh_session rotated_row hash_refresh_token
unconfigured-saved env config now rid token old p w unset given known live fresh active =
    (ground arith, ground arith)

-- With no secret configured, a refresh that passes every check raises a RuntimeError, and yet its token is refused
-- from then on, under any configuration: the hash of a new token, which the caller never gets, has been committed in
-- place of the old one. The new token's hash must be another one.
pub refresh_session_unconfigured :
    (env : Env) (reads : ReadsRows env) (config config' : ServiceConfig) (now later : ℕ)
    (rid : Option String) (token : String) (old : AuthSession)
    (p : User × TenantMembership × Tenant) (w : World)
    → configured config.auth_access_token_secret ≡ none
    → (token == "") ≡ false
    → row_of env token w.db ≡ found old
    → old.revoked_at ≡ none
    → leb old.refresh_expires_at now ≡ false
    → get_active_principals env old.tenant_id old.user_id old.membership_id w.db ≡ ok (some p)
    → (env.sha256 (env.token_urlsafe w.drawn) == env.sha256 token) ≡ false
    → ((refresh_session env config now rid token w).0
        ≡ raised (runtime_error "auth access token secret is not configured"))
      × ((refresh_session env config' later rid token
            (refresh_session env config now rid token w).1).0
          ≡ raised (auth_error "AUTH_REFRESH_INVALID" "Refresh token is invalid." 401))
unfolding save_session hash_refresh_token
refresh_session_unconfigured env reads config config' now later rid token old p w unset given known
      live fresh active other =
    let (failed, saved) =
      unconfigured-saved env config now rid token old p w unset given known live fresh active in
    let gone : row_of env token (refresh_session env config now rid token w).1.db ≡ absent =
      absent_of_filter reads (has_token env token) _ (
        rw saved (
          filter-save_dropped (has_token env token) (λ (s : AuthSession). s.id) old _ w.db.sessions
            other refl (filter_of_found reads (has_token env token) w.db.sessions old known))) in
    (failed, refresh_session-unknown env config' later rid token _ given gone)
