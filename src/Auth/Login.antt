-- ===== src/Auth/Login.antt =====
-- `authenticate_user` of service.py, with `is_valid_email` and `is_valid_tenant_slug` of auth.py.
pub mod Outcomes
use invoices_codex.Prelude.{
  ℕ, String, ◌+◌, Bool, true, false, not, ◌||◌, ◌&&◌, Option, none, some, [], ◌∷◌, ◌++◌, ◌==◌,
  or_empty, or_none, if◌then◌else◌,
}
use invoices_codex.Env.{Env}
use invoices_codex.Models.{Tenant, User, TenantMembership, AuthSession}
use invoices_codex.Store.{
  Tx, Fault, auth_error, pure, raise, raise_some, reads, query, optional, modify, commit, draw_uuid,
  draw_token, save_user, Outcome, World, transaction, ◌>>=◌, ◌>>◌,
}
use invoices_codex.Auth.Passwords.{verify_password}
use invoices_codex.Auth.Common.{
  ServiceConfig, seconds, Request, AuthSessionResult, hash_refresh_token, emit_auth_event,
  auth_fail, issue_token,
}

module _ (env : Env) where
  abbrev pub is_valid_email : String → Bool
  is_valid_email raw_email = env.email_pattern (env.strip raw_email)

  abbrev pub is_valid_tenant_slug : String → Bool
  is_valid_tenant_slug raw_slug = env.slug_pattern (env.lower (env.strip raw_slug))

  abbrev invalid_credentials : Fault
  invalid_credentials = auth_error "AUTH_INVALID_CREDENTIALS" "Email or password is incorrect." 401

  -- The tenant and the user of a login whose password is right.
  unfoldable pub check_credentials :
      ℕ → Request → String → Option Tenant → Option User → Tx (Tenant × User)
  check_credentials now request password none user = raise invalid_credentials
  check_credentials now request password (some tenant) none =
      auth_fail env now tenant.id "auth.login.failed" "AUTH_INVALID_CREDENTIALS"
        "Email or password is incorrect." 401 request.request_id none none
        (some "AUTH_INVALID_CREDENTIALS")
  check_credentials now request password (some tenant) (some user) =
      if verify_password env password user.password_hash
      then pure (tenant, user)
      else auth_fail env now tenant.id "auth.login.failed" "AUTH_INVALID_CREDENTIALS"
          "Email or password is incorrect." 401 request.request_id none none
          (some "AUTH_INVALID_CREDENTIALS")

  unfoldable pub check_membership :
      ℕ → Request → Tenant → User → Option TenantMembership → Tx TenantMembership
  check_membership now request tenant user none =
      auth_fail env now tenant.id "auth.login.failed" "AUTH_MEMBERSHIP_INACTIVE"
        "User membership is inactive for this tenant." 403 request.request_id (some user.id) none
        (some "AUTH_MEMBERSHIP_INACTIVE")
  check_membership now request tenant user (some m) =
      if not (m.status == "active") || not user.is_active
      then auth_fail env now tenant.id "auth.login.failed" "AUTH_MEMBERSHIP_INACTIVE"
          "User membership is inactive for this tenant." 403 request.request_id (some user.id) none
          (some "AUTH_MEMBERSHIP_INACTIVE")
      else pure m

  -- The fault that the form shows before the database is asked.
  unfoldable pub login_form_fault : String → String → String → Option Fault
  login_form_fault email password slug =
      if email == "" || (password == "" || slug == "")
      then some (auth_error "VALIDATION_ERROR" "email, password, and tenant_slug are required." 400)
      else if not (is_valid_email email)
      then some (auth_error "VALIDATION_ERROR" "email format is invalid." 400)
      else if not (is_valid_tenant_slug slug)
      then some (auth_error "VALIDATION_ERROR" "tenant_slug format is invalid." 400)
      else none

  -- The row of a new session.
  unfoldable pub session_row :
      ServiceConfig → ℕ → Request → Tenant → User → TenantMembership → String → String → AuthSession
  unfolding hash_refresh_token
  session_row config now request tenant user membership refresh_token id = record {
    id = id;
    tenant_id = tenant.id;
    user_id = user.id;
    membership_id = membership.id;
    refresh_token_hash = hash_refresh_token env refresh_token;
    created_at = now;
    updated_at = now;
    last_seen_at = none;
    access_expires_at = now + seconds config.auth_access_token_ttl_seconds;
    refresh_expires_at = now + seconds config.auth_refresh_token_ttl_seconds;
    revoked_at = none;
    revoke_reason = none;
    created_ip = request.remote_ip;
    created_user_agent = or_none (env.slice_to 512 (or_empty request.user_agent));
  }

  -- The user's row after a login.
  unfoldable pub logged_in : ℕ → User → User
  logged_in now user = record user { last_login_at = some now; updated_at = now }

  -- The new session's row, the login time of the user, the event, and the tokens.
  unfoldable pub open_session :
      ServiceConfig → ℕ → Request → Tenant → User → TenantMembership → Tx AuthSessionResult
  unfolding issue_token
  open_session config now request tenant user membership = do
    refresh_token ← draw_token env
    id ← draw_uuid env
    let row = session_row config now request tenant user membership refresh_token id
    let user' = logged_in now user
    modify
        (λ db. record db { sessions = db.sessions ++ row ∷ []; users = save_user user' db.users })
    emit_auth_event env now tenant.id "auth.login.succeeded" request.request_id (some user.id)
        (some id) (some 200) none
    commit
    access_token ←
        issue_token env config user.id tenant.id membership.id id
          (now + seconds config.auth_access_token_ttl_seconds)
    pure (record {
      access_token = access_token;
      refresh_token = refresh_token;
      expires_in = config.auth_access_token_ttl_seconds;
      user = user';
      tenant = tenant;
      membership = membership;
      session = row;
    })

  unfoldable pub authenticate_user_tx :
      ServiceConfig → ℕ → Request → String → String → String → Tx AuthSessionResult
  unfolding check_credentials check_membership
  authenticate_user_tx config now request tenant_slug email password = do
    let normalized_email = env.lower (env.strip email)
    let normalized_slug = env.lower (env.strip tenant_slug)
    raise_some (login_form_fault normalized_email password normalized_slug)
    tenant ←
        query
          (λ db. optional (env.one_or_none (λ (t : Tenant). t.slug == normalized_slug) db.tenants))
    user ← query (λ db.
        optional (env.one_or_none (λ (u : User). u.email_normalized == normalized_email) db.users))
    (tenant', user') ← check_credentials now request password tenant user
    membership ← query (λ db. optional (
        env.one_or_none
          (λ (m : TenantMembership). (m.tenant_id == tenant'.id) && (m.user_id == user'.id))
          db.memberships))
    membership' ← check_membership now request tenant' user' membership
    open_session config now request tenant' user' membership'

  unfoldable pub authenticate_user :
      ServiceConfig
      → ℕ
      → Request
      → String
      → String
      → String
      → World
      → Outcome AuthSessionResult × World
  unfolding authenticate_user_tx
  authenticate_user config now request tenant_slug email password =
      transaction (authenticate_user_tx config now request tenant_slug email password)
