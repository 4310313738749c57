-- ===== src/Examples/Sessions.antt =====
-- Logins, refreshes and logouts.
use invoices_codex.Prelude.{◌≡◌, refl, true, none, some, [], ◌∷◌, filter, save}
use invoices_codex.Models.{Tenant, User, TenantMembership, AuthSession}
use invoices_codex.Store.{World, raised, auth_error, runtime_error}
use invoices_codex.Auth.AccessToken.{
  AccessTokenClaims, decode_access_token, verified_claims, split_dot, b64url_decode,
}
use invoices_codex.Auth.Common.{
  ServiceConfig, Request, AuthSessionResult, hash_refresh_token, get_active_principals, issue_token,
}
use invoices_codex.Auth.Login.{authenticate_user, login_form_fault, open_session}
use invoices_codex.Auth.Passwords.{split_dollar, hash_parts, matches_parts, verify_password}
use invoices_codex.Auth.Login.Outcomes.{
  LoggedIn, IsDenied, authenticate_user-LoggedIn, authenticate_user-IsDenied,
}
use invoices_codex.Auth.Refresh.{refresh_session, revoke_session}
use invoices_codex.Auth.Refresh.Rotation.{Rotated, refresh_session-Rotated}
use invoices_codex.Auth.Refresh.Replay.{refresh_session_once}
use invoices_codex.Auth.Refresh.Logout.{logout_ends_access}
use invoices_codex.Auth.Refresh.Unconfigured.{refresh_session_unconfigured}
use invoices_codex.Auth.CurrentUser.{get_current_user}
use invoices_codex.Examples.Base.{env, env-reads, empty_db, world_of, value_or}

abbrev tenant : Tenant
tenant = record { id = "t"; name = "Acme"; slug = "acme"; created_at = 1 }

abbrev user : User
user = record {
  id = "u";
  email = "a@b.c";
  email_normalized = "a@b.c";
  password_hash = "pbkdf2_sha256$1$s$pw";
  full_name = none;
  is_active = true;
  last_login_at = none;
  created_at = 1;
  updated_at = 1;
}

abbrev membership : TenantMembership
membership = record {
  id = "m";
  tenant_id = "t";
  user_id = "u";
  role = "admin";
  status = "active";
  created_at = 1;
  updated_at = 1;
}

abbrev session : AuthSession
session = record {
  id = "s";
  tenant_id = "t";
  user_id = "u";
  membership_id = "m";
  refresh_token_hash = "h-old";
  created_at = 1;
  updated_at = 1;
  last_seen_at = none;
  access_expires_at = 10;
  refresh_expires_at = 100;
  revoked_at = none;
  revoke_reason = none;
  created_ip = none;
  created_user_agent = none;
}

abbrev world : World
world = world_of (record empty_db {
  tenants = tenant ∷ [];
  users = user ∷ [];
  memberships = membership ∷ [];
  sessions = session ∷ [];
})

abbrev config : ServiceConfig
config = record {
  auth_access_token_secret = some "secret";
  auth_access_token_ttl_seconds = 900;
  auth_refresh_token_ttl_seconds = 3600;
}

abbrev no_secret : ServiceConfig
no_secret = record config { auth_access_token_secret = none }

abbrev request : Request
request = record { request_id = none; remote_ip = none; user_agent = none }

abbrev fallback : AuthSessionResult
fallback = record {
  access_token = "";
  refresh_token = "";
  expires_in = 0;
  user = user;
  tenant = tenant;
  membership = membership;
  session = session;
}

abbrev refreshed : AuthSessionResult
refreshed = value_or fallback (refresh_session env config 5 none "old" world).0

abbrev entered : AuthSessionResult
entered = value_or fallback (authenticate_user env config 5 request "acme" "a@b.c" "pw" world).0

refresh_session-Rotated_example :
    Rotated env config 5 "old" refreshed world (refresh_session env config 5 none "old" world).1
unfolding refresh_session hash_refresh_token get_active_principals issue_token filter save
refresh_session-Rotated_example =
    refresh_session-Rotated env config 5 none "old" refreshed world refl

refresh_session_once_example :
    (refresh_session env config 6 none "old" (refresh_session env config 5 none "old" world).1).0
    ≡ raised (auth_error "AUTH_REFRESH_INVALID" "Refresh token is invalid." 401)
unfolding refresh_session hash_refresh_token get_active_principals issue_token filter save
refresh_session_once_example =
    refresh_session_once env env-reads config 5 6 none "old" world refreshed refl refl

abbrev session_claims : AccessTokenClaims
session_claims = record {
  user_id = "u";
  tenant_id = "t";
  membership_id = "m";
  session_id = "s";
  exp = 50;
}

logout_ends_access_example :
    (get_current_user env config 6 "v1.claimset.sign"
      (revoke_session env 5 none (some "old") world).1).0
    ≡ raised (auth_error "AUTH_ACCESS_INVALID" "Access token is invalid." 401)
unfolding hash_refresh_token filter decode_access_token verified_claims split_dot b64url_decode
logout_ends_access_example =
    logout_ends_access env env-reads config 5 6 none "old" session world (tt, tt) refl refl
      session_claims "v1.claimset.sign" "secret" 6 refl refl refl

refresh_session_unconfigured_example :
    ((refresh_session env no_secret 5 none "old" world).0
      ≡ raised (runtime_error "auth access token secret is not configured"))
    × ((refresh_session env config 6 none "old"
          (refresh_session env no_secret 5 none "old" world).1).0
        ≡ raised (auth_error "AUTH_REFRESH_INVALID" "Refresh token is invalid." 401))
unfolding hash_refresh_token get_active_principals filter
refresh_session_unconfigured_example =
    refresh_session_unconfigured env env-reads no_secret config 5 6 none "old" session
      (user, membership, tenant) world refl refl refl refl refl refl refl

authenticate_user-LoggedIn_example :
    LoggedIn env config 5 request "acme" "a@b.c" "pw" entered world
      (authenticate_user env config 5 request "acme" "a@b.c" "pw" world).1
unfolding authenticate_user verify_password matches_parts hash_parts split_dollar open_session
    issue_token filter save login_form_fault
authenticate_user-LoggedIn_example =
    authenticate_user-LoggedIn env config 5 request "acme" "a@b.c" "pw" entered world refl

authenticate_user-IsDenied_example :
    IsDenied world (authenticate_user env config 5 request "acme" "a@b.c" "no" world).1
unfolding authenticate_user verify_password matches_parts hash_parts split_dollar login_form_fault
    filter
authenticate_user-IsDenied_example =
    authenticate_user-IsDenied env config 5 request "acme" "a@b.c" "no" "AUTH_INVALID_CREDENTIALS"
      "Email or password is incorrect." 401 world refl
