-- ===== src/Auth/CurrentUser.antt =====
-- `get_current_user` of service.py.
use invoices_codex.Prelude.{ℕ, String, ◌&&◌, Option, none, some, ◌==◌, is_some, if◌then◌else◌}
use invoices_codex.Env.{Env}
use invoices_codex.Models.{Tenant, User, TenantMembership, AuthSession}
use invoices_codex.Store.{
  Tx, Outcome, World, Fault, auth_error, runtime_error, pure, raise, query, optional, transaction,
  ◌>>=◌,
}
use invoices_codex.Auth.AccessToken.{
  AccessTokenClaims, Decoded, claims, refused, missing, expired, invalid, decode_access_token,
}
use invoices_codex.Auth.Common.{ServiceConfig, configured, get_active_principals}

pub record AuthMeResult : Type 0 where
  pub user : User
  pub tenant : Tenant
  pub membership : TenantMembership
  pub session : AuthSession

abbrev access_invalid : Fault
access_invalid = auth_error "AUTH_ACCESS_INVALID" "Access token is invalid." 401

module _ (env : Env) where
  abbrev me_result : AuthSession → Option (User × TenantMembership × Tenant) → Tx AuthMeResult
  me_result s none = raise access_invalid
  me_result s (some (user, membership, tenant)) =
      pure (record { user = user; tenant = tenant; membership = membership; session = s })

  abbrev current_session : AccessTokenClaims → Option AuthSession → Tx AuthMeResult
  current_session c none = raise access_invalid
  current_session c (some s) = if is_some s.revoked_at then raise access_invalid else do
    principals ← query (get_active_principals env c.tenant_id c.user_id c.membership_id)
    me_result s principals

  -- What follows the decoding of the token.
  unfoldable pub current_user_of : Decoded → Tx AuthMeResult
  current_user_of (refused missing) =
      raise (auth_error "AUTH_ACCESS_MISSING" "Access token is missing." 401)
  current_user_of (refused expired) =
      raise (auth_error "AUTH_ACCESS_EXPIRED" "Access token has expired." 401)
  current_user_of (refused invalid) = raise access_invalid
  current_user_of (claims c) = do
    s ← query (λ db. optional (
        env.one_or_none
          (λ (s : AuthSession).
            (s.id == c.session_id) && ((s.tenant_id == c.tenant_id) && (s.user_id == c.user_id)))
          db.sessions))
    current_session c s

  unfoldable pub get_current_user :
      ServiceConfig → ℕ → String → World → Outcome AuthMeResult × World
  unfolding current_user_of
  get_current_user config now_ts access_token = elim (configured config.auth_access_token_secret) [
    | none ↦ transaction (raise (runtime_error "auth access token secret is not configured"))
    | some secret ↦
        transaction (current_user_of (decode_access_token env access_token secret now_ts))
  ]
