-- ===== src/Auth/Refresh/Logout.antt =====
-- `refresh_session` and `get_current_user` of service.py after `revoke_session`.
use invoices_codex.Prelude.{
  ℕ, String, ◌≡◌, ap, ◌∙◌, Bool, true, false, Option, Option-cases, some, inl, inr, ◌==◌, ◌&&◌,
  arith, filter_holds, filter-save_kept, IsKeyed, is_some,
}
use invoices_codex.Env.{Env, found, ReadsRows, filter_of_found, found_of_filter}
use invoices_codex.Models.{AuthSession}
use invoices_codex.Store.{World, raised, auth_error, save_session}
use invoices_codex.Auth.AccessToken.{AccessTokenClaims, claims, decode_access_token}
use invoices_codex.Auth.Common.{ServiceConfig, configured, hash_refresh_token}
use invoices_codex.Auth.Refresh.{logged_out, revoked_row, refresh_session, revoke_session}
use invoices_codex.Auth.Refresh.Rotation.{has_token, row_of}
use invoices_codex.Auth.Refresh.Replay.{refresh_session-revoked}
use invoices_codex.Auth.CurrentUser.{get_current_user}

logged_out-revoked :
    (env : Env) (now : ℕ) (s : AuthSession) → is_some (logged_out env now s).revoked_at ≡ true
unfolding logged_out revoked_row
logged_out-revoked env now s = ground arith

logged_out-kept :
    (env : Env) (now : ℕ) (s : AuthSession)
    → ((logged_out env now s).id ≡ s.id)
      × ((logged_out env now s).refresh_token_hash ≡ s.refresh_token_hash)
      × ((logged_out env now s).tenant_id ≡ s.tenant_id)
      × ((logged_out env now s).user_id ≡ s.user_id)
unfolding logged_out revoked_row
logged_out-kept env now s = ground arith

-- The sessions after a logout with a token that is known.
revoke_session-sessions :
    (env : Env) (now : ℕ) (rid : Option String) (token : String) (s : AuthSession) (w : World)
    → (token == "") ≡ false
    → row_of env token w.db ≡ found s
    → (revoke_session env now rid (some token) w).1.db.sessions
      ≡ save_session (logged_out env now s) w.db.sessions
unfolding revoke_session
revoke_session-sessions env now rid token s w t e = ground arith

-- What asks for a session by its claims.
abbrev pub has_claims : AccessTokenClaims → AuthSession → Bool
has_claims c s =
    (s.id == c.session_id) && ((s.tenant_id == c.tenant_id) && (s.user_id == c.user_id))

current_user_of-revoked :
    (env : Env) (c : AccessTokenClaims) (s : AuthSession) (w : World) (config : ServiceConfig)
    (now_ts : ℕ) (token secret : String)
    → configured config.auth_access_token_secret ≡ some secret
    → decode_access_token env token secret now_ts ≡ claims c
    → env.one_or_none (has_claims c) w.db.sessions ≡ found s
    → is_some s.revoked_at ≡ true
    → (get_current_user env config now_ts token w).0
      ≡ raised (auth_error "AUTH_ACCESS_INVALID" "Access token is invalid." 401)
unfolding get_current_user
current_user_of-revoked env c s w config now_ts token secret cfg d e v = ground arith

module _ (env : Env) (reads : ReadsRows env) (config : ServiceConfig) (now later : ℕ)
    (rid : Option String) (token : String) (s : AuthSession) (w : World)
    (keyed : IsKeyed (λ (r : AuthSession). r.id) w.db.sessions) (given : (token == "") ≡ false)
    (known : row_of env token w.db ≡ found s) where
  -- A selection that held the session holds it after the logout, if the logout keeps what it asks for.
  still_found :
      (p : AuthSession → Bool)
      → p (logged_out env now s) ≡ p s
      → env.one_or_none p w.db.sessions ≡ found s
      → env.one_or_none p (revoke_session env now rid (some token) w).1.db.sessions
        ≡ found (logged_out env now s)
  unfolding save_session
  still_found p same e =
      let one = filter_of_found reads p w.db.sessions s e in
      found_of_filter reads p _ _ (
        rw (revoke_session-sessions env now rid token s w given known) (
          filter-save_kept p (λ (r : AuthSession). r.id) s (logged_out env now s) w.db.sessions
            (same ∙ filter_holds p s w.db.sessions one) (logged_out-kept env now s).0 keyed one))

  -- The refresh token of a session that was logged out is refused as revoked.
  pub logout_ends_refresh :
      (refresh_session env config later rid token (revoke_session env now rid (some token) w).1).0
      ≡ raised (auth_error "AUTH_SESSION_REVOKED" "Session has been revoked." 401)
  logout_ends_refresh = elim (Option-cases (logged_out env now s).revoked_at) [
    | inl never ↦ absurd (ground (arith, logged_out-revoked env now s))
    | inr (at, e) ↦
        refresh_session-revoked env config later at rid token (logged_out env now s) _ given
          (still_found (has_token env token)
            (ap (λ (h : String). h == hash_refresh_token env token) (logged_out-kept env now s).1)
            known)
          e
  ]

  -- An access token whose claims name a session that was logged out is refused, even before it expires.
  pub logout_ends_access :
      (c : AccessTokenClaims) (access_token secret : String) (now_ts : ℕ)
      → configured config.auth_access_token_secret ≡ some secret
      → decode_access_token env access_token secret now_ts ≡ claims c
      → env.one_or_none (has_claims c) w.db.sessions ≡ found s
      → (get_current_user env config now_ts access_token
          (revoke_session env now rid (some token) w).1).0
        ≡ raised (auth_error "AUTH_ACCESS_INVALID" "Access token is invalid." 401)
  logout_ends_access c access_token secret now_ts cfg d e =
      let kept = logged_out-kept env now s in
      current_user_of-revoked env c (logged_out env now s) _ config now_ts access_token secret cfg d
        (still_found (has_claims c) (rw (kept.0, kept.2, kept.3)) e) (logged_out-revoked env now s)
