-- ===== src/Auth/Refresh/Replay.antt =====
-- `refresh_session` of service.py, called once more with the same token.

use invoices_codex.Prelude.{
  ℕ, String, ◌≡◌, refl, false, Option, some, ◌==◌, arith, filter-save_dropped,
}
use invoices_codex.Env.{Env, found, absent, ReadsRows, filter_of_found, absent_of_filter}
use invoices_codex.Models.{AuthSession}
use invoices_codex.Store.{World, ok, raised, auth_error, save_session}
use invoices_codex.Auth.Common.{ServiceConfig, AuthSessionResult, hash_refresh_token}
use invoices_codex.Auth.Refresh.{refresh_session}
use invoices_codex.Auth.Refresh.Rotation.{has_token, row_of, Rotated, refresh_session-Rotated}

-- A token whose session is not found is refused, and nothing changes.
pub refresh_session-unknown :
    (env : Env) (config : ServiceConfig) (now : ℕ) (rid : Option String) (token : String)
    (w : World)
    → (token == "") ≡ false
    → row_of env token w.db ≡ absent
    → (refresh_session env config now rid token w).0
      ≡ raised (auth_error "AUTH_REFRESH_INVALID" "Refresh token is invalid." 401)
unfolding refresh_session
refresh_session-unknown env config now rid token w t e = ground arith

-- A token of a revoked session is refused.
pub refresh_session-revoked :
    (env : Env) (config : ServiceConfig) (now at : ℕ) (rid : Option String) (token : String)
    (s : AuthSession) (w : World)
    → (token == "") ≡ false
    → row_of env token w.db ≡ found s
    → s.revoked_at ≡ some at
    → (refresh_session env config now rid token w).0
      ≡ raised (auth_error "AUTH_SESSION_REVOKED" "Session has been revoked." 401)
unfolding refresh_session
refresh_session-revoked env config now at rid token s w t e v = ground arith

token_not_empty :
    (env : Env) (config : ServiceConfig) (now : ℕ) (rid : Option String) (token : String)
    (r : AuthSessionResult) (w : World)
    → (refresh_session env config now rid token w).0 ≡ ok r
    → (token == "") ≡ false
unfolding refresh_session
token_not_empty env config now rid token r w h = ground arith

module _ (env : Env) (reads : ReadsRows env) (config : ServiceConfig) (now later : ℕ)
    (rid : Option String) (token : String) (w : World) where
  old_token_gone :
      (r : AuthSessionResult)
      → (env.sha256 (env.token_urlsafe w.drawn) == env.sha256 token) ≡ false
      → Rotated env config now token r w (refresh_session env config now rid token w).1
      → row_of env token (refresh_session env config now rid token w).1.db ≡ absent
  unfolding save_session hash_refresh_token
  old_token_gone r fresh d = absent_of_filter reads (has_token env token) _ (
      rw d.saved (
        filter-save_dropped (has_token env token) (λ (s : AuthSession). s.id) d.old _ w.db.sessions
          fresh refl (filter_of_found reads (has_token env token) w.db.sessions d.old d.was_found)))

  -- Once a refresh has returned, the token that it was given is refused, if the new token's
  -- hash is another one.
  pub refresh_session_once :
      (r : AuthSessionResult)
      → (env.sha256 (env.token_urlsafe w.drawn) == env.sha256 token) ≡ false
      → (refresh_session env config now rid token w).0 ≡ ok r
      → (refresh_session env config later rid token
          (refresh_session env config now rid token w).1).0
        ≡ raised (auth_error "AUTH_REFRESH_INVALID" "Refresh token is invalid." 401)
  refresh_session_once r fresh h =
      refresh_session-unknown env config later rid token _
        (token_not_empty env config now rid token r w h)
        (old_token_gone r fresh (refresh_session-Rotated env config now rid token r w h))
