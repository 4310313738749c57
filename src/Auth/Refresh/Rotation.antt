-- ===== src/Auth/Refresh/Rotation.antt =====
-- `refresh_session` of service.py when it returns.

use invoices_codex.Prelude.{
  ℕ, String, ◌≡◌, ◌+◌, ◌<◌, Bool, true, Option, none, some, inl, inr, ◌==◌, arith,
}
use invoices_codex.Env.{Env, Selected, found}
use invoices_codex.Models.{Tenant, User, TenantMembership, AuthSession}
use invoices_codex.Store.{Db, World, ok, save_session, Selected-cases}
use invoices_codex.Auth.Common.{
  ServiceConfig, seconds, AuthSessionResult, hash_refresh_token, get_active_principals,
}
use invoices_codex.Auth.Refresh.{rotated_row, refresh_session}

-- The rows that `refresh_session` asks for.
abbrev pub has_token : Env → String → AuthSession → Bool
has_token env token s = s.refresh_token_hash == hash_refresh_token env token

abbrev pub row_of : Env → String → Db → Selected AuthSession
row_of env token db = env.one_or_none (has_token env token) db.sessions

-- Principals that `get_active_principals` gives are active.
pub get_active_principals-active :
    (env : Env) (tenant_id user_id membership_id : String) (db : Db)
    (p : User × TenantMembership × Tenant)
    → get_active_principals env tenant_id user_id membership_id db ≡ ok (some p)
    → (p.0.is_active ≡ true) × ((p.1.status == "active") ≡ true)
unfolding get_active_principals
get_active_principals-active env tenant_id user_id membership_id db p h = ground arith

pub record Rotated (env : Env) (config : ServiceConfig) (now : ℕ) (token : String)
    (r : AuthSessionResult) (w w' : World) : Type 0 where
  pub old : AuthSession
  pub was_found : row_of env token w.db ≡ found old
  pub not_revoked : old.revoked_at ≡ none
  pub not_expired : now < old.refresh_expires_at
  pub user_active : r.user.is_active ≡ true
  pub membership_active : (r.membership.status == "active") ≡ true
  pub new_token : r.refresh_token ≡ env.token_urlsafe w.drawn
  pub returned : r.session ≡ record old {
    refresh_token_hash = env.sha256 (env.token_urlsafe w.drawn);
    access_expires_at = now + seconds config.auth_access_token_ttl_seconds;
    last_seen_at = some now;
    updated_at = now;
  }
  pub saved :
      w'.db.sessions
      ≡ save_session
          (record old {
            refresh_token_hash = env.sha256 (env.token_urlsafe w.drawn);
            access_expires_at = now + seconds config.auth_access_token_ttl_seconds;
            last_seen_at = some now;
            updated_at = now;
          })
          w.db.sessions
  pub others_kept :
      (w'.db.users ≡ w.db.users) × (w'.db.memberships ≡ w.db.memberships) × (w'.queue ≡ w.queue)

-- A refresh that returns has found one session for the token, not revoked and not expired, with an active user
-- and membership; it returns a new token, stores its hash in the session's row, and changes no
-- user, no membership and no queue entry.
pub refresh_session-Rotated :
    (env : Env) (config : ServiceConfig) (now : ℕ) (rid : Option String) (token : String)
    (r : AuthSessionResult) (w : World)
    → (refresh_session env config now rid token w).0 ≡ ok r
    → Rotated env config now token r w (refresh_session env config now rid token w).1
unfolding refresh_session rotated_row hash_refresh_token
refresh_session-Rotated env config now rid token r w h =
    elim (Selected-cases (row_of env token w.db)) [
      | inl none_found ↦ absurd (ground arith)
      | inr (inl (old, e)) ↦ record {
        old = old;
        was_found = e;
        not_revoked = ground arith;
        not_expired = ground arith;
        user_active = ground (
          arith,
          get_active_principals-active env old.tenant_id old.user_id old.membership_id w.db
              (r.user, r.membership, r.tenant),
        );
        membership_active = ground (
          arith,
          get_active_principals-active env old.tenant_id old.user_id old.membership_id w.db
              (r.user, r.membership, r.tenant),
        );
        new_token = ground arith;
        returned = ground arith;
        saved = ground arith;
        others_kept = ground arith;
      }
      | inr (inr several) ↦ absurd (ground arith)
    ]
