-- ===== src/Auth/Login/Outcomes.antt =====
-- `authenticate_user` of service.py when it returns, and when it raises an AuthError.
use invoices_codex.Prelude.{
  ℕ, String, ◌≡◌, ◌+◌, true, none, or_none, or_empty, inl, inr, [], ◌∷◌, ◌++◌, ◌==◌, ◌&&◌, arith,
}
use invoices_codex.Env.{Env, found, Selected}
use invoices_codex.Models.{Tenant, User, TenantMembership}
use invoices_codex.Store.{World, Db, ok, raised, auth_error, Selected-cases, Session}
use invoices_codex.Auth.Common.{
  ServiceConfig, seconds, Request, AuthSessionResult, hash_refresh_token,
}
use invoices_codex.Auth.Passwords.{IsRightPassword, verify_password-IsRightPassword}
use invoices_codex.Auth.Login.{authenticate_user, session_row, open_session}

abbrev pub tenant_by_slug : Env → String → Db → Selected Tenant
tenant_by_slug env slug db =
    env.one_or_none (λ (t : Tenant). t.slug == env.lower (env.strip slug)) db.tenants

abbrev pub user_by_email : Env → String → Db → Selected User
user_by_email env email db =
    env.one_or_none (λ (u : User). u.email_normalized == env.lower (env.strip email)) db.users

abbrev pub membership_of : Env → Tenant → User → Db → Selected TenantMembership
membership_of env t u db =
    env.one_or_none (λ (m : TenantMembership). (m.tenant_id == t.id) && (m.user_id == u.id))
      db.memberships

pub record LoggedIn (env : Env) (config : ServiceConfig) (now : ℕ) (request : Request)
    (slug email password : String) (r : AuthSessionResult) (w w' : World) : Type 0 where
  pub old : User
  pub tenant_found : tenant_by_slug env slug w.db ≡ found r.tenant
  pub user_found : user_by_email env email w.db ≡ found old
  pub membership_found : membership_of env r.tenant old w.db ≡ found r.membership
  pub password_right : IsRightPassword env password old.password_hash
  pub user_active : old.is_active ≡ true
  pub membership_active : (r.membership.status == "active") ≡ true
  pub token_new : r.refresh_token ≡ env.token_urlsafe w.drawn
  pub stored :
      w'.db.sessions
      ≡ w.db.sessions
        ++ (record {
          id = env.uuid4 (w.drawn + 1);
          tenant_id = r.tenant.id;
          user_id = old.id;
          membership_id = r.membership.id;
          refresh_token_hash = env.sha256 (env.token_urlsafe w.drawn);
          created_at = now;
          updated_at = now;
          last_seen_at = none;
          access_expires_at = now + seconds config.auth_access_token_ttl_seconds;
          refresh_expires_at = now + seconds config.auth_refresh_token_ttl_seconds;
          revoked_at = none;
          revoke_reason = none;
          created_ip = request.remote_ip;
          created_user_agent = or_none (env.slice_to 512 (or_empty request.user_agent));
        })
          ∷ []

-- What `open_session` does when it returns.
open_session-ok :
    (env : Env) (config : ServiceConfig) (now : ℕ) (request : Request) (t : Tenant) (u : User)
    (m : TenantMembership) (s : Session) (r : AuthSessionResult)
    → (open_session env config now request t u m s).0 ≡ ok r
    → (r.tenant ≡ t)
      × (r.membership ≡ m)
      × (r.refresh_token ≡ env.token_urlsafe s.outside.drawn)
      × ((open_session env config now request t u m s).1.stored.sessions
          ≡ s.pending.sessions
            ++ session_row env config now request t u m
                (env.token_urlsafe s.outside.drawn)
                (env.uuid4 (s.outside.drawn + 1))
              ∷ [])
unfolding open_session
open_session-ok env config now request t u m s r h =
    (ground arith, ground arith, ground arith, ground arith)

-- A login that returns has found the tenant, the user and the membership, with the right password and both active, and
-- adds one session row, which holds the hash of the new refresh token.
pub authenticate_user-LoggedIn :
    (env : Env) (config : ServiceConfig) (now : ℕ) (request : Request)
    (slug email password : String) (r : AuthSessionResult) (w : World)
    → (authenticate_user env config now request slug email password w).0 ≡ ok r
    → LoggedIn env config now request slug email password r w
        (authenticate_user env config now request slug email password w).1
unfolding authenticate_user session_row hash_refresh_token
authenticate_user-LoggedIn env config now request slug email password r w h =
    elim (Selected-cases (tenant_by_slug env slug w.db)) [
      | inl none_found ↦ absurd (ground arith)
      | inr (inl (t, e)) ↦ elim (Selected-cases (user_by_email env email w.db)) [
        | inl none_found ↦ absurd (ground arith)
        | inr (inl (u, e')) ↦ elim (Selected-cases (membership_of env t u w.db)) [
          | inl none_found ↦ absurd (ground arith)
          | inr (inl (m, e'')) ↦
              let s0 : Session = record { stored = w.db; pending = w.db; outside = w } in
              let opened = open_session-ok env config now request t u m s0 r in
              record {
                old = u;
                tenant_found = ground (arith, opened);
                user_found = e';
                membership_found = ground (arith, opened);
                password_right =
                    verify_password-IsRightPassword env password u.password_hash (ground arith);
                user_active = ground arith;
                membership_active = ground (arith, opened);
                token_new = ground (arith, opened);
                stored = ground (arith, opened);
              }
          | inr (inr several) ↦ absurd (ground arith)
        ]
        | inr (inr several) ↦ absurd (ground arith)
      ]
      | inr (inr several) ↦ absurd (ground arith)
    ]

open_session-no_auth_error :
    (env : Env) (config : ServiceConfig) (now : ℕ) (request : Request) (t : Tenant) (u : User)
    (m : TenantMembership) (s : Session) (code message : String) (status : ℕ)
    → ¬ ((open_session env config now request t u m s).0 ≡ raised (auth_error code message status))
unfolding open_session
open_session-no_auth_error env config now request t u m s code message status h = ground arith

-- What a denied login leaves as it was.
pub record IsDenied (w w' : World) : Type 0 where
  pub sessions_kept : w'.db.sessions ≡ w.db.sessions
  pub users_kept : w'.db.users ≡ w.db.users
  pub memberships_kept : w'.db.memberships ≡ w.db.memberships
  pub tenants_kept : w'.db.tenants ≡ w.db.tenants
  pub queue_kept : w'.queue ≡ w.queue

-- A login that is refused with an AuthError opens no session, changes no user, membership or tenant, and
-- enqueues nothing.
pub authenticate_user-IsDenied :
    (env : Env) (config : ServiceConfig) (now : ℕ) (request : Request)
    (slug email password : String) (code message : String) (status : ℕ) (w : World)
    → (authenticate_user env config now request slug email password w).0
      ≡ raised (auth_error code message status)
    → IsDenied w (authenticate_user env config now request slug email password w).1
unfolding authenticate_user
authenticate_user-IsDenied env config now request slug email password code message status w h =
    elim (Selected-cases (tenant_by_slug env slug w.db)) [
      | inl none_found ↦ ground arith
      | inr (inl (t, e)) ↦ elim (Selected-cases (user_by_email env email w.db)) [
        | inl none_found ↦ ground arith
        | inr (inl (u, e')) ↦ elim (Selected-cases (membership_of env t u w.db)) [
          | inl none_found ↦ ground arith
          | inr (inl (m, e'')) ↦ ground (
            arith,
            open_session-no_auth_error env config now request t u m
                (record { stored = w.db; pending = w.db; outside = w }) code message status,
          )
          | inr (inr several) ↦ ground arith
        ]
        | inr (inr several) ↦ ground arith
      ]
      | inr (inr several) ↦ ground arith
    ]
