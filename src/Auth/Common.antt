-- ===== src/Auth/Common.antt =====
-- What the authentication methods share: `ServiceConfig`, `_auth_fail`, `_get_active_principals`,
-- `_emit_auth_event` and `_issue_access_token` of service.py, and the hashes of auth.py.
use invoices_codex.Prelude.{
  ℕ, String, ◌*◌, not, ◌||◌, Option, none, some, [], ◌∷◌, ◌++◌, ◌==◌, if◌then◌else◌, or_none,
}
use invoices_codex.Env.{Env, Dict, Json, text, num}
use invoices_codex.Auth.AccessToken.{issue_access_token}
use invoices_codex.Models.{Tenant, User, TenantMembership, AuthSession}
use invoices_codex.Store.{
  Db, Tx, Outcome, ok, and_then, auth_error, runtime_error, pure, raise, optional, commit,
  add_event, draw_token, ◌>>=◌, ◌>>◌,
}

pub record ServiceConfig : Type 0 where
  pub auth_access_token_secret : Option String
  pub auth_access_token_ttl_seconds : ℕ
  pub auth_refresh_token_ttl_seconds : ℕ

-- `timedelta(seconds=n)` in microseconds.
abbrev pub seconds : ℕ → ℕ
seconds n = n * 1000000

pub record AuthSessionResult : Type 0 where
  pub access_token : String
  pub refresh_token : String
  pub expires_in : ℕ
  pub user : User
  pub tenant : Tenant
  pub membership : TenantMembership
  pub session : AuthSession

-- What the caller of a method says of the request.
pub record Request : Type 0 where
  pub request_id : Option String
  pub remote_ip : Option String
  pub user_agent : Option String

-- An entry of a payload that is left out where the value is `None`.
abbrev pub entry : String → Option Json → Dict
entry k none = []
entry k (some v) = (k, v) ∷ []

abbrev pub text_entry : String → Option String → Dict
text_entry k none = []
text_entry k (some v) = (k, text v) ∷ []

-- The rows, where all three are there, the user is active and the membership's status is `active`.
abbrev pub active_only :
    Option User
    → Option TenantMembership
    → Option Tenant
    → Option (User × TenantMembership × Tenant)
active_only none m t = none
active_only (some u) none t = none
active_only (some u) (some m) none = none
active_only (some u) (some m) (some t) =
    if not u.is_active || not (m.status == "active") then none else some (u, m, t)

-- A secret that is set and not empty.
abbrev pub configured : Option String → Option String
configured none = none
configured (some s) = or_none s

module _ (env : Env) where
  unfoldable pub hash_refresh_token : String → String
  hash_refresh_token raw_token = env.sha256 raw_token

  -- `_emit_auth_event`
  abbrev pub emit_auth_event :
      ℕ
      → String
      → String
      → Option String
      → Option String
      → Option String
      → Option ℕ
      → Option String
      → Tx (Unit {0})
  emit_auth_event now tenant_id event_type request_id user_id session_id status_code reason_code =
      add_event env now tenant_id event_type user_id (
        text_entry "request_id" request_id
        ++ text_entry "user_id" user_id
        ++ text_entry "session_id" session_id
        ++ entry "status_code" (elim status_code [ none ↦ none | some c ↦ some (num c) ])
        ++ text_entry "reason_code" reason_code)

  -- `_auth_fail`: the event is committed, with whatever else is pending, before the error is raised.
  abbrev pub auth_fail :
      {A : Type 0}
      → ℕ
      → String
      → String
      → String
      → String
      → ℕ
      → Option String
      → Option String
      → Option String
      → Option String
      → Tx A
  auth_fail now tenant_id event_type error_code message status request_id user_id session_id
        reason =
      do
        emit_auth_event now tenant_id event_type request_id user_id session_id (some status) reason
        commit
        raise (auth_error error_code message status)

  -- `_get_active_principals`
  unfoldable pub get_active_principals :
      String → String → String → Db → Outcome (Option (User × TenantMembership × Tenant))
  get_active_principals tenant_id user_id membership_id db =
      and_then (optional (env.one_or_none (λ (u : User). u.id == user_id) db.users)) λ user.
        and_then
          (optional
            (env.one_or_none (λ (m : TenantMembership). m.id == membership_id) db.memberships))
          λ membership.
            and_then (optional (env.one_or_none (λ (t : Tenant). t.id == tenant_id) db.tenants))
              λ tenant. ok (active_only user membership tenant)

  -- `_issue_access_token`
  unfoldable pub issue_token : ServiceConfig → String → String → String → String → ℕ → Tx String
  unfolding issue_access_token
  issue_token config user_id tenant_id membership_id session_id expires_at =
      elim (configured config.auth_access_token_secret) [
        | none ↦ raise (runtime_error "auth access token secret is not configured")
        | some secret ↦ do
          jti ← draw_token env
          pure (
              issue_access_token env secret user_id tenant_id membership_id session_id expires_at
                jti)
      ]
