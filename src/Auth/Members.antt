-- ===== src/Auth/Members.antt =====
-- `create_tenant_user` and `bootstrap_tenant_admin_user` of service.py.
pub mod Bootstrap
use invoices_codex.Prelude.{
  ℕ, String, Bool, not, ◌&&◌, Option, none, some, [], ◌∷◌, ◌++◌, ◌==◌, contains, or_empty, or_none,
}
use invoices_codex.Env.{Env, text}
use invoices_codex.Models.{Tenant, User, TenantMembership}
use invoices_codex.Store.{
  Tx, Outcome, World, value_error, pure, raise, raise_if, reads, query, optional, modify, commit,
  draw_uuid, draw_token, save_membership, add_event, transaction, ◌>>=◌, ◌>>◌,
}
use invoices_codex.Auth.Login.{is_valid_email}
use invoices_codex.Auth.Passwords.{hash_password, verify_password}

module _ (env : Env) where
  abbrev require_tenant : String → Tx Tenant
  require_tenant tenant_id = do
    tenant ← query (λ db. optional (env.one_or_none (λ (t : Tenant). t.id == tenant_id) db.tenants))
    elim tenant [ none ↦ raise (value_error "tenant not found") | some t ↦ pure t ]

  -- The user with the email, added if it is not there; a wrong password is refused.
  unfoldable pub find_or_add_user :
      ℕ → String → String → String → Option String → Option User → Tx User
  find_or_add_user now email normalized_email password full_name none = do
    id ← draw_uuid env
    salt ← draw_token env
    let user : User = record {
      id = id;
      email = env.strip email;
      email_normalized = normalized_email;
      password_hash = hash_password env password salt;
      full_name = or_none (env.strip (or_empty full_name));
      is_active = Bool.true;
      last_login_at = none;
      created_at = now;
      updated_at = now;
    }
    modify (λ db. record db { users = db.users ++ user ∷ [] })
    pure user
  find_or_add_user now email normalized_email password full_name (some user) = do
    raise_if (not (verify_password env password user.password_hash))
        (value_error "password does not match existing user")
    pure user

  -- The membership of the user in the tenant, added or brought to the role and status asked for.
  unfoldable pub put_membership :
      ℕ → String → User → String → String → Option TenantMembership → Tx TenantMembership
  put_membership now tenant_id user role status none = do
    id ← draw_uuid env
    let m : TenantMembership = record {
      id = id;
      tenant_id = tenant_id;
      user_id = user.id;
      role = role;
      status = status;
      created_at = now;
      updated_at = now;
    }
    modify (λ db. record db { memberships = db.memberships ++ m ∷ [] })
    pure m
  put_membership now tenant_id user role status (some old) = do
    let m : TenantMembership = record old { role = role; status = status; updated_at = now }
    modify (λ db. record db { memberships = save_membership m db.memberships })
    pure m

  unfoldable pub create_tenant_user :
      ℕ
      → String
      → String
      → String
      → Option String
      → String
      → String
      → World
      → Outcome (User × TenantMembership) × World
  create_tenant_user now tenant_id email password full_name role status = transaction do
    let normalized_email = env.lower (env.strip email)
    raise_if (normalized_email == "") (value_error "email is required")
    raise_if (password == "") (value_error "password is required")
    raise_if (not (contains status ("active" ∷ "disabled" ∷ "invited" ∷ [])))
        (value_error "invalid membership status")
    require_tenant tenant_id
    found ← query (λ db.
        optional (env.one_or_none (λ (u : User). u.email_normalized == normalized_email) db.users))
    user ← find_or_add_user now email normalized_email password full_name found
    old ← query (λ db. optional (
        env.one_or_none
          (λ (m : TenantMembership). (m.tenant_id == tenant_id) && (m.user_id == user.id))
          db.memberships))
    membership ← put_membership now tenant_id user role status old
    commit
    pure (user, membership)

  -- `select(TenantMembership.id).where(...).limit(1)`
  abbrev has_members : String → Tx Bool
  has_members tenant_id = reads (λ db.
      elim (env.all_rows (λ (m : TenantMembership). m.tenant_id == tenant_id) db.memberships) [
        | [] ↦ Bool.false
        | _ ∷ _ ↦ Bool.true
      ])

  -- The user, the membership and the event of a tenant without members.
  unfoldable pub add_first_user :
      ℕ
      → String
      → String
      → String
      → String
      → Option String
      → Option String
      → Tx (User × TenantMembership)
  add_first_user now tenant_id email normalized_email password full_name actor = do
    found ← query (λ db.
        optional (env.one_or_none (λ (u : User). u.email_normalized == normalized_email) db.users))
    user ← find_or_add_user now email normalized_email password full_name found
    membership ← put_membership now tenant_id user "admin" "active" none
    add_event env now tenant_id "tenant.user.bootstrap" actor (
        ("user_id", text user.id)
        ∷ ("email", text user.email)
        ∷ ("membership_id", text membership.id)
        ∷ ("role", text membership.role)
        ∷ ("status", text membership.status)
        ∷ [])
    commit
    pure (user, membership)

  unfoldable pub bootstrap_tenant_admin_user :
      ℕ
      → String
      → String
      → String
      → Option String
      → Option String
      → World
      → Outcome (User × TenantMembership) × World
  bootstrap_tenant_admin_user now tenant_id email password full_name actor = transaction do
    let normalized_email = env.lower (env.strip email)
    raise_if (normalized_email == "") (value_error "email is required")
    raise_if (not (is_valid_email env normalized_email)) (value_error "email format is invalid")
    raise_if (password == "") (value_error "password is required")
    require_tenant tenant_id
    taken ← has_members tenant_id
    raise_if taken (value_error "tenant already has users")
    add_first_user now tenant_id email normalized_email password full_name actor
