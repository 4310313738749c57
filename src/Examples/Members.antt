-- ===== src/Examples/Members.antt =====
-- The first user of a tenant, twice.
use invoices_codex.Prelude.{◌≡◌, refl, true, none, [], ◌∷◌, filter}
use invoices_codex.Models.{User, TenantMembership}
use invoices_codex.Store.{World, raised, value_error}
use invoices_codex.Auth.Members.{
  find_or_add_user, put_membership, add_first_user, bootstrap_tenant_admin_user,
}
use invoices_codex.Auth.Members.Bootstrap.{bootstrap_tenant_admin_user_once}
use invoices_codex.Examples.Base.{env, env-reads, empty_db, world_of, value_or}

abbrev world : World
world = world_of (record empty_db {
  tenants = (record { id = "t"; name = "Acme"; slug = "acme"; created_at = 1 }) ∷ [];
})

abbrev nobody : User × TenantMembership
nobody = (
  record {
    id = "";
    email = "";
    email_normalized = "";
    password_hash = "";
    full_name = none;
    is_active = true;
    last_login_at = none;
    created_at = 0;
    updated_at = 0;
  },
  record {
    id = "";
    tenant_id = "";
    user_id = "";
    role = "";
    status = "";
    created_at = 0;
    updated_at = 0;
  },
)

abbrev first : User × TenantMembership
first = value_or nobody (bootstrap_tenant_admin_user env 5 "t" "a@b.c" "pw" none none world).0

bootstrap_tenant_admin_user_once_example :
    bootstrap_tenant_admin_user env 6 "t" "d@e.f" "pw2" none none
      (bootstrap_tenant_admin_user env 5 "t" "a@b.c" "pw" none none world).1
    ≡ (
      raised (value_error "tenant already has users"),
      (bootstrap_tenant_admin_user env 5 "t" "a@b.c" "pw" none none world).1,
    )
unfolding bootstrap_tenant_admin_user add_first_user find_or_add_user put_membership filter
bootstrap_tenant_admin_user_once_example =
    bootstrap_tenant_admin_user_once env env-reads 5 6 "t" "a@b.c" "pw" "d@e.f" "pw2" none none none
      none first world refl refl refl refl
