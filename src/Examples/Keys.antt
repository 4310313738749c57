-- ===== src/Examples/Keys.antt =====
-- API keys and tenant slugs: a key that is made, rotated and revoked.
use invoices_codex.Prelude.{
  String, ◌≡◌, refl, ◌&&◌, Bool, false, none, some, [], ◌∷◌, leb, arith, filter, save, contains,
  delete_where,
}
use invoices_codex.Prelude.FirstFree.{first_free}
use invoices_codex.Prelude.Texts.{chars, take_chars, lstrip_sign, rstrip_sign}
use invoices_codex.Prelude.Decimal.{decimal}
use invoices_codex.Env.{Env}
use invoices_codex.Models.{Tenant, ApiKey}
use invoices_codex.Store.{World, ok, save_api_key}
use invoices_codex.Auth.Slugs.{dash_runs, numbered_slug, slugify_tenant_name, unique_tenant_slug}
use invoices_codex.Auth.Slugs.Free.{unique_tenant_slug-free}
use invoices_codex.Auth.Slugs.Bounds.{IsSlug, unique_tenant_slug-accepted}
use invoices_codex.Auth.ApiKeys.{
  hash_api_key, new_api_key, add_api_key, create_api_key, rotated_key, put_rotated, rotate_api_key,
  revoked_key, revoke_api_key, get_tenant_by_api_key, new_tenant, slug_exists,
  next_unique_tenant_slug, bootstrap_tenant,
}
use invoices_codex.Auth.ApiKeys.Creation.{create_api_key-lookup}
use invoices_codex.Auth.ApiKeys.Lookups.{IsKeyTable, revoke_api_key-lookup, rotate_api_key-lookup}
use invoices_codex.Auth.ApiKeys.Unique.{
  create_key, rotate_key, revoke_key, run_calls, run_calls-IsKeyTable,
}
use invoices_codex.Auth.ApiKeys.Bootstrap.{bootstrap_tenant-lookup}
use invoices_codex.Examples.Base.{env, env-reads, empty_db, world_of, value_or}

abbrev acme : Tenant
acme = record { id = "t"; name = "Acme"; slug = "acme"; created_at = 1 }

abbrev row : ApiKey
row = record {
  id = "k1";
  tenant_id = "t";
  key_prefix = "old";
  key_hash = "h-old";
  revoked = false;
  created_at = 1;
  revoked_at = none;
}

abbrev world : World
world = world_of (record empty_db { tenants = acme ∷ []; api_keys = row ∷ [] })

abbrev table : IsKeyTable world.db.api_keys
table = record { ids_distinct = (tt, tt); hashes_distinct = (tt, tt) }

abbrev created : ApiKey × String
created = value_or (row, "") (create_api_key env 5 "t" none world).0

create_api_key-lookup_example :
    get_tenant_by_api_key env created.1 (create_api_key env 5 "t" none world).1.db ≡ ok (some acme)
unfolding create_api_key add_api_key new_api_key filter hash_api_key
create_api_key-lookup_example =
    create_api_key-lookup env env-reads 5 "t" none created acme world refl refl

abbrev rotated : ApiKey × String
rotated = value_or (row, "") (rotate_api_key env 5 "t" "k1" none world).0

rotate_api_key-lookup_example :
    (get_tenant_by_api_key env rotated.1 (rotate_api_key env 5 "t" "k1" none world).1.db
      ≡ ok (some acme))
    × (get_tenant_by_api_key env "old" (rotate_api_key env 5 "t" "k1" none world).1.db ≡ ok none)
unfolding rotate_api_key put_rotated rotated_key filter save_api_key save hash_api_key delete_where
rotate_api_key-lookup_example =
    rotate_api_key-lookup env env-reads 5 "t" "k1" "old" none row rotated acme world table refl refl
      refl refl refl

abbrev revoked : ApiKey
revoked = value_or row (revoke_api_key env 5 "t" "k1" none world).0

revoke_api_key-lookup_example :
    get_tenant_by_api_key env "old" (revoke_api_key env 5 "t" "k1" none world).1.db ≡ ok none
unfolding revoke_api_key revoked_key filter save_api_key save hash_api_key
revoke_api_key-lookup_example =
    revoke_api_key-lookup env env-reads 5 "t" "k1" "old" none revoked world table refl refl

run_calls-IsKeyTable_example :
    IsKeyTable
      (run_calls env
        (create_key 5 "t" none ∷ rotate_key 6 "t" "k1" none ∷ revoke_key 7 "t" "k1" none ∷ [])
        world).db.api_keys
run_calls-IsKeyTable_example =
    run_calls-IsKeyTable env env-reads
      (create_key 5 "t" none ∷ rotate_key 6 "t" "k1" none ∷ revoke_key 7 "t" "k1" none ∷ []) world
      table

abbrev made : Tenant × String
made = value_or (acme, "") (bootstrap_tenant env 5 "acme" none world).0

bootstrap_tenant-lookup_example :
    (made.0.name ≡ "acme")
    × (slug_exists env world.db made.0.slug ≡ false)
    × (get_tenant_by_api_key env made.1 (bootstrap_tenant env 5 "acme" none world).1.db
        ≡ ok (some made.0))
unfolding bootstrap_tenant new_tenant add_api_key new_api_key next_unique_tenant_slug slug_exists
    unique_tenant_slug slugify_tenant_name numbered_slug first_free dash_runs lstrip_sign
    rstrip_sign take_chars chars decimal filter hash_api_key
bootstrap_tenant-lookup_example =
    bootstrap_tenant-lookup env env-reads 5 "acme" none made world refl

dashed_slug : slugify_tenant_name env "ac & me!" ≡ "ac-me"
unfolding slugify_tenant_name dash_runs lstrip_sign rstrip_sign take_chars
dashed_slug = refl

abbrev taken : String → Bool
taken s = contains s ("acme" ∷ "acme-1" ∷ [])

unique_tenant_slug-free_example :
    (slug : String) × (unique_tenant_slug env 3 "acme" taken ≡ some slug) × (taken slug ≡ false)
unique_tenant_slug-free_example =
    unique_tenant_slug-free env "acme" taken ("acme" ∷ "acme-1" ∷ []) (λ s h. h)

abbrev env_with_pattern : Env
env_with_pattern = record env { slug_pattern = λ s. leb 2 (chars s) && leb (chars s) 64 }

unique_tenant_slug-accepted_example :
    IsSlug "acme-2" × (env_with_pattern.slug_pattern "acme-2" ≡ leb 2 (chars "acme-2"))
unfolding unique_tenant_slug slugify_tenant_name numbered_slug first_free dash_runs lstrip_sign
    rstrip_sign take_chars chars decimal
unique_tenant_slug-accepted_example =
    unique_tenant_slug-accepted env_with_pattern 3 "acme" taken "acme-2" (λ s h. refl) (omega arith)
      refl
