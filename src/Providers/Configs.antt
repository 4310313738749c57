-- ===== src/Providers/Configs.antt =====
-- `create_provider_config`, `update_provider_config`, `delete_provider_config` and
-- `list_provider_configs` of service.py.
use invoices_codex.Prelude.{
  ℕ, String, true, false, not, Option, none, some, List, [], ◌∷◌, ◌++◌, map, ◌==◌, ltb,
  delete_where, if◌then◌else◌,
}
use invoices_codex.Env.{Env, Json, texts}
use invoices_codex.Models.{ProviderConfig}
use invoices_codex.Store.{
  Db, Tx, Outcome, ok, World, unknown_ids, pure, raise, raise_if, reads, query, modify, commit,
  draw_uuid, add_event, and_then, save_provider, transaction, ◌>>=◌, ◌>>◌,
}
use invoices_codex.Jobs.Repository.{TenantScoped, list_newest, count}
use invoices_codex.Jobs.Idempotency.{commit_or}
use invoices_codex.Jobs.ParseJobs.{missing_from, is_empty}
use invoices_codex.Providers.Fields.{
  Value, nothing, dict, validation_error, conflict, normalize_provider_type,
  normalize_provider_status, str_or_none, nullable_datetime, config_to_json,
  ensure_unique_provider_type, provider_row_or_error,
}

abbrev pub provider_model : TenantScoped ProviderConfig
provider_model = record {
  tenant_of = λ p. p.tenant_id;
  created_at_of = λ p. p.created_at;
  id_of = λ p. p.id;
}

unfoldable pub provider_row :
    ℕ → String → String → String → Option String → String → String → ProviderConfig
provider_row now id tenant_id provider_type display_name status config_json = record {
  id = id;
  tenant_id = tenant_id;
  provider_type = provider_type;
  display_name = display_name;
  connection_status = status;
  config_json = config_json;
  token_expires_at = none;
  last_successful_sync_at = none;
  last_error_code = none;
  last_error_message = none;
  oauth_access_token_enc = none;
  oauth_refresh_token_enc = none;
  created_at = now;
  updated_at = now;
}

abbrev pub Updates : Type 0
Updates = List (String × Value)

abbrev update_of : String → Updates → Option Value
update_of k [] = none
update_of k ((j, v) ∷ us) = if j == k then some v else update_of k us

abbrev allowed_fields : List String
allowed_fields =
    "provider_type" ∷ "display_name" ∷ "connection_status" ∷ "config" ∷ "token_expires_at"
    ∷ "last_successful_sync_at" ∷ "last_error_code" ∷ "last_error_message" ∷ []

-- A field that the updates name, set to its normalised value.
abbrev change :
    {A : Type 0}
    → Option Value
    → (Value → Outcome A)
    → (A → ProviderConfig)
    → ProviderConfig
    → Outcome ProviderConfig
change none normalize set row = ok row
change (some v) normalize set row = and_then (normalize v) λ a. ok (set a)

module _ (env : Env) where
  -- The commit that may find that another request has created the type meanwhile; the flush before
  -- it is checked in the same way.
  unfoldable pub add_provider :
      ℕ
      → String
      → String
      → Option String
      → String
      → String
      → Option String
      → Option Db
      → Tx ProviderConfig
  add_provider now tenant_id provider_type display_name status config_json actor lost = do
    query (ensure_unique_provider_type env tenant_id provider_type none)
    id ← draw_uuid env
    let row = provider_row now id tenant_id provider_type display_name status config_json
    modify (λ db. record db { providers = db.providers ++ row ∷ [] })
    add_event env now tenant_id "provider.create" actor (
        ("provider_id", Json.text id)
        ∷ ("provider_type", Json.text provider_type)
        ∷ ("connection_status", Json.text status)
        ∷ [])
    commit_or env lost (pure row) (raise conflict)

  -- `config if config is not None else {}`
  abbrev config_or_empty : Value → Value
  config_or_empty nothing = dict []
  config_or_empty v = v

  unfoldable pub create_provider_config :
      ℕ
      → String
      → Value
      → Value
      → Value
      → Value
      → Option String
      → Option Db
      → World
      → Outcome ProviderConfig × World
  unfolding add_provider
  create_provider_config now tenant_id provider_type display_name status config actor lost =
      transaction do
        provider_type' ← query (λ db. normalize_provider_type env provider_type)
        status' ← query (λ db. normalize_provider_status env status)
        config_json ← query (λ db. config_to_json env (config_or_empty config) false)
        display_name' ← query (λ db. str_or_none env display_name "display_name")
        add_provider now tenant_id provider_type' display_name' status' config_json actor lost

  -- The new type of a row, checked where it differs from the old one.
  unfoldable pub changed_type :
      String → String → Option Value → ProviderConfig → Db → Outcome ProviderConfig
  changed_type tenant_id provider_id none row db = ok row
  changed_type tenant_id provider_id (some v) row db =
      and_then (normalize_provider_type env v) λ provider_type.
        if provider_type == row.provider_type
        then ok row
        else and_then
            (ensure_unique_provider_type env tenant_id provider_type (some provider_id) db)
            λ _. ok (record row { provider_type = provider_type })

  -- The other fields, in the order of the code.
  unfoldable pub changed_fields : Updates → ProviderConfig → Outcome ProviderConfig
  changed_fields us row0 =
      and_then
        (change (update_of "display_name" us) (λ v. str_or_none env v "display_name")
          (λ a. record row0 { display_name = a }) row0)
        λ row1.
          and_then
            (change (update_of "connection_status" us) (normalize_provider_status env)
              (λ a. record row1 { connection_status = a }) row1)
            λ row2.
              and_then
                (change (update_of "config" us) (λ v. config_to_json env v true)
                  (λ a. record row2 { config_json = a }) row2)
                λ row3.
                  and_then
                    (change (update_of "token_expires_at" us)
                      (λ v. nullable_datetime env v "token_expires_at")
                      (λ a. record row3 { token_expires_at = a }) row3)
                    λ row4.
                      and_then
                        (change (update_of "last_successful_sync_at" us)
                          (λ v. nullable_datetime env v "last_successful_sync_at")
                          (λ a. record row4 { last_successful_sync_at = a }) row4)
                        λ row5.
                          and_then
                            (change (update_of "last_error_code" us)
                              (λ v. str_or_none env v "last_error_code")
                              (λ a. record row5 { last_error_code = a }) row5)
                            λ row6.
                              change (update_of "last_error_message" us)
                                (λ v. str_or_none env v "last_error_message")
                                (λ a. record row6 { last_error_message = a }) row6

  -- The names that are updated, in the order of the request.
  abbrev updated_fields : Updates → List String
  updated_fields us = map (λ u. u.0) us

  unfoldable pub update_provider_config :
      ℕ
      → String
      → String
      → Updates
      → Option String
      → Option Db
      → World
      → Outcome ProviderConfig × World
  update_provider_config now tenant_id provider_id updates actor lost = transaction do
    raise_if (is_empty updates) (validation_error "at least one field must be provided")
    let unknown = missing_from allowed_fields (updated_fields updates)
    raise_if (not (is_empty unknown)) (unknown_ids "unknown provider fields: " unknown)
    row ← query (provider_row_or_error env tenant_id provider_id)
    typed ← query (changed_type tenant_id provider_id (update_of "provider_type" updates) row)
    changed ← query (λ db. changed_fields updates typed)
    let row' = record changed { updated_at = now }
    modify (λ db. record db { providers = save_provider row' db.providers })
    add_event env now tenant_id "provider.update" actor (
        ("provider_id", Json.text row'.id)
        ∷ ("provider_type", Json.text row'.provider_type)
        ∷ ("updated_fields", texts (updated_fields updates))
        ∷ [])
    commit_or env lost (pure row') (raise conflict)

  unfoldable pub delete_provider_config :
      ℕ → String → String → Option String → World → Outcome (Unit {0}) × World
  delete_provider_config now tenant_id provider_id actor = transaction do
    row ← query (provider_row_or_error env tenant_id provider_id)
    modify (λ db. record db { providers = delete_where (λ p. p.id == row.id) db.providers })
    add_event env now tenant_id "provider.delete" actor (
        ("provider_id", Json.text provider_id)
        ∷ ("provider_type", Json.text row.provider_type)
        ∷ [])
    commit

  unfoldable pub list_provider_configs :
      String → ℕ → ℕ → World → Outcome (List ProviderConfig × ℕ) × World
  list_provider_configs tenant_id limit offset = transaction do
    raise_if (ltb limit 1) (validation_error "limit must be >= 1")
    total ← reads (λ db. count env provider_model tenant_id (λ p. true) db.providers)
    items ←
        reads (λ db. list_newest env provider_model tenant_id (λ p. true) limit offset db.providers)
    pure (items, total)
