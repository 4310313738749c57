-- ===== src/Providers/Fields.antt =====
-- The normalisation of provider fields: `_normalize_provider_type`, `_normalize_provider_status`,
-- `_str_or_none`, `_nullable_datetime`, `_config_to_json`, `_provider_config_payload`,
-- `_validate_oauth_redirect_uri` and `_provider_oauth_authorization_url` of service.py.
use invoices_codex.Prelude.{
  ℕ, String, Bool, true, false, not, ◌&&◌, ◌||◌, Option, none, some, List, [], ◌∷◌, ◌==◌, contains,
  or_none, or_empty, joined, if◌then◌else◌,
}
use invoices_codex.Env.{Env, Dict, Loaded, object, invalid}
use invoices_codex.Models.{ProviderConfig}
use invoices_codex.Store.{Db, Outcome, ok, raised, Fault, provider_error, optional, and_then}

-- A Python object that a caller hands in; `other` is a value of any other type.
pub data Value : Type 0 where
  nothing : Value
  text : String → Value
  instant : ℕ → Value
  dict : Dict → Value
  other : Value

abbrev pub validation_error : String → Fault
validation_error message = provider_error "PROVIDER_VALIDATION_ERROR" message

abbrev pub conflict : Fault
conflict = provider_error "PROVIDER_CONFLICT" "provider config already exists for provider_type"

abbrev pub not_found : Fault
not_found = provider_error "PROVIDER_NOT_FOUND" "provider config not found"

abbrev pub allowed_types : List String
allowed_types = "gmail" ∷ "outlook" ∷ []

abbrev pub allowed_statuses : List String
allowed_statuses = "connected" ∷ "disconnected" ∷ "error" ∷ []

-- What `urlparse` finds in a URL.
pub record ParsedUrl : Type 0 where
  pub scheme : String
  pub netloc : String
  pub hostname : Option String
  pub fragment : String

-- The OAuth settings of `ServiceConfig`, and `urllib`'s `urlparse` and `urlencode`.
pub record OAuthConfig : Type 0 where
  pub client_id : String → String
  pub scope : String → String
  pub allowed_redirect_hosts : List String
  pub allow_insecure_local_redirect : Bool
  pub urlparse : String → ParsedUrl
  pub urlencode : List (String × String) → String

-- `ProviderConfig.id != exclude_id`, where an id is given
abbrev not_excluded : Option String → String → Bool
not_excluded none id = true
not_excluded (some x) id = not (id == x)

module _ (env : Env) where
  unfoldable pub normalize_provider_type : Value → Outcome String
  normalize_provider_type (text raw) =
      let normalized = env.lower (env.strip raw) in
      if contains normalized allowed_types
      then ok normalized
      else raised (validation_error "provider_type must be one of: gmail, outlook")
  normalize_provider_type _ = raised (validation_error "provider_type must be a string")

  unfoldable pub normalize_provider_status : Value → Outcome String
  normalize_provider_status (text raw) =
      let normalized = env.lower (env.strip raw) in
      if contains normalized allowed_statuses
      then ok normalized
      else raised
          (validation_error "connection_status must be one of: connected, disconnected, error")
  normalize_provider_status _ = raised (validation_error "connection_status must be a string")

  unfoldable pub str_or_none : Value → String → Outcome (Option String)
  str_or_none nothing field = ok none
  str_or_none (text s) field = ok (or_none (env.strip s))
  str_or_none _ field = raised (validation_error (joined field " must be a string or null"))

  -- An instant is in UTC already, which `_coerce_utc` sees to.
  unfoldable pub nullable_datetime : Value → String → Outcome (Option ℕ)
  nullable_datetime nothing field = ok none
  nullable_datetime (instant t) field = ok (some t)
  nullable_datetime _ field = raised (validation_error (joined field " must be a datetime or null"))

  unfoldable pub config_to_json : Value → Bool → Outcome String
  config_to_json nothing true = ok "{}"
  config_to_json nothing false = raised (validation_error "config must be an object")
  config_to_json (dict d) allow_null = ok (env.dumps_sorted d)
  config_to_json _ true = raised (validation_error "config must be an object or null")
  config_to_json _ false = raised (validation_error "config must be an object")

  abbrev object_of : Loaded → Outcome Dict
  object_of (object d) = ok d
  object_of invalid =
      raised (provider_error "PROVIDER_CONFIG_ERROR" "config_json must be valid JSON")
  object_of _ = raised (provider_error "PROVIDER_CONFIG_ERROR" "config_json must be a JSON object")

  unfoldable pub provider_config_payload : ProviderConfig → Outcome Dict
  provider_config_payload row = object_of (env.loads row.config_json)

  -- `_ensure_unique_provider_type`
  unfoldable pub ensure_unique_provider_type :
      String → String → Option String → Db → Outcome (Unit {0})
  ensure_unique_provider_type tenant_id provider_type exclude_id db =
      and_then
        (optional (
          env.one_or_none
            (λ (p : ProviderConfig).
              (p.tenant_id == tenant_id)
              && ((p.provider_type == provider_type) && not_excluded exclude_id p.id))
            db.providers))
        λ duplicate. elim duplicate [ none ↦ ok tt | some p ↦ raised conflict ]

  -- `_provider_row_or_error`
  unfoldable pub provider_row_or_error : String → String → Db → Outcome ProviderConfig
  provider_row_or_error tenant_id provider_id db =
      and_then
        (optional (
          env.one_or_none
            (λ (p : ProviderConfig). (p.tenant_id == tenant_id) && (p.id == provider_id))
            db.providers))
        λ row. elim row [ none ↦ raised not_found | some p ↦ ok p ]

  -- The hosts of the configuration that are not blank.
  abbrev allowed_hosts : List String → List String
  allowed_hosts [] = []
  allowed_hosts (h ∷ hs) =
      let rest = allowed_hosts hs in
      if env.strip h == "" then rest else env.lower (env.strip h) ∷ rest

  abbrev host_allowed : String → List String → Bool
  host_allowed host [] = true
  host_allowed host (h ∷ hs) = contains host (h ∷ hs)

  abbrev host_of : OAuthConfig → String → String
  host_of config uri = env.lower (env.strip (or_empty (config.urlparse uri).hostname))

  abbrev is_local_host : String → Bool
  is_local_host host = contains host ("localhost" ∷ "127.0.0.1" ∷ [])

  -- `https`, or `http` where the configuration allows it and the host is a local one
  abbrev scheme_allowed : OAuthConfig → String → Bool
  scheme_allowed config uri =
      ((config.urlparse uri).scheme == "https")
      || (((config.urlparse uri).scheme == "http")
          && (config.allow_insecure_local_redirect && is_local_host (host_of config uri)))

  unfoldable pub validate_oauth_redirect_uri : OAuthConfig → Value → Outcome String
  validate_oauth_redirect_uri config (text raw) =
      let uri = env.strip raw in
      if host_of config uri == ""
        || (((config.urlparse uri).netloc == "") || not ((config.urlparse uri).fragment == ""))
      then raised (validation_error "redirect_uri must be an absolute http(s) URL")
      else if not (scheme_allowed config uri)
      then raised
          (validation_error "redirect_uri must use https (http is allowed only for localhost)")
      else if not (host_allowed (host_of config uri) (allowed_hosts config.allowed_redirect_hosts))
      then raised (validation_error "redirect_uri host is not allowed")
      else ok uri
  validate_oauth_redirect_uri config _ = raised (validation_error "redirect_uri must be a string")

  abbrev base_url : String → Option String
  base_url provider_type =
      if provider_type == "gmail"
      then some "https://accounts.google.com/o/oauth2/v2/auth"
      else if provider_type == "outlook"
      then some "https://login.microsoftonline.com/common/oauth2/v2.0/authorize"
      else none

  unfoldable pub provider_oauth_authorization_url :
      OAuthConfig → String → String → String → Outcome String
  provider_oauth_authorization_url config provider_type redirect_uri state =
      elim (base_url provider_type) [
        | none ↦ raised (validation_error "provider_type does not support oauth")
        | some base ↦
            let client_id = env.strip (config.client_id provider_type) in
            let scope = env.strip (config.scope provider_type) in
            if client_id == ""
            then raised (
                provider_error "PROVIDER_OAUTH_CONFIG_ERROR"
                  (joined "oauth client_id is not configured for provider_type=" provider_type))
            else if scope == ""
            then raised (
                provider_error "PROVIDER_OAUTH_CONFIG_ERROR"
                  (joined "oauth scope is not configured for provider_type=" provider_type))
            else ok (
                joined base (
                  joined "?" (
                    config.urlencode (
                      ("response_type", "code")
                      ∷ ("client_id", client_id)
                      ∷ ("redirect_uri", redirect_uri)
                      ∷ ("scope", scope)
                      ∷ ("state", state)
                      ∷ []))))
      ]
