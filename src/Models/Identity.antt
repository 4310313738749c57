-- ===== src/Models/Identity.antt =====
-- Tenants, users, memberships, sessions, providers and API keys.
use invoices_codex.Prelude.{ℕ, String, Bool, Option}

pub record Tenant : Type 0 where
  pub id : String
  pub name : String
  pub slug : String
  pub created_at : ℕ

pub record User : Type 0 where
  pub id : String
  pub email : String
  pub email_normalized : String
  pub password_hash : String
  pub full_name : Option String
  pub is_active : Bool
  pub last_login_at : Option ℕ
  pub created_at : ℕ
  pub updated_at : ℕ

pub record TenantMembership : Type 0 where
  pub id : String
  pub tenant_id : String
  pub user_id : String
  pub role : String
  pub status : String
  pub created_at : ℕ
  pub updated_at : ℕ

pub record AuthSession : Type 0 where
  pub id : String
  pub tenant_id : String
  pub user_id : String
  pub membership_id : String
  pub refresh_token_hash : String
  pub created_at : ℕ
  pub updated_at : ℕ
  pub last_seen_at : Option ℕ
  pub access_expires_at : ℕ
  pub refresh_expires_at : ℕ
  pub revoked_at : Option ℕ
  pub revoke_reason : Option String
  pub created_ip : Option String
  pub created_user_agent : Option String

pub record ProviderConfig : Type 0 where
  pub id : String
  pub tenant_id : String
  pub provider_type : String
  pub display_name : Option String
  pub connection_status : String
  pub config_json : String
  pub token_expires_at : Option ℕ
  pub last_successful_sync_at : Option ℕ
  pub last_error_code : Option String
  pub last_error_message : Option String
  pub oauth_access_token_enc : Option String
  pub oauth_refresh_token_enc : Option String
  pub created_at : ℕ
  pub updated_at : ℕ

pub record ApiKey : Type 0 where
  pub id : String
  pub tenant_id : String
  pub key_prefix : String
  pub key_hash : String
  pub revoked : Bool
  pub created_at : ℕ
  pub revoked_at : Option ℕ
