-- ===== src/Providers.antt =====
-- Mail provider configurations of a tenant and their OAuth life cycle: the provider methods of
-- `SaaSService` in apps/workers-py/src/invplatform/saas/service.py.
pub mod Fields
pub mod Configs
pub mod OAuth
pub mod Tokens
