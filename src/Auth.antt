-- ===== src/Auth.antt =====
-- Users and their sessions: the authentication methods of `SaaSService` in
-- apps/workers-py/src/invplatform/saas/service.py, and saas/auth.py.
pub mod AccessToken
pub mod Common
pub mod Slugs
pub mod Passwords
pub mod Login
pub mod Refresh
pub mod CurrentUser
pub mod Members
pub mod ApiKeys
