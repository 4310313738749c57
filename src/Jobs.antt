-- ===== src/Jobs.antt =====
-- Parse jobs, reports and collection jobs as the service creates and reads them: the job methods of
-- `SaaSService` in apps/workers-py/src/invplatform/saas/service.py, and saas/repository.py.
pub mod Repository
pub mod Idempotency
pub mod ParseJobs
pub mod Reports
pub mod CollectionJobs
pub mod Dashboard
pub mod Artifacts
pub mod Isolation
