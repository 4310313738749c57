-- ===== src/Store.antt =====
-- A service call's session: the tables, what is pending until `session.commit()`, the job queue and
-- the object storage (saas/db.py, queue.py, storage.py), and the faults that a call raises.
mod Tables
mod Transactions
mod Writes
pub use Tables.*
pub use Transactions.*
unfoldable pub use Writes.{
  save_user, save_membership, save_session, save_provider, save_api_key, save_file, save_parse_job,
  save_collection_job, save_report,
}
