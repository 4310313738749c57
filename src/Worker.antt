-- ===== src/Worker.antt =====
-- The jobs that run behind the queue: apps/workers-py/src/invplatform/saas/worker.py, with the
-- storage that it writes to (saas/storage.py) and the in-memory queue (saas/queue.py).
pub mod Storage
pub mod ParseRun
pub mod ReportRun
pub mod Cleanup
pub mod CollectionRun
pub mod Queue
pub mod Tasks
