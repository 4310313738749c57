-- ===== src/Models.antt =====
-- The rows of the database tables: apps/workers-py/src/invplatform/saas/models.py.
-- A text column is a `String` and a nullable column an `Option`. A date-time is an instant, counted
-- in microseconds, and a date a day number. A float is carried as its bit pattern, since no operation
-- of the service or the worker that is modelled computes with one.
mod Identity
mod Jobs
pub use Identity.*
pub use Jobs.*
