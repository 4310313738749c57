-- ===== src/Mail.antt =====
-- Mail messages and the choice of those that may carry invoices: adapters/base.py, usecases/fetch_invoices.py and
-- domain/relevance.py.
pub mod Relevance
pub mod Fetch
