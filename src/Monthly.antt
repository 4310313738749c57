-- ===== src/Monthly.antt =====
-- The monthly run: cli/monthly_invoices.py and cli/quarantine_invoices.py, with usecases/duplicate_policy.py
-- and usecases/provider_runner.py.
pub mod Paths
pub mod Consolidation
pub mod Moves
pub mod Dedupe
pub mod Calendar
pub mod Runs
pub mod Main
pub mod Quarantine
