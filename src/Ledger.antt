-- ===== src/Ledger.antt =====
-- The transactional operation ledger (app/ledger.py), one child module for each group of methods.
pub mod Rows
pub mod Accounting
pub mod References
pub mod Release
pub mod Placement
pub mod Acceptance
pub mod Execution
pub mod Progress
pub mod Frames
pub mod Total
pub mod Entries
pub mod Reservations
pub mod Checks
pub mod Budgets
pub mod Audit
pub mod Replays
pub mod Lifecycle
pub mod Rollouts
pub mod Teardowns
pub mod Queries
pub mod Reads
