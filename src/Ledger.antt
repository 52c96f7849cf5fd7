-- ===== src/Ledger.antt =====
-- The balance ledger against the outputs and inputs that it accounts for.
pub mod Totals
pub mod Reversals
pub mod Sound
pub mod Frames
pub mod Rows
pub mod Receive
pub mod Spend
pub mod SpendLoop
pub mod Process
pub mod Confirm
pub mod RolledBack
pub mod RollbackSound
pub mod Rollback
pub mod Reported
pub mod Again
