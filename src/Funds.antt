-- ===== src/Funds.antt =====
-- Locking outputs for a transaction (minotari/src/transactions/input_selector.rs and
-- fund_locker.rs, tasks/unlocker.rs).
pub mod Selector
pub mod Locker
