-- ===== src/Locks.antt =====
-- The locks on outputs (minotari/src/transactions/fund_locker.rs, minotari/src/tasks/unlocker.rs).
pub mod Locking
pub mod Release
pub mod Replay
pub mod Books
pub mod Again
