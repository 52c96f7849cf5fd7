-- ===== src/Wallet.antt =====
-- The wallet as a whole: the steps that its database takes.
pub mod Reachable
