-- ===== src/Db.antt =====
-- The database layer (minotari/src/db), a module for each table. An operation is a function on the
-- database; one that can fail returns a result with the new database.
pub mod Tables
pub mod BalanceChanges
pub mod Events
pub mod Inputs
pub mod Outputs
pub mod PendingTransactions
pub mod ScannedTipBlocks
pub mod CompletedTransactions
pub mod DisplayedTransactions
pub mod PayrefHistory
pub mod Balance
pub mod Webhooks
