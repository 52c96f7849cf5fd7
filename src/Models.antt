-- ===== src/Models.antt =====
-- The wallet's data model: minotari/src/models (statuses, events, balance changes), the displayed
-- transactions, and the completed transactions' status.
pub mod OutputStatus
pub mod PendingTransactionStatus
pub mod CompletedTransactionStatus
pub mod WebhookStatus
mod Events
mod Displayed
pub use Events.*
pub use Displayed.*
