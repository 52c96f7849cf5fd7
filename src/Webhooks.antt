-- ===== src/Webhooks.antt =====
-- The delivery of webhooks (minotari/src/webhooks): the queue with the columns that the delivery
-- uses, the sender, the worker that goes through the queue, and theorems on the worker.
pub mod Queue
pub mod Sender
pub mod Worker
pub mod Backoff
pub mod Delivery
pub mod Batches
