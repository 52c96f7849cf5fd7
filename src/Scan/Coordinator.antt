-- ===== src/Scan/Coordinator.antt =====
-- scan/coordinator.rs: many accounts scan one chain together. A round of the loop plans a range of
-- blocks, and hands every batch of the stream to the accounts that stand at its start.
mod Plan
mod Loop
unfoldable pub use Plan.*
unfoldable pub use Loop.*
