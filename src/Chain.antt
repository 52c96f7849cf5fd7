-- ===== src/Chain.antt =====
-- What the scan of the chain comes to: the fork that a reorganisation is rolled back to, and the
-- batches of the scan loop.
pub mod Sorted
pub mod Fork
pub mod Resume
pub mod Stable
pub mod Batches
pub mod Rounds
