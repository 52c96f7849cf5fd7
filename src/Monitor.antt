-- ===== src/Monitor.antt =====
-- transactions/monitor.rs: the transactions that the wallet has signed, on their way to the chain.
-- The node is a parameter; the monitor's flag and the database are passed on. Each statement on the
-- database stands by itself, so an error leaves what was done before it.
pub mod Node
pub mod Loops
pub mod Cycle
pub mod Moves
pub mod Advance
pub mod Run
pub mod Pending
pub mod Lifecycle
pub mod Cycles
pub mod Watch
