-- ===== src/Burns.antt =====
-- The proofs of burnt outputs (minotari/src/db/burn_proofs.rs and tasks/burn_proof_worker.rs): the
-- table, the worker that completes its rows, and theorems on a cycle of the worker.
pub mod Table
pub mod Worker
pub mod Fates
pub mod Rows
pub mod Cycle
pub mod Lookup
