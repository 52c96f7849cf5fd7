-- ===== src/Scanner.antt =====
-- The downloads of the HTTP scanner (minotari-scanning/src/scanning/http/scanner.rs): requests with
-- their retries, and the pages of blocks. The node's answers are parameters.
pub mod Retry
pub mod Download
pub mod Attempts
pub mod Progress
