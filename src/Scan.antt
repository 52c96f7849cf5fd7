-- ===== src/Scan.antt =====
-- Scanning the chain (minotari/src/scan): the block processor, the handler that runs it in a
-- database transaction, reorganisations, and the scan loop of the coordinator.
pub mod Blocks
pub mod BlockProcessor
pub mod DbHandler
pub mod Reorg
pub mod Coordinator
