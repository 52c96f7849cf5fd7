-- ===== src/Scan/BlockProcessor.antt =====
-- scan/block_processor.rs. The event sender is the list of what it was sent; the displayed
-- transactions that a block gives rise to are an argument, any function of the accumulator and the
-- database; `now` stands for `Utc::now()`.
mod Defs
pub mod Steps
unfoldable pub use Defs.*
