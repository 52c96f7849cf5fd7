-- ===== src/Lib.antt =====
-- A verification library for the minotari wallet (the crate minotari, with the block type of
-- minotari-scanning).
--
-- The wallet scans a chain of blocks for outputs that belong to its accounts, keeps them in a SQLite
-- database together with a ledger of balance changes, rolls back when the chain reorganises, and
-- locks outputs for the transactions that it is asked for, and watches the transactions that it has
-- signed until the chain has them. The parts:
--
-- Base         lists as tables (select, update_where, delete_where, order_desc), results with the
--              `?` operator as >>=, Boolean tests on the native natural numbers, and their laws.
-- Models       minotari/src/models: the statuses with their texts, wallet events, balance changes;
--              minotari/src/transactions/displayed_transaction_processor/types.rs.
-- Db           minotari/src/db, a module per table, with the types of the rows in Db/Tables. An
--              operation takes the database `Db` and gives the new one; its name is that of the
--              Rust function. Db/Webhooks also holds minotari/src/webhooks/utils.rs.
-- Scan         minotari/src/scan: Blocks (events.rs, block_event_accumulator.rs), BlockProcessor
--              (block_processor.rs), DbHandler (scan_db_handler.rs), Reorg (reorg.rs), Coordinator
--              (coordinator.rs: Plan for the plan of a round, Loop for the turn of an account).
-- Funds        minotari/src/transactions/input_selector.rs and fund_locker.rs,
--              minotari/src/tasks/unlocker.rs.
-- Monitor      minotari/src/transactions/monitor.rs: Node (what is asked of the node), Loops (the three
--              loops), Cycle (`monitor_if_needed`), and theorems on the moves that a cycle makes.
-- Webhooks     minotari/src/webhooks: Queue (db/webhooks.rs, the columns of the delivery), Sender
--              (sender.rs), Worker (worker.rs), and theorems on the worker.
-- Displayed    minotari/src/transactions/displayed_transaction_processor: Builder (builder.rs), and of
--              processor.rs Transactions (what is built), Matching, Subset (the search for inputs that
--              add up), Inputs (the payments with change), Processor; theorems on the search.
-- Scanner      minotari-scanning/src/scanning/http/scanner.rs: Retry (the retries of a request) and
--              Download (the pages of blocks), and theorems on both.
-- Burns        minotari/src/db/burn_proofs.rs (Table) and minotari/src/tasks/burn_proof_worker.rs
--              (Worker), and theorems on a cycle of that worker (Fates, Rows, Cycle, Lookup).
-- Ledger       theorems on the books: what the ledger says against the outputs and inputs.
-- Chain        theorems on reorganisations and on batches of blocks.
-- Locks        theorems on locked outputs.
-- Wallet       the steps of the whole database, as a relation, and what holds in every state.
-- Examples     a small wallet on which the theorems are applied.
--
-- How the source is read. A SQL table is the list of its rows by ascending id, with the next id of
-- AUTOINCREMENT beside it; a statement is the query or update with its WHERE clause as a Boolean
-- test; a unique index is the test that makes an INSERT fail, or do nothing for INSERT OR IGNORE. A
-- Rust Result is a Result. A database transaction is a function whose result is dropped on an error.
-- Hashes, addresses, memos, times and UUIDs are numbers that are only stored and compared; the clock
-- and fresh ids are arguments. Amounts, heights and ids are natural numbers: sums of amounts stay
-- below 2^63, as the columns require, and where the source saturates so does the model; the panic of
-- an overflow in what a memo or a configuration says is an error, or an ending of its own. Loops
-- are recursion on a list, and need no fuel; the retries of a request are on fuel, one less than twice
-- the limit of retries, which is as many attempts as can be made.
--
-- Parameters, for code outside the repository: `External` (transaction ids, payment references and
-- timestamps), `Wallet` (fees, the branch-and-bound search and the default sizes of an output), the
-- node as a function from heights to block hashes, and for the monitor `Network` (the node's answers to
-- a transaction and the reading of a serialised transaction), for the webhooks `Http` (signature and
-- request) and the draws at random of `Worker`, and for burns what `BurnProofWorker` is given. Two
-- parts of the repository are parameters as well where the scan calls them, any function in their
-- place: the displayed transactions of a block
-- (`Env.displayed`) and the transaction monitor (`Monitor` of Scan/Coordinator/Loop).
--
-- Not modelled: the command line, the daemon, the HTTP API and client, configuration, logging, the
-- transaction builders, burns and validator nodes, the scanners but for their downloads, and
-- the loop around the coordinator's rounds; they are glue, cryptography of other crates, or work
-- that the theorems do not depend on.
pub mod Base
pub mod Models
pub mod Db
pub mod Scan
pub mod Funds
pub mod Monitor
pub mod Webhooks
pub mod Displayed
pub mod Scanner
pub mod Burns
pub mod Ledger
pub mod Chain
pub mod Locks
pub mod Wallet
mod Examples
