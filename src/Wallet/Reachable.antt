-- ===== src/Wallet/Reachable.antt =====
-- Every state that the wallet's database can get into by the steps of the scan, of the
-- locks and of the monitor.
use minotari_cli.Base.{
  Bool, Bool-cases, OnOk, Option, Result, [], any, inl, inr, of_ok, ok, refl, ℕ, ◌-◌, ◌==◌, ◌≡◌,
}
use minotari_cli.Chain.Resume.{handle_reorgs-IsConsistent}
use minotari_cli.Db.Balance.{get_balance}
use minotari_cli.Db.CompletedTransactions.{create_completed_transaction}
use minotari_cli.Db.PendingTransactions.{LockFundsResult, find_expired_pending_transactions}
use minotari_cli.Db.ScannedTipBlocks.{prune_scanned_tip_blocks}
use minotari_cli.Db.Tables.{CompletedTransaction, Db}
use minotari_cli.Db.Webhooks.{WebhookTriggerConfig}
use minotari_cli.Funds.Locker.{LockRequest, lock, unlock_expired_transactions}
use minotari_cli.Funds.Selector.{Wallet}
use minotari_cli.Ledger.Process.{process_block-IsConsistent}
use minotari_cli.Ledger.Reported.{get_balance-total}
use minotari_cli.Ledger.Sound.{IsConsistent}
use minotari_cli.Ledger.Spend.{AreDistinct, AreUnspent}
use minotari_cli.Ledger.Totals.{received, spent_value}
use minotari_cli.Locks.Books.{lock-IsConsistent, unlock_each-IsConsistent}
use minotari_cli.Monitor.Cycle.{monitor_if_needed}
use minotari_cli.Monitor.Cycles.{monitor_if_needed-IsConsistent}
use minotari_cli.Monitor.Loops.{MonitorConfig}
use minotari_cli.Monitor.Node.{Network}
use minotari_cli.Scan.BlockProcessor.{Processor}
use minotari_cli.Scan.BlockProcessor.Steps.{Env, process_block}
use minotari_cli.Scan.Blocks.{BlockScanResult}
use minotari_cli.Scan.DbHandler.{prune_tips}
use minotari_cli.Scan.Reorg.{ReorgResult, handle_reorgs}

-- the tables after the migrations
abbrev pub initial : Db
initial = record {
  outputs = [];
  next_output_id = 1;
  inputs = [];
  next_input_id = 1;
  balance_changes = [];
  next_balance_change_id = 1;
  pending_transactions = [];
  completed_transactions = [];
  scanned_tip_blocks = [];
  next_tip_block_id = 1;
  events = [];
  next_event_id = 1;
  displayed_transactions = [];
  payref_history = [];
  next_payref_id = 1;
  webhook_queue = [];
  next_webhook_id = 1;
}

-- One database transaction of the wallet, in any order, for any account and at any time. A block
-- names every output that it spends once, and none that is spent already.
pub data Step : Db → Db → Type 0 where
  scans :
      (env : Env) (block : BlockScanResult) (a : ℕ) (p p' : Processor) (db db' : Db)
      → AreDistinct block.inputs
      → AreUnspent a block.inputs db.outputs db.inputs
      → process_block env block a p db ≡ ok (p', db')
      → Step db db'
  checks :
      (header : ℕ → Result (Option ℕ)) (now a : ℕ) (webhook : Option WebhookTriggerConfig)
      (r : ReorgResult) (db db' : Db)
      → handle_reorgs header now a webhook db ≡ ok (r, db')
      → Step db db'
  locks :
      (w : Wallet) (now id fresh_key : ℕ) (q : LockRequest) (r : LockFundsResult) (db db' : Db)
      → lock w now id fresh_key q db ≡ ok (r, db')
      → Step db db'
  unlocks : (now : ℕ) (db : Db) → Step db (unlock_expired_transactions now db)
  monitors :
      (net : Network) (m : MonitorConfig) (account height : ℕ) (flag : Bool) (db : Db)
      → Step db (monitor_if_needed net m account height flag db).2
  prunes : (a h : ℕ) (db : Db) → Step db (prune_tips a h db)
  signs :
      (account pending kernel_excess serialized : ℕ) (sent_output_hash : Option ℕ) (tx_id now : ℕ)
      (db db' : Db)
      → create_completed_transaction account pending kernel_excess serialized sent_output_hash tx_id
          now db
        ≡ ok db'
      → Step db db'

pub data Reachable : Db → Type 0 where
  start : Reachable initial
  after : (db db' : Db) → Reachable db → Step db db' → Reachable db'

signed-IsConsistent :
    (b account pending kernel_excess serialized : ℕ) (sent_output_hash : Option ℕ) (tx_id now : ℕ)
    (db : Db)
    → IsConsistent b db
    → OnOk (IsConsistent b) (
        create_completed_transaction account pending kernel_excess serialized sent_output_hash tx_id
          now db)
unfolding create_completed_transaction
signed-IsConsistent b account pending kernel_excess serialized sent_output_hash tx_id now db c =
    elim (Bool-cases
      (any (λ (t : CompletedTransaction). t.id == tx_id) db.completed_transactions)) [
        | inl y ↦ rw y tt
        | inr n ↦ rw n (record { sound = c.sound; balanced = c.balanced })
      ]

Step-IsConsistent : (b : ℕ) (db db' : Db) → IsConsistent b db → Step db db' → IsConsistent b db'
unfolding unlock_expired_transactions prune_tips prune_scanned_tip_blocks
Step-IsConsistent b _ _ c (scans env block a p p' db db' d u e) =
    process_block-IsConsistent b env block a p p' db db' c d u e
Step-IsConsistent b _ _ c (checks header now a webhook r db db' e) =
    handle_reorgs-IsConsistent b header now a webhook db db' r c e
Step-IsConsistent b _ _ c (locks w now id fresh_key q r db db' e) =
    (lock-IsConsistent b w now id fresh_key 0 q db db' r c e).0
Step-IsConsistent b _ _ c (unlocks now db) =
    unlock_each-IsConsistent b (find_expired_pending_transactions now db) db c
Step-IsConsistent b _ _ c (monitors net m account height flag db) =
    monitor_if_needed-IsConsistent b net m account height flag db c
Step-IsConsistent b _ _ c (prunes a h db) = record { sound = c.sound; balanced = c.balanced }
Step-IsConsistent b _ _ c (signs account pending excess serialized sent tx_id now db db' e) =
    of_ok (IsConsistent b) _
      (signed-IsConsistent b account pending excess serialized sent tx_id now db c) e

Reachable-IsConsistent : (b : ℕ) (db : Db) → Reachable db → IsConsistent b db
Reachable-IsConsistent b _ start = record { sound = (tt, tt); balanced = refl }
Reachable-IsConsistent b _ (after db₀ db r s) =
    Step-IsConsistent b db₀ db (Reachable-IsConsistent b db₀ r) s

-- In every state that the database reaches from empty tables by blocks, checks for reorganisations,
-- locks, rounds of the unlocker, the recording of signed transactions, cycles of the monitor and
-- prunings, in any order, the balance reported for an account is what its live outputs are worth less
-- what its live inputs have spent of them. The blocks name each output that they spend once, and none
-- that is spent already.
pub Reachable-get_balance :
    (a : ℕ) (db : Db)
    → Reachable db
    → (get_balance a db).total ≡ received a db.outputs - spent_value a db.outputs db.inputs
Reachable-get_balance a db r = get_balance-total a db (Reachable-IsConsistent a db r).balanced
