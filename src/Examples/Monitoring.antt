-- ===== src/Examples/Monitoring.antt =====
-- The small wallet with four signed transactions: one tried ten times, one to broadcast, one
-- broadcast, and one mined.
use minotari_cli.Base.{Option, [], false, none, refl, some, true, ℕ, ◌+◌, ◌-◌, ◌∷◌}
use minotari_cli.Db.Tables.{CompletedTransaction, Db}
use minotari_cli.Examples.Wallets.{env, wallet}
use minotari_cli.Models.CompletedTransactionStatus.{CompletedTransactionStatus}
use minotari_cli.Monitor.Cycle.{initialize, monitor_if_needed}
use minotari_cli.Monitor.Cycles.{monitor_if_needed-Moves}
use minotari_cli.Monitor.Loops.{MonitorConfig}
use minotari_cli.Monitor.Moves.{HasOwnIds, Moves}
use minotari_cli.Monitor.Node.{Network}
use minotari_cli.Monitor.Watch.{IsMonitored, IsMonitored-IsWatched, IsWatched}

abbrev signed : ℕ → CompletedTransactionStatus → ℕ → Option ℕ → CompletedTransaction
signed id status attempts height = record {
  id = id;
  account_id = 1;
  pending_tx_id = 40 + id;
  status = status;
  last_rejected_reason = none;
  kernel_excess = id;
  sent_payref = none;
  sent_output_hash = some (60 + id);
  mined_height = height;
  mined_block_hash = height;
  confirmation_height = none;
  broadcast_attempts = attempts;
  serialized_transaction = id;
  created_at = 100 - id;
  updated_at = 0;
}

abbrev sending : Db
sending = record wallet {
  completed_transactions =
      signed 1 CompletedTransactionStatus.completed 10 none
      ∷ signed 2 CompletedTransactionStatus.completed 3 none
      ∷ signed 3 CompletedTransactionStatus.broadcast 1 none
      ∷ signed 4 CompletedTransactionStatus.mined_unconfirmed 1 (some 12)
      ∷ [];
}

-- a node that takes every transaction and has mined each at height 14
abbrev peer : Network
peer = record {
  from_slice = λ t. some t;
  first_kernel = λ t. some t;
  submit_transaction = λ t. some (record { accepted = true; rejection_reason = 0 });
  transaction_query =
      λ k. some (record { is_mined = true; mined_height = some 14; mined_header_hash = some 114 });
  is_already_mined = λ r. false;
}

abbrev settings : MonitorConfig
settings = record { ext = env.ext; now = 3000; required_confirmations = 3; webhook_config = none }

sending-HasOwnIds : HasOwnIds sending.completed_transactions
sending-HasOwnIds = (refl, (refl, (refl, (refl, tt))))

monitor_if_needed-Moves_example :
    Moves settings 15 sending.completed_transactions
      (monitor_if_needed peer settings 1 15 true sending).2.completed_transactions
monitor_if_needed-Moves_example =
    monitor_if_needed-Moves peer settings 1 15 true sending sending-HasOwnIds

-- two cycles, the second one a block later
IsMonitored-IsWatched_example :
    let one = monitor_if_needed peer settings 1 15 (initialize 1 sending) sending in
    let two = monitor_if_needed peer settings 1 16 one.1 one.2 in IsWatched 1 two.1 two.2
IsMonitored-IsWatched_example =
    let one = monitor_if_needed peer settings 1 15 (initialize 1 sending) sending in
    IsMonitored-IsWatched 1 _ _ (
      IsMonitored.cycles peer settings 16 one.1 one.2 (
        IsMonitored.cycles peer settings 15 (initialize 1 sending) sending
          (IsMonitored.starts sending sending-HasOwnIds)))
