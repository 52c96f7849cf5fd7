-- ===== src/Monitor/Cycle.antt =====
-- A cycle of the monitor.
use minotari_cli.Models.CompletedTransactionStatus
use minotari_cli.Base.{
  Bool, List, Result, [], err, false, first, if◌then◌else◌, leb, length, ltb, not, ok, select, true,
  ℕ, ◌++◌, ◌+◌, ◌-◌, ◌==◌, ◌>>=◌, ◌∷◌,
}
use minotari_cli.Db.CompletedTransactions.{confirmed, get_pending_completed_transactions, mined}
use minotari_cli.Db.DisplayedTransactions.{
  get_displayed_transactions_needing_confirmation_update,
  update_displayed_transaction_confirmations,
}
use minotari_cli.Db.Tables.{CompletedTransaction, Db}
use minotari_cli.Models.{
  DisplayedTransaction, TransactionDisplayStatus, WalletEvent, WalletEventType,
  transaction_confirmed, transaction_rejected,
}
use minotari_cli.Models.CompletedTransactionStatus.{CompletedTransactionStatus}
use minotari_cli.Monitor.Loops.{
  MonitorConfig, MonitoringResult, check_broadcast_for_mining, check_confirmation_status,
  extend_result, rebroadcast_completed_transactions,
}
use minotari_cli.Monitor.Node.{Network}

pub record PendingTransactionsByStatus : Type 0 where
  pub completed_txs : List CompletedTransaction
  pub broadcast_txs : List CompletedTransaction
  pub mined_unconfirmed_txs : List CompletedTransaction

abbrev pub of_status :
    CompletedTransactionStatus → List CompletedTransaction → List CompletedTransaction
of_status s ts = select (λ t. CompletedTransactionStatus.eqb t.status s) ts

-- every list keeps the order of the transactions
unfoldable pub from_transactions : List CompletedTransaction → PendingTransactionsByStatus
from_transactions ts = record {
  completed_txs = of_status CompletedTransactionStatus.completed ts;
  broadcast_txs = of_status CompletedTransactionStatus.broadcast ts;
  mined_unconfirmed_txs = of_status CompletedTransactionStatus.mined_unconfirmed ts;
}

unfoldable pub remaining_count : PendingTransactionsByStatus → ℕ
remaining_count p = length p.completed_txs + length p.broadcast_txs + length p.mined_unconfirmed_txs

unfoldable pub determine_status_from_confirmations : MonitorConfig → ℕ → TransactionDisplayStatus
determine_status_from_confirmations m confirmations =
    if leb m.required_confirmations confirmations
    then TransactionDisplayStatus.confirmed
    else (if ltb 0 confirmations
        then TransactionDisplayStatus.unconfirmed
        else TransactionDisplayStatus.pending)

-- a status moves only while the transaction is pending or unconfirmed
abbrev next_status : TransactionDisplayStatus → TransactionDisplayStatus → TransactionDisplayStatus
next_status TransactionDisplayStatus.pending s = s
next_status TransactionDisplayStatus.unconfirmed s = s
next_status old s = old

-- a displayed transaction with a new count of confirmations
unfoldable pub with_confirmations : MonitorConfig → ℕ → DisplayedTransaction → DisplayedTransaction
with_confirmations m confirmations t = record t {
  blockchain = record (t.blockchain) { confirmations = confirmations };
  status = next_status t.status (determine_status_from_confirmations m confirmations);
}

unfoldable pub update_each :
    MonitorConfig → ℕ → List DisplayedTransaction → Db → List DisplayedTransaction × Db
unfolding with_confirmations
update_each m height [] db = ([], db)
update_each m height (t ∷ ts) db =
    let confirmations : ℕ = height - t.blockchain.block_height in
    elim (confirmations == t.blockchain.confirmations) [
      | true ↦ update_each m height ts db
      | false ↦
          let t' = with_confirmations m confirmations t in
          let (rest, db') =
            update_each m height ts (update_displayed_transaction_confirmations t' db).1 in
          (t' ∷ rest, db')
    ]

-- `TransactionMonitor::update_displayed_transaction_confirmations`
unfoldable pub update_confirmations : MonitorConfig → ℕ → ℕ → Db → List DisplayedTransaction × Db
unfolding update_each
update_confirmations m account height db =
    update_each m height (get_displayed_transactions_needing_confirmation_update account db) db

-- the three loops in turn; an error of a later one loses the events of the earlier ones
unfoldable pub process_pending_transactions :
    Network
    → MonitorConfig
    → ℕ
    → ℕ
    → PendingTransactionsByStatus
    → Db
    → Result MonitoringResult × Db
process_pending_transactions net m account height by_status db =
    let (r, db₁) = rebroadcast_completed_transactions net m account by_status.completed_txs db in
    let (mined, db₂) = check_broadcast_for_mining net m account by_status.broadcast_txs db₁ in
    elim mined [
      | err e ↦ (err e, db₂)
      | ok mined_events ↦
          let (confirmed, db₃) =
            check_confirmation_status m account height by_status.mined_unconfirmed_txs db₂ in
          (
            confirmed >>= λ confirmed_events. ok (record r {
              wallet_events = (r.wallet_events ++ mined_events) ++ confirmed_events;
            }),
            db₃,
          )
    ]

abbrev is_terminal_event : WalletEventType → Bool
is_terminal_event (transaction_confirmed _ _ _) = true
is_terminal_event (transaction_rejected _ _) = true
is_terminal_event _ = false

unfoldable pub terminal_transitions : List WalletEvent → ℕ
terminal_transitions es = length (select (λ e. is_terminal_event e.event_type) es)

-- the flag after a cycle that went through `count` transactions
abbrev pub flag_after : ℕ → MonitoringResult → Bool
flag_after count r = not (leb count (terminal_transitions r.wallet_events))

-- What a cycle returns: the result, the flag `has_pending_outbound`, and the database.
abbrev pub Outcome : Type 0
Outcome = Result MonitoringResult × Bool × Db

abbrev finish_cycle : MonitoringResult → ℕ → Result MonitoringResult × Db → Outcome
finish_cycle first count (err e, db) = (err e, true, db)
finish_cycle first count (ok r, db) =
    let all = extend_result first r in (ok all, flag_after count all, db)

-- the cycle of a monitor whose flag is set, after the displayed transactions
unfoldable pub monitor_pending :
    Network → MonitorConfig → ℕ → ℕ → MonitoringResult → List CompletedTransaction → Db → Outcome
monitor_pending net m account height first [] db = (ok first, false, db)
monitor_pending net m account height first (t ∷ ts) db =
    let by_status = from_transactions (t ∷ ts) in
    finish_cycle first (remaining_count by_status)
      (process_pending_transactions net m account height by_status db)

unfoldable pub monitor_if_needed : Network → MonitorConfig → ℕ → ℕ → Bool → Db → Outcome
unfolding monitor_pending
monitor_if_needed net m account height flag db =
    let (displayed, db₁) = update_confirmations m account height db in
    let first : MonitoringResult = record {
      wallet_events = [];
      updated_displayed_transactions = displayed;
    } in
    elim flag [
      | false ↦ (ok first, false, db₁)
      | true ↦
          monitor_pending net m account height first
            (get_pending_completed_transactions account db₁) db₁
    ]

-- `MonitoringState::initialize`
unfoldable pub initialize : ℕ → Db → Bool
initialize account db = elim (get_pending_completed_transactions account db) [
  | [] ↦ false
  | _ ∷ _ ↦ true
]
