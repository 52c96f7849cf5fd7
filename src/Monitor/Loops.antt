-- ===== src/Monitor/Loops.antt =====
-- The loops over the pending transactions, by status.
use minotari_cli.Base.{
  List, Option, Result, [], err, false, leb, missing_field, none, ok, or_fail, some, true, ℕ, ◌++◌,
  ◌+◌, ◌-◌, ◌>>=◌, ◌∷◌,
}
use minotari_cli.Db.CompletedTransactions.{
  mark_completed_transaction_as_broadcasted, mark_completed_transaction_as_confirmed,
  mark_completed_transaction_as_mined_unconfirmed, mark_completed_transaction_as_rejected,
}
use minotari_cli.Db.DisplayedTransactions.{mark_displayed_transaction_rejected}
use minotari_cli.Db.Events.{insert_wallet_event}
use minotari_cli.Db.Outputs.{External, unlock_outputs_for_request}
use minotari_cli.Db.Tables.{CompletedTransaction, Db}
use minotari_cli.Db.Webhooks.{WebhookTriggerConfig, trigger_webhook_with_balance}
use minotari_cli.Models.{
  DisplayedTransaction, RejectReason, WalletEvent, WalletEventType, exceeded_attempts,
  transaction_broadcast, transaction_confirmed, transaction_rejected, transaction_unconfirmed,
}
use minotari_cli.Monitor.Node.{Network, broadcast_transaction, find_kernel_on_chain}

abbrev pub max_broadcast_attempts : ℕ
max_broadcast_attempts = 10

pub record MonitoringResult : Type 0 where
  pub wallet_events : List WalletEvent
  pub updated_displayed_transactions : List DisplayedTransaction

abbrev empty_result : MonitoringResult
empty_result = record { wallet_events = []; updated_displayed_transactions = [] }

-- `extend`
unfoldable pub extend_result : MonitoringResult → MonitoringResult → MonitoringResult
extend_result r s = record {
  wallet_events = r.wallet_events ++ s.wallet_events;
  updated_displayed_transactions =
      r.updated_displayed_transactions ++ s.updated_displayed_transactions;
}

-- the fields of `TransactionMonitor` that do not change, and the clock
pub record MonitorConfig : Type 0 where
  pub ext : External
  pub now : ℕ
  pub required_confirmations : ℕ
  pub webhook_config : Option WebhookTriggerConfig

unfoldable pub persist_event : MonitorConfig → ℕ → WalletEvent → Db → Db
persist_event m account event db =
    let (event_id, db') = insert_wallet_event account event db in
    elim m.webhook_config [
      | none ↦ db'
      | some config ↦ trigger_webhook_with_balance account event_id event config db'
    ]

abbrev pub tx_event : ℕ → WalletEventType → WalletEvent
tx_event account t = record { id = 0; account_id = account; event_type = t }

abbrev list_of {ℓ} : {A : Type ℓ} → Option A → List A
list_of none = []
list_of (some a) = a ∷ []

-- a transaction that is given up: its funds are unlocked
unfoldable pub reject_transaction :
    MonitorConfig → ℕ → CompletedTransaction → RejectReason → Db → MonitoringResult × Db
reject_transaction m account t reason db =
    let db₁ = mark_completed_transaction_as_rejected t.id reason m.now db in
    let db₂ = unlock_outputs_for_request t.pending_tx_id db₁ in
    let (displayed, db₃) = mark_displayed_transaction_rejected t.id db₂ in
    let event = tx_event account (transaction_rejected t.id reason) in
    (
      record { wallet_events = event ∷ []; updated_displayed_transactions = list_of displayed },
      persist_event m account event db₃,
    )

-- one round of the loop of `rebroadcast_completed_transactions`
unfoldable pub rebroadcast_one :
    Network → MonitorConfig → ℕ → CompletedTransaction → Db → MonitoringResult × Db
unfolding reject_transaction
rebroadcast_one net m account t db = elim (leb max_broadcast_attempts t.broadcast_attempts) [
  | true ↦ reject_transaction m account t exceeded_attempts db
  | false ↦ elim (broadcast_transaction net t) [
    | some reason ↦ reject_transaction m account t reason db
    | none ↦
        let db₁ =
          mark_completed_transaction_as_broadcasted t.id (t.broadcast_attempts + 1) m.now db in
        let event = tx_event account (transaction_broadcast t.id t.kernel_excess) in
        (
          record { wallet_events = event ∷ []; updated_displayed_transactions = [] },
          persist_event m account event db₁,
        )
  ]
]

unfoldable pub rebroadcast_completed_transactions :
    Network → MonitorConfig → ℕ → List CompletedTransaction → Db → MonitoringResult × Db
rebroadcast_completed_transactions net m account [] db = (empty_result, db)
rebroadcast_completed_transactions net m account (t ∷ ts) db =
    let (r, db₁) = rebroadcast_one net m account t db in
    let (s, db₂) = rebroadcast_completed_transactions net m account ts db₁ in
    (extend_result r s, db₂)

unfoldable pub check_broadcast_for_mining :
    Network → MonitorConfig → ℕ → List CompletedTransaction → Db → Result (List WalletEvent) × Db
check_broadcast_for_mining net m account [] db = (ok [], db)
check_broadcast_for_mining net m account (t ∷ ts) db = elim (find_kernel_on_chain net t) [
  | err e ↦ (err e, db)
  | ok found ↦ elim found [
    | none ↦ check_broadcast_for_mining net m account ts db
    | some (height, hash) ↦
        let db₁ = mark_completed_transaction_as_mined_unconfirmed t.id height hash m.now db in
        let event = tx_event account (transaction_unconfirmed t.id height 0) in
        let (r, db₂) =
          check_broadcast_for_mining net m account ts (persist_event m account event db₁) in
        (r >>= λ events. ok (event ∷ events), db₂)
  ]
]

-- the payment reference of a confirmed transaction
unfoldable pub sent_payref_of : MonitorConfig → CompletedTransaction → Result ℕ
sent_payref_of m t = do
  block ← or_fail t.mined_block_hash missing_field
  output ← or_fail t.sent_output_hash missing_field
  ok (m.ext.generate_payment_reference block output)

-- one transaction that is deep enough, by a known payment reference
unfoldable pub confirm_one :
    MonitorConfig → ℕ → ℕ → ℕ → CompletedTransaction → ℕ → Db → WalletEvent × Db
confirm_one m account current_height mined_height t payref db =
    let db₁ = mark_completed_transaction_as_confirmed t.id current_height payref m.now db in
    let event = tx_event account (transaction_confirmed t.id mined_height current_height) in
    (event, persist_event m account event db₁)

unfoldable pub check_confirmation_status :
    MonitorConfig → ℕ → ℕ → List CompletedTransaction → Db → Result (List WalletEvent) × Db
unfolding confirm_one
check_confirmation_status m account current_height [] db = (ok [], db)
check_confirmation_status m account current_height (t ∷ ts) db = elim t.mined_height [
  | none ↦ check_confirmation_status m account current_height ts db
  | some mined_height ↦ elim (leb m.required_confirmations (current_height - mined_height)) [
    | false ↦ check_confirmation_status m account current_height ts db
    | true ↦ elim (sent_payref_of m t) [
      | err e ↦ (err e, db)
      | ok payref ↦
          let (event, db₁) = confirm_one m account current_height mined_height t payref db in
          let (r, db₂) = check_confirmation_status m account current_height ts db₁ in
          (r >>= λ events. ok (event ∷ events), db₂)
    ]
  ]
]
