-- ===== src/Scan/Reorg.antt =====
-- scan/reorg.rs: the search for the fork point, and the rollback to it. The node is the function
-- `header`: the hash of its block at a height, `none` where it has no such block. The set of
-- cancelled ids is listed in the order of its last members.
use minotari_cli.Base.{
  Bool, List, Option, Result, [], false, if◌then◌else◌, is_value, leb, length, map, none, ok,
  select, some, true, ℕ, ◌++◌, ◌+◌, ◌>>=◌, ◌∷◌,
}
use minotari_cli.Db.CompletedTransactions.{reset_mined_completed_transactions_from_height}
use minotari_cli.Db.DisplayedTransactions.{mark_displayed_transactions_reorganized_and_return}
use minotari_cli.Db.Events.{insert_wallet_event}
use minotari_cli.Db.Inputs.{soft_delete_inputs_from_height}
use minotari_cli.Db.Outputs.{get_active_outputs_from_height, soft_delete_outputs_from_height}
use minotari_cli.Db.PayrefHistory.{
  save_completed_transaction_payrefs_before_reorg, save_displayed_transaction_payrefs_before_reorg,
}
use minotari_cli.Db.PendingTransactions.{cancel_pending_transactions_by_ids, member}
use minotari_cli.Db.ScannedTipBlocks.{
  delete_scanned_tip_blocks_from_height, get_scanned_tip_blocks_by_account,
}
use minotari_cli.Db.Tables.{Db, OutputRow, ScannedTipBlock}
use minotari_cli.Db.Webhooks.{WebhookTriggerConfig, trigger_all}
use minotari_cli.Models.{
  DisplayedTransaction, WalletEvent, WalletEventType, block_rolled_back, output_rolled_back,
  pending_transaction_cancelled,
}
use minotari_cli.Models.PendingTransactionStatus.{PendingTransactionStatus}

pub record ReorgInformation : Type 0 where
  pub rolled_back_from_height : ℕ
  pub rolled_back_blocks_count : ℕ
  pub invalidated_output_hashes : List ℕ
  pub cancelled_transaction_ids : List ℕ
  pub reorganized_displayed_transactions : List DisplayedTransaction

pub record ReorgResult : Type 0 where
  pub resume_height : ℕ
  pub reorg_information : Option ReorgInformation

-- The loop over the stored blocks: the height after the first block that the node agrees with, 0
-- where there is none, and whether it disagreed with a block.
unfoldable pub scan_tips : (ℕ → Result (Option ℕ)) → List ScannedTipBlock → Bool → Result (ℕ × Bool)
scan_tips header [] detected = ok (0, detected)
scan_tips header (b ∷ bs) detected = header b.height >>= λ chain. elim (is_value chain b.hash) [
  | true ↦ ok (b.height + 1, detected)
  | false ↦ scan_tips header bs true
]

abbrev pub event_of : ℕ → WalletEventType → WalletEvent
event_of account t = record { id = 0; account_id = account; event_type = t }

-- the events that a loop of the rollback logs, with their ids
unfoldable pub log_events : ℕ → List WalletEventType → Db → List (ℕ × WalletEvent) × Db
log_events account [] db = ([], db)
log_events account (t ∷ ts) db =
    let (event_id, db') = insert_wallet_event account (event_of account t) db in
    let (events, db'') = log_events account ts db' in
    ((event_id, event_of account t) ∷ events, db'')

-- the requests that hold a lock on one of the outputs, each once
unfoldable pub lock_requests : List OutputRow → List ℕ
lock_requests [] = []
lock_requests (o ∷ os) =
    let rest = lock_requests os in
    elim o.locked_by_request_id [ none ↦ rest | some r ↦ if member r rest then rest else r ∷ rest ]

abbrev pub block_event : ScannedTipBlock → WalletEventType
block_event b = block_rolled_back b.height b.hash

abbrev pub output_event : ℕ → OutputRow → WalletEventType
output_event height o = output_rolled_back o.output_hash o.mined_in_block_height height

-- the cancelled requests' events, logged after the requests are cancelled
unfoldable pub cancel_requests : ℕ → List ℕ → Db → List (ℕ × WalletEvent) × Db
unfolding log_events
cancel_requests account [] db = ([], db)
cancel_requests account (r ∷ rs) db =
    log_events account (map pending_transaction_cancelled (r ∷ rs))
      (cancel_pending_transactions_by_ids (r ∷ rs) PendingTransactionStatus.cancelled db)

unfoldable pub rollback_from_height :
    ℕ → ℕ → ℕ → Option WebhookTriggerConfig → Db → ReorgInformation × Db
unfolding lock_requests cancel_requests log_events
rollback_from_height now account height webhook db =
    let blocks = select (λ b. leb height b.height) (get_scanned_tip_blocks_by_account account db) in
    let (block_events, db₁) = log_events account (map block_event blocks) db in
    let affected = get_active_outputs_from_height account height db₁ in
    let (output_events, db₂) = log_events account (map (output_event height) affected) db₁ in
    let cancelled_ids = lock_requests affected in
    let (cancel_events, db₃) = cancel_requests account cancelled_ids db₂ in
    let db₄ = soft_delete_inputs_from_height account height now db₃ in
    let db₅ = soft_delete_outputs_from_height account height now db₄ in
    let db₆ = delete_scanned_tip_blocks_from_height account height db₅ in
    let (_, db₇) = save_displayed_transaction_payrefs_before_reorg account height db₆ in
    let (displayed, db₈) = mark_displayed_transactions_reorganized_and_return account height db₇ in
    let (_, db₉) = save_completed_transaction_payrefs_before_reorg account height db₈ in
    let (_, db₁₀) = reset_mined_completed_transactions_from_height account height now db₉ in
    let db₁₁ = trigger_all account webhook (block_events ++ output_events ++ cancel_events) db₁₀ in
    (
      record {
        rolled_back_from_height = height;
        rolled_back_blocks_count = length blocks;
        invalidated_output_hashes = map (λ o. o.output_hash) affected;
        cancelled_transaction_ids = cancelled_ids;
        reorganized_displayed_transactions = displayed;
      },
      db₁₁,
    )

-- what the result of the search leads to; `top` is the height of the newest stored block
unfoldable pub settle : ℕ → ℕ → ℕ → Option WebhookTriggerConfig → ℕ × Bool → Db → ReorgResult × Db
settle now account top webhook (start, true) db =
    let (info, db') = rollback_from_height now account start webhook db in
    (record { resume_height = start; reorg_information = some info }, db')
settle now account top webhook (start, false) db =
    (record { resume_height = top + 1; reorg_information = none }, db)

unfoldable pub handle_reorgs :
    (ℕ → Result (Option ℕ)) → ℕ → ℕ → Option WebhookTriggerConfig → Db → Result (ReorgResult × Db)
unfolding scan_tips settle
handle_reorgs header now account webhook db = elim (get_scanned_tip_blocks_by_account account db) [
  | [] ↦ ok (record { resume_height = 0; reorg_information = none }, db)
  | top ∷ rest ↦ scan_tips header (top ∷ rest) false >>= λ found.
      ok (settle now account top.height webhook found db)
]
