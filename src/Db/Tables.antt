-- ===== src/Db/Tables.antt =====
-- The rows of the wallet's SQLite tables and the database they stand in (minotari/migrations). A
-- table lists its rows by ascending id, and keeps the id that AUTOINCREMENT gives next. Columns
-- hold heights, values and times below 2^63, where the source's casts to i64 change nothing.
use minotari_cli.Base.{Bool, List, Option, String, ℕ}
use minotari_cli.Models.{
  BalanceChange, DisplayedTransaction, RejectReason, TransactionDirection, TransactionDisplayStatus,
  TransactionSource, WalletEventType,
}
use minotari_cli.Models.CompletedTransactionStatus.{CompletedTransactionStatus}
use minotari_cli.Models.OutputStatus.{OutputStatus}
use minotari_cli.Models.PendingTransactionStatus.{PendingTransactionStatus}

-- What the wallet reads off a `WalletOutput` of tari_transaction_components: `value()`,
-- `output_hash()`, `features().is_coinbase()`, `is_burned()`, and of its `payment_id()` the memo
-- bytes (whether there are any, as text, and as hex), fee, amount and addresses.
pub record WalletOutput : Type 0 where
  pub value : ℕ
  pub output_hash : ℕ
  pub is_coinbase : Bool
  pub is_burned : Bool
  pub memo_is_empty : Bool
  pub memo_text : ℕ
  pub memo_hex : ℕ
  pub fee : Option ℕ
  pub amount : Option ℕ
  pub recipient : Option ℕ
  pub sender : Option ℕ

pub record OutputRow : Type 0 where
  pub id : ℕ
  pub account_id : ℕ
  pub tx_id : ℕ
  pub output_hash : ℕ
  pub mined_in_block_hash : ℕ
  pub mined_in_block_height : ℕ
  pub value : ℕ
  pub wallet_output : WalletOutput
  pub mined_timestamp : ℕ
  pub confirmed_height : Option ℕ
  pub confirmed_hash : Option ℕ
  pub memo_parsed : Option ℕ
  pub memo_hex : Option ℕ
  pub status : OutputStatus
  pub locked_at : Option ℕ
  pub locked_by_request_id : Option ℕ
  pub deleted_at : Option ℕ
  pub deleted_in_block_height : Option ℕ
  pub payment_reference : Option ℕ
  pub is_burn : Bool

-- `DbInput`
pub record InputRow : Type 0 where
  pub id : ℕ
  pub account_id : ℕ
  pub output_id : ℕ
  pub mined_in_block_hash : ℕ
  pub mined_in_block_height : ℕ
  pub mined_timestamp : ℕ
  pub deleted_at : Option ℕ
  pub deleted_in_block_height : Option ℕ

pub record BalanceChangeRow : Type 0 where
  pub id : ℕ
  pub change : BalanceChange
  pub open change use *

-- `PendingTransaction`, with its idempotency key
pub record PendingTransactionRow : Type 0 where
  pub id : ℕ
  pub account_id : ℕ
  pub idempotency_key : ℕ
  pub status : PendingTransactionStatus
  pub requires_change_output : Bool
  pub total_value : ℕ
  pub fee_without_change : ℕ
  pub fee_with_change : ℕ
  pub expires_at : ℕ

-- `CompletedTransaction`
pub record CompletedTransaction : Type 0 where
  pub id : ℕ
  pub account_id : ℕ
  pub pending_tx_id : ℕ
  pub status : CompletedTransactionStatus
  pub last_rejected_reason : Option RejectReason
  pub kernel_excess : ℕ
  pub sent_payref : Option ℕ
  pub sent_output_hash : Option ℕ
  pub mined_height : Option ℕ
  pub mined_block_hash : Option ℕ
  pub confirmation_height : Option ℕ
  pub broadcast_attempts : ℕ
  pub serialized_transaction : ℕ
  pub created_at : ℕ
  pub updated_at : ℕ

-- `ScannedTipBlock`
pub record ScannedTipBlock : Type 0 where
  pub id : ℕ
  pub account_id : ℕ
  pub height : ℕ
  pub hash : ℕ

pub record EventRow : Type 0 where
  pub id : ℕ
  pub account_id : ℕ
  pub event_type : WalletEventType

-- A displayed transaction with the columns that repeat parts of it.
pub record DisplayedRow : Type 0 where
  pub id : ℕ
  pub account_id : ℕ
  pub direction : TransactionDirection
  pub source : TransactionSource
  pub status : TransactionDisplayStatus
  pub amount : ℕ
  pub block_height : ℕ
  pub timestamp : ℕ
  pub transaction : DisplayedTransaction
  pub payref : Option (List ℕ)

pub record PayrefHistoryRow : Type 0 where
  pub id : ℕ
  pub account_id : ℕ
  pub transaction_id : ℕ
  pub old_payref : ℕ
  pub output_hash : Option ℕ

-- The snapshot of the balance that a webhook carries, and a row of the webhook queue.
pub record WebhookBalanceSnapshot : Type 0 where
  pub available : ℕ
  pub pending_incoming : ℕ
  pub pending_outgoing : ℕ

pub record WebhookRow : Type 0 where
  pub id : ℕ
  pub event_id : Option ℕ
  pub event_type : WalletEventType
  pub balance : WebhookBalanceSnapshot
  pub target_url : String

pub record Db : Type 0 where
  pub outputs : List OutputRow
  pub next_output_id : ℕ
  pub inputs : List InputRow
  pub next_input_id : ℕ
  pub balance_changes : List BalanceChangeRow
  pub next_balance_change_id : ℕ
  pub pending_transactions : List PendingTransactionRow
  pub completed_transactions : List CompletedTransaction
  pub scanned_tip_blocks : List ScannedTipBlock
  pub next_tip_block_id : ℕ
  pub events : List EventRow
  pub next_event_id : ℕ
  pub displayed_transactions : List DisplayedRow
  pub payref_history : List PayrefHistoryRow
  pub next_payref_id : ℕ
  pub webhook_queue : List WebhookRow
  pub next_webhook_id : ℕ
