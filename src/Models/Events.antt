-- ===== src/Models/Events.antt =====
-- Wallet events and balance changes (models/mod.rs). A hash, an address, a memo and a timestamp
-- are only stored and compared: they are numbers here.
use minotari_cli.Base.{Bool, Option, String, ltb, ℕ}

-- Why a completed transaction was rejected: the texts that transactions/monitor.rs formats.
pub data RejectReason : Type 0 where
  exceeded_attempts : RejectReason
  deserialization_failed : RejectReason
  broadcast_failed : RejectReason
  rejected_by_node : ℕ → RejectReason

-- `WalletEventType`; the fields stand in the source's order.
pub data WalletEventType : Type 0 where
  block_rolled_back : ℕ → ℕ → WalletEventType
  output_detected : ℕ → ℕ → ℕ → Option ℕ → Option ℕ → WalletEventType
  output_confirmed : ℕ → ℕ → ℕ → Option ℕ → Option ℕ → WalletEventType
  output_rolled_back : ℕ → ℕ → ℕ → WalletEventType
  pending_transaction_cancelled : ℕ → WalletEventType
  transaction_broadcast : ℕ → ℕ → WalletEventType
  transaction_unconfirmed : ℕ → ℕ → ℕ → WalletEventType
  transaction_confirmed : ℕ → ℕ → ℕ → WalletEventType
  transaction_rejected : ℕ → RejectReason → WalletEventType
  transaction_reorged : ℕ → ℕ → WalletEventType

-- `to_key_string`
unfoldable pub to_key_string : WalletEventType → String
to_key_string (block_rolled_back _ _) = "BlockRolledBack"
to_key_string (output_detected _ _ _ _ _) = "OutputDetected"
to_key_string (output_confirmed _ _ _ _ _) = "OutputConfirmed"
to_key_string (output_rolled_back _ _ _) = "OutputRolledBack"
to_key_string (pending_transaction_cancelled _) = "PendingTransactionCancelled"
to_key_string (transaction_broadcast _ _) = "TransactionBroadcast"
to_key_string (transaction_unconfirmed _ _ _) = "TransactionUnconfirmed"
to_key_string (transaction_confirmed _ _ _) = "TransactionConfirmed"
to_key_string (transaction_rejected _ _) = "TransactionRejected"
to_key_string (transaction_reorged _ _) = "TransactionReorged"

-- `WalletEvent`; the description is a rendering of the event type.
pub record WalletEvent : Type 0 where
  pub id : ℕ
  pub account_id : ℕ
  pub event_type : WalletEventType

-- The descriptions that the source formats for a balance change.
pub data Description : Type 0 where
  coinbase_found : Description
  output_found : Description
  output_spent : Description
  output_reversal : ℕ → Description
  input_reversal : ℕ → Description

-- `BalanceChange`
pub record BalanceChange : Type 0 where
  pub account_id : ℕ
  pub caused_by_output_id : Option ℕ
  pub caused_by_input_id : Option ℕ
  pub description : Description
  pub balance_credit : ℕ
  pub balance_debit : ℕ
  pub effective_date : ℕ
  pub effective_height : ℕ
  pub claimed_recipient_address : Option ℕ
  pub claimed_sender_address : Option ℕ
  pub memo_parsed : Option ℕ
  pub memo_hex : Option ℕ
  pub claimed_fee : Option ℕ
  pub claimed_amount : Option ℕ
  pub is_reversal : Bool
  pub reversal_of_balance_change_id : Option ℕ
  pub is_reversed : Bool

unfoldable is_credit : BalanceChange → Bool
is_credit c = ltb 0 c.balance_credit

unfoldable pub is_debit : BalanceChange → Bool
is_debit c = ltb 0 c.balance_debit
