-- ===== src/Models/Displayed.antt =====
-- Displayed transactions (transactions/displayed_transaction_processor/types.rs): what the user
-- sees of a transaction.
use minotari_cli.Base.{Bool, List, Option, ℕ}
use minotari_cli.Models.OutputStatus.{OutputStatus}

pub data TransactionDirection : Type 0 where
  incoming outgoing : TransactionDirection

pub data TransactionSource : Type 0 where
  transfer coinbase one_sided unknown : TransactionSource

pub data TransactionDisplayStatus : Type 0 where
  pending unconfirmed confirmed cancelled reorganized rejected : TransactionDisplayStatus

pub record BlockchainInfo : Type 0 where
  pub block_height : ℕ
  pub timestamp : ℕ
  pub confirmations : ℕ
  pub block_hash : ℕ

pub record TransactionInput : Type 0 where
  pub output_hash : ℕ
  pub amount : ℕ
  pub matched_output_id : ℕ
  pub mined_in_block_hash : ℕ

pub record TransactionOutput : Type 0 where
  pub hash : ℕ
  pub amount : ℕ
  pub status : OutputStatus
  pub mined_in_block_height : ℕ
  pub mined_in_block_hash : ℕ
  pub output_type : ℕ
  pub is_change : Bool

pub record TransactionDetails : Type 0 where
  pub account_id : ℕ
  pub total_credit : ℕ
  pub total_debit : ℕ
  pub inputs : List TransactionInput
  pub outputs : List TransactionOutput
  pub output_type : Option ℕ
  pub coinbase_extra : Option ℕ
  pub memo_hex : Option ℕ
  pub sent_output_hashes : List ℕ
  pub sent_payrefs : List ℕ

pub record DisplayedTransaction : Type 0 where
  pub id : ℕ
  pub direction : TransactionDirection
  pub source : TransactionSource
  pub status : TransactionDisplayStatus
  pub amount : ℕ
  pub message : Option ℕ
  pub counterparty : Option ℕ
  pub blockchain : BlockchainInfo
  pub fee : Option ℕ
  pub details : TransactionDetails
