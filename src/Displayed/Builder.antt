-- ===== src/Displayed/Builder.antt =====
-- displayed_transaction_processor/builder.rs: the setters with a rule of their own, and `build`. The
-- other setters assign the field of their name.
use minotari_cli.Base.{
  List, Option, Result, [], if◌then◌else◌, ltb, map, missing_field, none, ok, or_fail, some, ℕ, ◌-◌,
  ◌>>=◌,
}
use minotari_cli.Db.Outputs.{External}
use minotari_cli.Models.{
  DisplayedTransaction, TransactionDirection, TransactionDisplayStatus, TransactionInput,
  TransactionOutput, TransactionSource,
}

pub record DisplayedTransactionBuilder : Type 0 where
  pub account_id : Option ℕ
  pub direction : Option TransactionDirection
  pub source : Option TransactionSource
  pub status : Option TransactionDisplayStatus
  pub amount : Option ℕ
  pub message : Option ℕ
  pub counterparty_address : Option ℕ
  pub block_height : Option ℕ
  pub block_hash : Option ℕ
  pub timestamp : Option ℕ
  pub confirmations : Option ℕ
  pub fee : Option ℕ
  pub total_credit : ℕ
  pub total_debit : ℕ
  pub inputs : List TransactionInput
  pub outputs : List TransactionOutput
  pub output_type : Option ℕ
  pub coinbase_extra : Option ℕ
  pub memo_hex : Option ℕ
  pub sent_output_hashes : List ℕ

abbrev pub new_builder : DisplayedTransactionBuilder
new_builder = record {
  account_id = none;
  direction = none;
  source = none;
  status = none;
  amount = none;
  message = none;
  counterparty_address = none;
  block_height = none;
  block_hash = none;
  timestamp = none;
  confirmations = none;
  fee = none;
  total_credit = 0;
  total_debit = 0;
  inputs = [];
  outputs = [];
  output_type = none;
  coinbase_extra = none;
  memo_hex = none;
  sent_output_hashes = [];
}

unfoldable pub credits_and_debits :
    ℕ → ℕ → DisplayedTransactionBuilder → DisplayedTransactionBuilder
credits_and_debits credit debit b = record b {
  total_credit = credit;
  total_debit = debit;
  amount = some (if ltb 0 debit then debit - credit else credit);
  direction =
      some (if ltb 0 debit then TransactionDirection.outgoing else TransactionDirection.incoming);
}

unfoldable pub blockchain_info :
    ℕ → ℕ → ℕ → ℕ → DisplayedTransactionBuilder → DisplayedTransactionBuilder
blockchain_info height hash timestamp confirmations b = record b {
  block_height = some height;
  timestamp = some timestamp;
  confirmations = some confirmations;
  block_hash = some hash;
}

abbrev or_default {ℓ} : {A : Type ℓ} → A → Option A → A
or_default a none = a
or_default a (some x) = x

-- an incoming transaction shows no fee
abbrev fee_info : TransactionDirection → Option ℕ → Option ℕ
fee_info TransactionDirection.outgoing fee = fee
fee_info TransactionDirection.incoming fee = none

abbrev payrefs_of : External → Option ℕ → List ℕ → List ℕ
payrefs_of ext none hashes = []
payrefs_of ext (some block_hash) hashes = map (ext.generate_payment_reference block_hash) hashes

unfoldable pub build : External → ℕ → DisplayedTransactionBuilder → Result DisplayedTransaction
build ext id b = do
  amount ← or_fail b.amount missing_field
  direction ← or_fail b.direction missing_field
  ok (record {
    id = id;
    direction = direction;
    source = or_default TransactionSource.unknown b.source;
    status = or_default TransactionDisplayStatus.pending b.status;
    amount = amount;
    message = b.message;
    counterparty = b.counterparty_address;
    blockchain = record {
      block_height = or_default 0 b.block_height;
      timestamp = or_default 0 b.timestamp;
      confirmations = or_default 0 b.confirmations;
      block_hash = or_default 0 b.block_hash;
    };
    fee = fee_info direction b.fee;
    details = record {
      account_id = or_default 0 b.account_id;
      total_credit = b.total_credit;
      total_debit = b.total_debit;
      inputs = b.inputs;
      outputs = b.outputs;
      output_type = b.output_type;
      coinbase_extra = b.coinbase_extra;
      memo_hex = b.memo_hex;
      sent_output_hashes = b.sent_output_hashes;
      sent_payrefs = payrefs_of ext b.block_hash b.sent_output_hashes;
    };
  })
