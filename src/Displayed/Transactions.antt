-- ===== src/Displayed/Transactions.antt =====
-- displayed_transaction_processor/processor.rs: the parameters of the processor, and the
-- displayed transactions that it builds.
use minotari_cli.Base.{List, Option, Result, [], false, if◌then◌else◌, leb, some, ℕ, ◌-◌, ◌∷◌}
use minotari_cli.Db.Outputs.{External}
use minotari_cli.Db.Tables.{WalletOutput}
use minotari_cli.Displayed.Builder.{
  DisplayedTransactionBuilder, blockchain_info, build, credits_and_debits, new_builder,
}
use minotari_cli.Models.{
  BalanceChange, DisplayedTransaction, TransactionDisplayStatus, TransactionInput,
  TransactionOutput, TransactionSource,
}
use minotari_cli.Models.OutputStatus.{OutputStatus}
use minotari_cli.Scan.BlockProcessor.{memo_from_output}
use minotari_cli.Scan.Blocks.{BlockEventAccumulator, DetectedOutput, SpentInput}

-- The fields of `DisplayedTransactionProcessor`, and what it asks of an output's `payment_id()`:
-- `get_transaction_info_details` (the address and the amount), `get_sent_hashes` (none as the empty
-- list), and the extra of a coinbase.
pub record DisplayedTransactionProcessor : Type 0 where
  pub current_tip_height : ℕ
  pub req_confirmations : ℕ
  pub view_key : ℕ
  pub ext : External
  pub get_transaction_info_details : WalletOutput → Option (ℕ × ℕ)
  pub get_sent_hashes : WalletOutput → List ℕ
  pub coinbase_extra : WalletOutput → ℕ

-- `OutputType`
abbrev pub standard_type : ℕ
standard_type = 0

abbrev pub coinbase_type : ℕ
coinbase_type = 1

abbrev pub Credit : Type 0
Credit = BalanceChange × DetectedOutput

abbrev pub Debit : Type 0
Debit = BalanceChange × SpentInput

unfoldable pub calculate_status_and_confirmations :
    DisplayedTransactionProcessor → ℕ → TransactionDisplayStatus × ℕ
calculate_status_and_confirmations p mined_height =
    let confirmations : ℕ = p.current_tip_height - mined_height in
    (
      if leb p.req_confirmations confirmations
          then TransactionDisplayStatus.confirmed
          else TransactionDisplayStatus.unconfirmed,
      confirmations,
    )

-- what the builders have in common: the account, the source, and the block
abbrev started :
    DisplayedTransactionProcessor
    → BlockEventAccumulator
    → TransactionSource
    → ℕ
    → ℕ
    → ℕ
    → DisplayedTransactionBuilder
started p acc source mined_height block_hash date =
    let (status, confirmations) = calculate_status_and_confirmations p mined_height in
    blockchain_info acc.height block_hash date confirmations (record new_builder {
      account_id = some acc.account_id;
      source = some source;
      status = some status;
    })

abbrev displayed_output : DetectedOutput → ℕ → TransactionOutput
displayed_output o output_type = record {
  hash = o.output.output_hash;
  amount = o.output.value;
  status = OutputStatus.unspent;
  mined_in_block_height = o.height;
  mined_in_block_hash = o.mined_in_block_hash;
  output_type = output_type;
  is_change = false;
}

abbrev pub displayed_input : SpentInput → TransactionInput
displayed_input i = record {
  output_hash = i.output.output_hash;
  amount = i.output.value;
  matched_output_id = i.output_id;
  mined_in_block_hash = i.mined_in_block;
}

abbrev id_of : DisplayedTransactionProcessor → WalletOutput → ℕ
id_of p o = p.ext.new_deterministic p.view_key o.output_hash

unfoldable pub coinbase_transaction :
    DisplayedTransactionProcessor → BlockEventAccumulator → Credit → Result DisplayedTransaction
coinbase_transaction p acc (change, o) =
    let memo = memo_from_output o.output in
    let b =
      started p acc TransactionSource.coinbase o.height o.mined_in_block_hash
        change.effective_date in
    build p.ext (id_of p o.output) (
      credits_and_debits change.balance_credit 0 (record b {
        outputs = displayed_output o coinbase_type ∷ [];
        message = memo.parsed;
        memo_hex = memo.hex;
        output_type = some coinbase_type;
        coinbase_extra = some (p.coinbase_extra o.output);
      }))

-- a transaction that pays to the wallet or gives it change, with the inputs that were found for it
unfoldable pub transfer_transaction :
    DisplayedTransactionProcessor
    → BlockEventAccumulator
    → List TransactionInput
    → ℕ
    → Credit
    → Result DisplayedTransaction
transfer_transaction p acc inputs debit (change, o) =
    let memo = memo_from_output o.output in
    let b =
      started p acc TransactionSource.transfer o.height o.mined_in_block_hash
        change.effective_date in
    build p.ext (id_of p o.output) (
      credits_and_debits change.balance_credit debit (record b {
        counterparty_address = o.output.sender;
        fee = o.output.fee;
        message = memo.parsed;
        memo_hex = memo.hex;
        inputs = inputs;
        outputs = displayed_output o standard_type ∷ [];
        output_type = some standard_type;
        sent_output_hashes = p.get_sent_hashes o.output;
      }))

-- an input without an output is shown as an outgoing transaction
unfoldable pub spent_transaction :
    DisplayedTransactionProcessor → BlockEventAccumulator → Debit → Result DisplayedTransaction
spent_transaction p acc (change, i) =
    let b =
      started p acc TransactionSource.transfer i.mined_in_block_height i.mined_in_block
        change.effective_date in
    build p.ext (id_of p i.output)
      (credits_and_debits 0 change.balance_debit (record b { inputs = displayed_input i ∷ [] }))
