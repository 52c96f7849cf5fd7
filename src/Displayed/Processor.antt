-- ===== src/Displayed/Processor.antt =====
-- displayed_transaction_processor/processor.rs: the balance changes of a block as displayed
-- transactions, those to update and those that are new.
use minotari_cli.Base.{
  Bool, List, Option, Result, [], any, delete_where, false, if◌then◌else◌, is_none, map,
  missing_field, not, ok, or_fail, order_asc, select, true, ℕ, ◌++◌, ◌==◌, ◌>>=◌, ◌∷◌,
}
use minotari_cli.Db.BalanceChanges.{get_all_active_balance_changes_by_account_id}
use minotari_cli.Db.DisplayedTransactions.{
  get_displayed_transactions_by_status, get_displayed_transactions_from_height,
}
use minotari_cli.Db.Inputs.{get_input_by_id}
use minotari_cli.Db.Outputs.{get_output_by_id}
use minotari_cli.Db.Tables.{BalanceChangeRow, Db}
use minotari_cli.Displayed.Inputs.{build_each, search_inputs}
use minotari_cli.Displayed.Matching.{match_inputs, match_outputs}
use minotari_cli.Displayed.Transactions.{
  Credit, Debit, DisplayedTransactionProcessor, coinbase_transaction, transfer_transaction,
}
use minotari_cli.Ledger.Totals.{received}
use minotari_cli.Models.{BalanceChange, DisplayedTransaction, TransactionDisplayStatus, is_debit}
use minotari_cli.Scan.Blocks.{
  BlockEventAccumulator, add_credit_change, add_debit_change, new_accumulator,
}

abbrev pub is_coinbase : Credit → Bool
is_coinbase c = c.1.output.is_coinbase

-- not change: the output says nothing of a transaction of the wallet's own
abbrev pub is_received : DisplayedTransactionProcessor → Credit → Bool
is_received p c = is_none (p.get_transaction_info_details c.1.output)

abbrev pub reversed {ℓ} : {A : Type ℓ} → List A → List A
reversed [] = []
reversed (x ∷ xs) = reversed xs ++ x ∷ []

-- the credits of one kind, taken out from the last to the first
abbrev pub taken_out : (Credit → Bool) → List Credit → List Credit
taken_out q cs = reversed (select q cs)

-- the transactions that are new
unfoldable pub new_transactions :
    DisplayedTransactionProcessor
    → BlockEventAccumulator
    → List Debit
    → List Credit
    → Result (List DisplayedTransaction)
new_transactions p acc new_debit new_credit = do
  coinbases ← build_each (coinbase_transaction p acc) (taken_out is_coinbase new_credit)
  let others = delete_where is_coinbase new_credit
  received ← build_each (transfer_transaction p acc [] 0) (taken_out (is_received p) others)
  let change = delete_where (is_received p) others
  searched ← search_inputs p acc new_debit change
  ok (coinbases ++ received ++ searched)

unfoldable pub create_new_updated_display_transactions :
    DisplayedTransactionProcessor
    → BlockEventAccumulator
    → List DisplayedTransaction
    → Result (List DisplayedTransaction × List DisplayedTransaction)
create_new_updated_display_transactions p acc current =
    let (updated, new_credit) = match_outputs p current acc.credit_balance_changes [] in
    let (updated', new_debit) = match_inputs p current acc.debit_balance_changes updated in
    let sorted = order_asc (λ d. d.1.output.value) new_debit in
    new_transactions p acc sorted new_credit >>= λ new. ok (map (λ e. e.1) updated', new)

-- the stored transactions that a block may update: those from its height on, and the pending ones
unfoldable pub create_new_updated_display_transactions_for_height :
    DisplayedTransactionProcessor
    → BlockEventAccumulator
    → Db
    → Result (List DisplayedTransaction × List DisplayedTransaction)
create_new_updated_display_transactions_for_height p acc db =
    let current = get_displayed_transactions_from_height acc.account_id acc.height db in
    let pending =
      get_displayed_transactions_by_status acc.account_id TransactionDisplayStatus.pending db in
    create_new_updated_display_transactions p acc
      (current ++ select (λ t. not (any (λ c. c.id == t.id) current)) pending)

-- `?` on a row that is looked up by an id that may be missing
abbrev row_by {ℓ} : {A : Type ℓ} → (ℕ → Option A) → Option ℕ → Result A
row_by look id = or_fail id missing_field >>= λ i. or_fail (look i) missing_field

-- a stored balance change as the accumulator takes it; the input's own id stands for its output's
unfoldable pub add_stored :
    Db → BalanceChange → BlockEventAccumulator → Result BlockEventAccumulator
add_stored db change acc = elim (is_debit change) [
  | true ↦ do
    input ← row_by (λ i. get_input_by_id i db) change.caused_by_input_id
    output ← or_fail (get_output_by_id input.output_id db) missing_field
    ok (
        add_debit_change change
          (record {
            output_id = input.id;
            mined_in_block = input.mined_in_block_hash;
            mined_in_block_height = input.mined_in_block_height;
            output = output.wallet_output;
          })
          acc)
  | false ↦ do
    output ← row_by (λ i. get_output_by_id i db) change.caused_by_output_id
    ok (
        add_credit_change change
          (record {
            height = output.mined_in_block_height;
            mined_in_block_hash = output.mined_in_block_hash;
            output = output.wallet_output;
          })
          acc)
]

unfoldable pub add_all_stored :
    Db → List BalanceChangeRow → BlockEventAccumulator → Result BlockEventAccumulator
add_all_stored db [] acc = ok acc
add_all_stored db (c ∷ cs) acc = add_stored db c.change acc >>= λ acc'. add_all_stored db cs acc'

-- the heights of the changes, each once; the changes come by ascending height
abbrev pub heights_of : List BalanceChangeRow → List ℕ
heights_of [] = []
heights_of (c ∷ cs) =
    let rest = heights_of cs in
    if any (λ h. h == c.effective_height) rest then rest else c.effective_height ∷ rest

unfoldable pub process_heights :
    DisplayedTransactionProcessor
    → ℕ
    → Db
    → List BalanceChangeRow
    → List ℕ
    → Result (List DisplayedTransaction × List DisplayedTransaction)
process_heights p account db changes [] = ok ([], [])
process_heights p account db changes (h ∷ heights) = do
  acc ←
      add_all_stored db (select (λ c. c.effective_height == h) changes)
        (new_accumulator account h 0)
  one ← create_new_updated_display_transactions_for_height p acc db
  rest ← process_heights p account db changes heights
  ok (one.0 ++ rest.0, one.1 ++ rest.1)

-- the source goes through the heights in no certain order; here it is the ascending one
unfoldable pub process_all_stored_with_conn :
    DisplayedTransactionProcessor
    → ℕ
    → Db
    → Result (List DisplayedTransaction × List DisplayedTransaction)
process_all_stored_with_conn p account db =
    let changes = get_all_active_balance_changes_by_account_id account db in
    process_heights p account db changes (heights_of changes)
