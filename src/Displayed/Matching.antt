-- ===== src/Displayed/Matching.antt =====
-- displayed_transaction_processor/processor.rs: the balance changes of transactions that are
-- displayed already.
use minotari_cli.Base.{
  Bool, List, [], any, find, if◌then◌else◌, none, some, update_where, ℕ, ◌++◌, ◌==◌, ◌∷◌,
}
use minotari_cli.Displayed.Transactions.{
  Credit, Debit, DisplayedTransactionProcessor, calculate_status_and_confirmations,
}
use minotari_cli.Models.{DisplayedTransaction}

-- a transaction that has been mined at a height
abbrev pub mined_again :
    DisplayedTransactionProcessor → ℕ → ℕ → DisplayedTransaction → DisplayedTransaction
mined_again p height date t =
    let (status, confirmations) = calculate_status_and_confirmations p height in
    record t {
      blockchain = record (t.blockchain) {
        block_height = height;
        timestamp = date;
        confirmations = confirmations;
      };
      status = status;
    }

-- `HashMap::insert` by the transaction's id
abbrev pub insert_updated :
    ℕ → DisplayedTransaction → List (ℕ × DisplayedTransaction) → List (ℕ × DisplayedTransaction)
insert_updated id t m =
    if any (λ e. e.0 == id) m
    then update_where (λ e. e.0 == id) (λ e. (id, t)) m
    else m ++ (id, t) ∷ []

abbrev pub has_output : ℕ → DisplayedTransaction → Bool
has_output hash t = any (λ o. o.hash == hash) t.details.outputs

abbrev pub has_input : ℕ → DisplayedTransaction → Bool
has_input hash t = any (λ i. i.output_hash == hash) t.details.inputs

-- the loop over the credits: the transactions to update, and the credits that none of them has
unfoldable pub match_outputs :
    DisplayedTransactionProcessor
    → List DisplayedTransaction
    → List Credit
    → List (ℕ × DisplayedTransaction)
    → List (ℕ × DisplayedTransaction) × List Credit
match_outputs p current [] updated = (updated, [])
match_outputs p current ((change, o) ∷ more) updated =
    elim (find (has_output o.output.output_hash) current) [
      | some t ↦
          match_outputs p current more
            (insert_updated t.id (mined_again p o.height change.effective_date t) updated)
      | none ↦
          let (all_updated, left) = match_outputs p current more updated in
          (all_updated, (change, o) ∷ left)
    ]

unfoldable pub match_inputs :
    DisplayedTransactionProcessor
    → List DisplayedTransaction
    → List Debit
    → List (ℕ × DisplayedTransaction)
    → List (ℕ × DisplayedTransaction) × List Debit
match_inputs p current [] updated = (updated, [])
match_inputs p current ((change, i) ∷ more) updated =
    elim (find (has_input i.output.output_hash) current) [
      | some t ↦ match_inputs p current more (
          insert_updated t.id (mined_again p i.mined_in_block_height change.effective_date t)
            updated)
      | none ↦
          let (all_updated, left) = match_inputs p current more updated in
          (all_updated, (change, i) ∷ left)
    ]
