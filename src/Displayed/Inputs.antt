-- ===== src/Displayed/Inputs.antt =====
-- displayed_transaction_processor/processor.rs: the inputs of the payments with change
-- (search_inputs, handle_unmatched_inputs_outputs).
use minotari_cli.Base.{
  List, Option, Result, [], err, false, if◌then◌else◌, ltb, map, missing_field, none, ok, or_fail,
  order_desc, overflow, some, suc, sum, true, u64_limit, zero, ℕ, ◌++◌, ◌+◌, ◌==◌, ◌>>=◌, ◌∷◌,
}
use minotari_cli.Db.Tables.{WalletOutput}
use minotari_cli.Displayed.Subset.{get, solve_back_track}
use minotari_cli.Displayed.Transactions.{
  Credit, Debit, DisplayedTransactionProcessor, displayed_input, spent_transaction,
  transfer_transaction,
}
use minotari_cli.Ledger.Totals.{credits, received}
use minotari_cli.Models.{DisplayedTransaction}
use minotari_cli.Scan.Blocks.{BlockEventAccumulator, SpentInput}

-- one transaction for each, in order; the first error ends the loop
abbrev pub build_each {ℓ} :
    {A : Type ℓ} → (A → Result DisplayedTransaction) → List A → Result (List DisplayedTransaction)
build_each f [] = ok []
build_each f (x ∷ xs) = f x >>= λ t. build_each f xs >>= λ ts. ok (t ∷ ts)

abbrev fee_or_zero : Option ℕ → ℕ
fee_or_zero none = 0
fee_or_zero (some n) = n

-- what the inputs of a payment with change have to add up to
abbrev pub total_send : ℕ → WalletOutput → ℕ
total_send amount o = amount + o.value + fee_or_zero o.fee

-- the total of an output's payment, nothing without one
abbrev pub payment_total : DisplayedTransactionProcessor → Credit → ℕ
payment_total p c = elim (p.get_transaction_info_details c.1.output) [
  | none ↦ 0
  | some (_, amount) ↦ total_send amount c.1.output
]

-- The additions of the first loop, which are checked: if a total does not fit 64 bits, the loop panics.
unfoldable pub totals_fit : DisplayedTransactionProcessor → List Credit → Result (Unit {0})
totals_fit p [] = ok tt
totals_fit p (c ∷ outputs) =
    let rest = totals_fit p outputs in
    if ltb (payment_total p c) u64_limit then rest else err overflow

-- the targets, with the index of their output, and the indices of the other outputs
unfoldable pub targets_of : DisplayedTransactionProcessor → ℕ → List Credit → List (ℕ × ℕ) × List ℕ
targets_of p i [] = ([], [])
targets_of p i ((_, o) ∷ outputs) =
    let (targets, unmatched) = targets_of p (i + 1) outputs in
    elim (p.get_transaction_info_details o.output) [
      | none ↦ (targets, i ∷ unmatched)
      | some (_, amount) ↦ ((total_send amount o.output, i) ∷ targets, unmatched)
    ]

-- `inputs.get(index)` for the indices of a solution; out of bounds is an error
unfoldable pub inputs_at : List Debit → List ℕ → Result (List SpentInput)
inputs_at inputs [] = ok []
inputs_at inputs (i ∷ is) = do
  found ← or_fail (get i inputs) missing_field
  rest ← inputs_at inputs is
  ok (found.1 ∷ rest)

abbrev pub sum_of_values : List SpentInput → ℕ
sum_of_values is = sum (λ i. i.output.value) is

-- What the loop over the solutions gathers: the transactions, the outputs without inputs, and the
-- indices of the inputs that were used.
pub record Solved : Type 0 where
  pub transactions : List DisplayedTransaction
  pub unmatched : List ℕ
  pub used : List ℕ

abbrev pub add_solution : List ℕ → DisplayedTransaction → Solved → Solved
add_solution solution t s = record s {
  transactions = t ∷ s.transactions;
  used = solution ++ s.used;
}

-- A total that is added up here a second time fits, as it did in the first loop; the values of the
-- inputs are part of the supply.
unfoldable pub solved_each :
    DisplayedTransactionProcessor
    → BlockEventAccumulator
    → List Debit
    → List Credit
    → List (ℕ × List ℕ)
    → Result Solved
solved_each p acc inputs outputs [] = ok (record { transactions = []; unmatched = []; used = [] })
solved_each p acc inputs outputs ((output_index, solution) ∷ solutions) = do
  found ← inputs_at inputs solution
  credit ← or_fail (get output_index outputs) missing_field
  details ← or_fail (p.get_transaction_info_details credit.1.output) missing_field
  let balance = sum_of_values found
  elim (total_send details.1 credit.1.output == balance) [
    | false ↦ do
      s ← solved_each p acc inputs outputs solutions
      ok (record s { unmatched = output_index ∷ s.unmatched })
    | true ↦ do
      t ← transfer_transaction p acc (map displayed_input found) balance credit
      s ← solved_each p acc inputs outputs solutions
      ok (add_solution solution t s)
  ]

-- `inputs.remove(index)`
abbrev pub remove_at {ℓ} : {A : Type ℓ} → ℕ → List A → List A
remove_at i [] = []
remove_at zero (x ∷ xs) = xs
remove_at (suc i) (x ∷ xs) = x ∷ remove_at i xs

-- the used indices in turn, the greatest first
abbrev pub remove_each {ℓ} : {A : Type ℓ} → List ℕ → List A → List A
remove_each [] xs = xs
remove_each (i ∷ is) xs = remove_each is (remove_at i xs)

unfoldable pub credits_at : List Credit → List ℕ → Result (List Credit)
credits_at outputs [] = ok []
credits_at outputs (i ∷ is) = do
  found ← or_fail (get i outputs) missing_field
  rest ← credits_at outputs is
  ok (found ∷ rest)

unfoldable pub handle_unmatched_inputs_outputs :
    DisplayedTransactionProcessor
    → BlockEventAccumulator
    → List Debit
    → List Credit
    → List ℕ
    → Result (List DisplayedTransaction)
handle_unmatched_inputs_outputs p acc inputs outputs unmatched = do
  credits ← credits_at outputs unmatched
  received ← build_each (transfer_transaction p acc [] 0) credits
  spent ← build_each (spent_transaction p acc) inputs
  ok (received ++ spent)

unfoldable pub search_inputs :
    DisplayedTransactionProcessor
    → BlockEventAccumulator
    → List Debit
    → List Credit
    → Result (List DisplayedTransaction)
search_inputs p acc inputs outputs = do
  _ ← totals_fit p outputs
  let found = targets_of p 0 outputs
  let solutions = solve_back_track (map (λ i. i.1.output.value) inputs) found.0
  s ← solved_each p acc inputs outputs solutions
  let left = remove_each (order_desc (λ i. i) s.used) inputs
  rest ← handle_unmatched_inputs_outputs p acc left outputs (found.1 ++ s.unmatched)
  ok (s.transactions ++ rest)
