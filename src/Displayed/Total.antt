-- ===== src/Displayed/Total.antt =====
-- The steps of create_new_updated_display_transactions (displayed_transaction_processor/processor.rs),
-- and which of them may fail.
use minotari_cli.Base.{
  All, Bool, Bool-cases, List, Option-cases, Result, [], ap, arith, err, false, inl, inr, length,
  map, ok, refl, some, suc, true, zero, ℕ, ◌+◌, ◌<◌, ◌==◌, ◌>>=◌, ◌∙◌, ◌∷◌, ◌≡◌,
}
use minotari_cli.Displayed.Builder.{blockchain_info, build, credits_and_debits}
use minotari_cli.Displayed.Inputs.{
  Solved, add_solution, build_each, credits_at, handle_unmatched_inputs_outputs, inputs_at,
  solved_each, sum_of_values, targets_of, total_send,
}
use minotari_cli.Displayed.Subset.{get}
use minotari_cli.Displayed.Transactions.{
  Credit, Debit, DisplayedTransactionProcessor, coinbase_transaction, displayed_input,
  spent_transaction, transfer_transaction,
}
use minotari_cli.Models.{DisplayedTransaction, TransactionInput}
use minotari_cli.Scan.Blocks.{BlockEventAccumulator, SpentInput}

abbrev pub is_ok {ℓ} : {A : Type ℓ} → Result A → Bool
is_ok (ok _) = true
is_ok (err _) = false

pub is_ok->>= {ℓ κ} :
    {A : Type ℓ} {B : Type κ} (m : Result A) (f : A → Result B)
    → is_ok m ≡ true
    → ((a : A) → m ≡ ok a → is_ok (f a) ≡ true)
    → is_ok (m >>= f) ≡ true
is_ok->>= (ok a) f h k = k a refl
is_ok->>= (err e) f h k = absurd (cc)

pub build_each-is_ok :
    {A : Type 0} (f : A → Result DisplayedTransaction) (xs : List A)
    → ((x : A) → is_ok (f x) ≡ true)
    → is_ok (build_each f xs) ≡ true
build_each-is_ok f [] h = refl
build_each-is_ok f (x ∷ xs) h =
    is_ok->>= (f x) _ (h x)
      (λ t _. is_ok->>= (build_each f xs) _ (build_each-is_ok f xs h) (λ ts _. refl))

-- an index of a list
abbrev pub IsIndex : {A : Type 0} → List A → ℕ → Type 0
IsIndex {A} xs i = (x : A) × get i xs ≡ some x

get-IsIndex : {A : Type 0} (i : ℕ) (xs : List A) → i < length xs → IsIndex xs i
get-IsIndex zero [] h = absurd (omega (arith, h))
get-IsIndex (suc i) [] h = absurd (omega (arith, h))
get-IsIndex zero (x ∷ xs) h = (x, refl)
get-IsIndex (suc i) (x ∷ xs) h = get-IsIndex i xs (omega (arith, h))

inputs_at-is_ok :
    (inputs : List Debit) (is : List ℕ)
    → All (λ i. i < length inputs) is
    → is_ok (inputs_at inputs is) ≡ true
unfolding inputs_at
inputs_at-is_ok inputs [] _ = refl
inputs_at-is_ok inputs (i ∷ is) (h, hs) =
    let (x, e) = get-IsIndex i inputs h in
    rw (e, inputs_at)
      (is_ok->>= (inputs_at inputs is) _ (inputs_at-is_ok inputs is hs) (λ r _. refl))

credits_at-is_ok :
    (outputs : List Credit) (is : List ℕ)
    → All (λ i. IsIndex outputs i) is
    → is_ok (credits_at outputs is) ≡ true
unfolding credits_at
credits_at-is_ok outputs [] _ = refl
credits_at-is_ok outputs (i ∷ is) ((x, e), hs) =
    rw (e, credits_at)
      (is_ok->>= (credits_at outputs is) _ (credits_at-is_ok outputs is hs) (λ r _. refl))

module _ (p : DisplayedTransactionProcessor) (acc : BlockEventAccumulator) where
  pub transfer-is_ok :
      (is : List TransactionInput) (debit : ℕ) (c : Credit)
      → is_ok (transfer_transaction p acc is debit c) ≡ true
  unfolding transfer_transaction credits_and_debits blockchain_info build
  transfer-is_ok is debit (change, o) = refl

  pub coinbase-is_ok : (c : Credit) → is_ok (coinbase_transaction p acc c) ≡ true
  unfolding coinbase_transaction credits_and_debits blockchain_info build
  coinbase-is_ok (change, o) = refl

  spent-is_ok : (d : Debit) → is_ok (spent_transaction p acc d) ≡ true
  unfolding spent_transaction credits_and_debits blockchain_info build
  spent-is_ok (change, i) = refl

  -- an index of an output that tells of its transaction
  pub record IsPaid (outputs : List Credit) (i : ℕ) : Type 0 where
    pub output : Credit
    pub here : get i outputs ≡ some output
    pub details : ℕ × ℕ
    pub told : p.get_transaction_info_details output.1.output ≡ some details

  pub unmatched-is_ok :
      (inputs : List Debit) (outputs : List Credit) (unmatched : List ℕ)
      → All (λ i. IsIndex outputs i) unmatched
      → is_ok (handle_unmatched_inputs_outputs p acc inputs outputs unmatched) ≡ true
  unfolding handle_unmatched_inputs_outputs
  unmatched-is_ok inputs outputs unmatched h =
      is_ok->>= (credits_at outputs unmatched) _ (credits_at-is_ok outputs unmatched h) (λ cs _.
        is_ok->>= (build_each (transfer_transaction p acc [] 0) cs) _
          (build_each-is_ok _ cs (transfer-is_ok [] 0))
          (λ ts _.
            is_ok->>= (build_each (spent_transaction p acc) inputs) _
              (build_each-is_ok _ inputs spent-is_ok) (λ us _. refl)))

  pub targets_of-IsPaid :
      (whole : List Credit) (k : ℕ) (outputs : List Credit)
      → ((i : ℕ) → get (k + i) whole ≡ get i outputs)
      → let (targets, unmatched) = targets_of p k outputs in
        All (λ t. IsPaid whole t.1) targets × All (λ i. IsIndex whole i) unmatched
  unfolding targets_of
  targets_of-IsPaid whole k [] h = (tt, tt)
  targets_of-IsPaid whole k ((change, o) ∷ outputs) h =
      let zeroth : k ≡ k + 0 = omega arith in
      let here : get k whole ≡ some (change, o) = ap (λ i. get i whole) zeroth ∙ h 0 in
      let next : (i : ℕ) → k + 1 + i ≡ k + suc i = λ i. omega arith in
      let (ps, qs) =
        targets_of-IsPaid whole (k + 1) outputs (λ i. ap (λ i. get i whole) (next i) ∙ h (suc i)) in
      elim (Option-cases (p.get_transaction_info_details o.output)) [
        | inl e ↦ rw (e, targets_of) (ps, (((change, o), here), qs))
        | inr (d, e) ↦
            rw (e, targets_of)
              ((record { output = (change, o); here = here; details = d; told = e }, ps), qs)
      ]

  -- a solution of an output that is paid, by inputs that there are
  pub record IsSolution (inputs : List Debit) (outputs : List Credit) (sol : ℕ × List ℕ)
      : Type 0 where
    pub paid : IsPaid outputs sol.0
    pub within : All (λ i. i < length inputs) sol.1

  one-is_ok :
      (outputs : List Credit) (output : ℕ) (solution : List ℕ) (found : List SpentInput)
      (c : Credit) (details : ℕ × ℕ) (rest : Result Solved)
      → is_ok rest ≡ true
      → is_ok
          (elim (total_send details.1 c.1.output == sum_of_values found) as (λ _. Result Solved) [
            | false ↦ rest >>= λ s. ok (record s { unmatched = output ∷ s.unmatched })
            | true ↦
                transfer_transaction p acc (map displayed_input found) (sum_of_values found) c
                >>= λ t. rest >>= λ s. ok (add_solution solution t s)
          ])
        ≡ true
  one-is_ok outputs output solution found c details rest ih =
      elim (Bool-cases (total_send details.1 c.1.output == sum_of_values found)) [
        | inl y ↦ rw y (
            is_ok->>=
              (transfer_transaction p acc (map displayed_input found) (sum_of_values found) c) _
              (transfer-is_ok (map displayed_input found) (sum_of_values found) c)
              (λ t _. is_ok->>= rest _ ih (λ s _. refl)))
        | inr n ↦ rw n (is_ok->>= rest _ ih (λ s _. refl))
      ]

  pub solved_each-is_ok :
      (inputs : List Debit) (outputs : List Credit) (sols : List (ℕ × List ℕ))
      → All (IsSolution inputs outputs) sols
      → is_ok (solved_each p acc inputs outputs sols) ≡ true
  unfolding solved_each
  solved_each-is_ok inputs outputs [] _ = refl
  solved_each-is_ok inputs outputs ((output, solution) ∷ sols) (h, hs) =
      is_ok->>= (inputs_at inputs solution) _ (inputs_at-is_ok inputs solution h.within) (λ found _.
        rw (h.paid.here) (
          rw (h.paid.told) (
            one-is_ok outputs output solution found h.paid.output h.paid.details
              (solved_each p acc inputs outputs sols) (solved_each-is_ok inputs outputs sols hs))))
