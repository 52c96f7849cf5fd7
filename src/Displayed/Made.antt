-- ===== src/Displayed/Made.antt =====
-- search_inputs and create_new_updated_display_transactions: whether they give a result
-- (displayed_transaction_processor/processor.rs).
use minotari_cli.Base.{
  All, All-append, All-order_asc, Bool, Bool-cases, List, OnOk, OnOk->>=, OnOk-any, Option-cases,
  Result, [], ap, arith, delete_where, false, find, inl, inr, length, ltb, map, of_ok, ok,
  order_asc, order_desc, refl, some, suc, transport, true, u64_limit, ℕ, ◌++◌, ◌<◌, ◌==◌, ◌>>=◌,
  ◌∷◌, ◌≡◌,
}
use minotari_cli.Displayed.Inputs.{
  Solved, add_solution, build_each, handle_unmatched_inputs_outputs, inputs_at, payment_total,
  remove_each, search_inputs, solved_each, sum_of_values, targets_of, total_send, totals_fit,
}
use minotari_cli.Displayed.Matching.{has_output, match_outputs}
use minotari_cli.Displayed.Processor.{
  create_new_updated_display_transactions, is_coinbase, is_received, new_transactions, taken_out,
}
use minotari_cli.Displayed.Solutions.{all_used, solve_back_track-AreOwn}
use minotari_cli.Displayed.Subset.{get, solve_back_track, solve_each}
use minotari_cli.Displayed.Total.{
  IsIndex, IsPaid, IsSolution, build_each-is_ok, coinbase-is_ok, is_ok, is_ok->>=,
  solved_each-is_ok, targets_of-IsPaid, transfer-is_ok, unmatched-is_ok,
}
use minotari_cli.Displayed.Transactions.{
  Credit, Debit, DisplayedTransactionProcessor, coinbase_transaction, displayed_input,
  transfer_transaction,
}
use minotari_cli.Models.{DisplayedTransaction}
use minotari_cli.Scan.Blocks.{BlockEventAccumulator, SpentInput}

solve_each-All :
    (Q : ℕ → Type 0) (nums : List ℕ) (targets : List (ℕ × ℕ)) (remaining : List ℕ)
    → All (λ t. Q t.1) targets
    → All (λ s. Q s.0) (solve_each nums targets remaining)
unfolding solve_each
solve_each-All Q nums [] remaining _ = tt
solve_each-All Q nums ((target, output) ∷ targets) remaining (h, hs) =
    (h, solve_each-All Q nums targets _ hs)

solve_back_track-All :
    (Q : ℕ → Type 0) (values : List ℕ) (targets : List (ℕ × ℕ))
    → All (λ t. Q t.1) targets
    → All (λ s. Q s.0) (solve_back_track values targets)
unfolding solve_back_track
solve_back_track-All Q values targets h =
    solve_each-All Q _ (order_asc (λ t. t.0) targets) _ (All-order_asc _ (λ t. t.0) targets h)

length-map : {A : Type 0} (f : A → ℕ) (xs : List A) → length (map f xs) ≡ length xs
length-map f [] = refl
length-map f (x ∷ xs) = ap suc (length-map f xs)

All-split :
    (n : ℕ) (is js : List ℕ)
    → All (λ i. i < n) (is ++ js)
    → All (λ i. i < n) is × All (λ i. i < n) js
All-split n [] js h = (tt, h)
All-split n (i ∷ is) js (h, hs) = let (ks, ls) = All-split n is js hs in ((h, ks), ls)

All-delete_where :
    {A : Type 0} (Q : A → Type 0) (q : A → Bool) (xs : List A)
    → All Q xs
    → All Q (delete_where q xs)
All-delete_where Q q [] _ = tt
All-delete_where Q q (x ∷ xs) (h, hs) = elim (Bool-cases (q x)) [
  | inl y ↦ rw y (All-delete_where Q q xs hs)
  | inr n ↦ rw n (h, All-delete_where Q q xs hs)
]

-- the payments' totals fit 64 bits
abbrev pub HaveTotals : DisplayedTransactionProcessor → List Credit → Type 0
HaveTotals p cs = All (λ c. payment_total p c < u64_limit) cs

totals_fit-is_ok :
    (p : DisplayedTransactionProcessor) (cs : List Credit)
    → HaveTotals p cs
    → totals_fit p cs ≡ ok tt
unfolding totals_fit
totals_fit-is_ok p [] _ = refl
totals_fit-is_ok p (c ∷ cs) (h, hs) =
    let fits : ltb (payment_total p c) u64_limit ≡ true = ground (arith, h) in
    rw (fits, totals_fit) (totals_fit-is_ok p cs hs)

match_outputs-HaveTotals :
    (p : DisplayedTransactionProcessor) (current : List DisplayedTransaction) (cs : List Credit)
    (m : List (ℕ × DisplayedTransaction))
    → HaveTotals p cs
    → HaveTotals p (match_outputs p current cs m).1
unfolding match_outputs
match_outputs-HaveTotals p current [] m _ = tt
match_outputs-HaveTotals p current ((change, o) ∷ cs) m (h, hs) =
    elim (Option-cases (find (has_output o.output.output_hash) current)) [
      | inl e ↦ rw (e, match_outputs) (h, match_outputs-HaveTotals p current cs m hs)
      | inr (t, e) ↦ rw (e, match_outputs) (match_outputs-HaveTotals p current cs _ hs)
    ]

module _ (p : DisplayedTransactionProcessor) (acc : BlockEventAccumulator) where
  solutions_of :
      (inputs : List Debit) (outputs : List Credit) (n : ℕ) (sols : List (ℕ × List ℕ))
      → n ≡ length inputs
      → All (λ i. i < n) (all_used sols)
      → All (λ s. IsPaid p acc outputs s.0) sols
      → All (IsSolution p acc inputs outputs) sols
  solutions_of inputs outputs n [] e _ _ = tt
  solutions_of inputs outputs n ((output, solution) ∷ sols) e u (h, hs) =
      let (here, later) = All-split n solution (all_used sols) u in
      (
        record { paid = h; within = transport (ap (λ k. All (λ i. i < k) solution) e) here },
        solutions_of inputs outputs n sols e later hs,
      )

  left_one :
      (outputs : List Credit) (output : ℕ) (solution : List ℕ) (found : List SpentInput)
      (c : Credit) (details : ℕ × ℕ) (rest : Result Solved)
      → get output outputs ≡ some c
      → OnOk (λ s. All (λ i. IsIndex outputs i) s.unmatched) rest
      → OnOk
          (λ s. All (λ i. IsIndex outputs i) s.unmatched)
          (elim (total_send details.1 c.1.output == sum_of_values found) as (λ _. Result Solved) [
            | false ↦ rest >>= λ s. ok (record s { unmatched = output ∷ s.unmatched })
            | true ↦
                transfer_transaction p acc (map displayed_input found) (sum_of_values found) c
                >>= λ t. rest >>= λ s. ok (add_solution solution t s)
          ])
  left_one outputs output solution found c details rest e ih =
      let P = λ (s : Solved). All (λ i. IsIndex outputs i) s.unmatched in
      elim (Bool-cases (total_send details.1 c.1.output == sum_of_values found)) [
        | inl y ↦ rw y (
            OnOk-any P
              (transfer_transaction p acc (map displayed_input found) (sum_of_values found) c) _
              (λ t. OnOk->>= P P rest _ ih (λ s g. g)))
        | inr n ↦ rw n (OnOk->>= P P rest _ ih (λ s g. ((c, e), g)))
      ]

  left_out :
      (inputs : List Debit) (outputs : List Credit) (sols : List (ℕ × List ℕ))
      → All (λ s. IsPaid p acc outputs s.0) sols
      → OnOk (λ s. All (λ i. IsIndex outputs i) s.unmatched) (solved_each p acc inputs outputs sols)
  unfolding solved_each
  left_out inputs outputs [] _ = tt
  left_out inputs outputs ((output, solution) ∷ sols) (h, hs) =
      let P = λ (s : Solved). All (λ i. IsIndex outputs i) s.unmatched in
      OnOk-any P (inputs_at inputs solution) _ (λ found. rw (h.here) (
        rw (h.told) (
          left_one outputs output solution found h.output h.details
            (solved_each p acc inputs outputs sols) h.here (left_out inputs outputs sols hs))))

  search_inputs-is_ok :
      (inputs : List Debit) (outputs : List Credit)
      → HaveTotals p outputs
      → is_ok (search_inputs p acc inputs outputs) ≡ true
  unfolding search_inputs
  search_inputs-is_ok inputs outputs fit =
      let found = targets_of p 0 outputs in
      let values = map (λ (i : Debit). i.1.output.value) inputs in
      let sols = solve_back_track values found.0 in
      let (paid, others) =
        targets_of-IsPaid p acc outputs 0 outputs (λ i. ap (λ j. get j outputs) (omega arith)) in
      let paid_sols = solve_back_track-All (IsPaid p acc outputs) values found.0 paid in
      let solved =
        solutions_of inputs outputs (length values) sols
          (length-map (λ (i : Debit). i.1.output.value) inputs)
          (solve_back_track-AreOwn values found.0).1 paid_sols in
      rw (totals_fit-is_ok p outputs fit) (
        is_ok->>= (solved_each p acc inputs outputs sols) _
          (solved_each-is_ok p acc inputs outputs sols solved)
          (λ s e.
            let left =
              of_ok (λ (s : Solved). All (λ i. IsIndex outputs i) s.unmatched) _
                (left_out inputs outputs sols paid_sols) e in
            let kept = remove_each (order_desc (λ i. i) s.used) inputs in
            is_ok->>= (handle_unmatched_inputs_outputs p acc kept outputs (found.1 ++ s.unmatched))
              _
              (unmatched-is_ok p acc kept outputs (found.1 ++ s.unmatched)
                (All-append _ found.1 s.unmatched others left))
              (λ rest _. refl)))

  new_transactions-is_ok :
      (ds : List Debit) (cs : List Credit)
      → HaveTotals p cs
      → is_ok (new_transactions p acc ds cs) ≡ true
  unfolding new_transactions
  new_transactions-is_ok ds cs fit =
      is_ok->>= (build_each (coinbase_transaction p acc) (taken_out is_coinbase cs)) _
        (build_each-is_ok _ (taken_out is_coinbase cs) (coinbase-is_ok p acc))
        (λ ts _.
          is_ok->>=
            (build_each (transfer_transaction p acc [] 0)
              (taken_out (is_received p) (delete_where is_coinbase cs)))
            _
            (build_each-is_ok _ (taken_out (is_received p) (delete_where is_coinbase cs))
              (transfer-is_ok p acc [] 0))
            (λ us _.
              is_ok->>=
                (search_inputs p acc ds
                  (delete_where (is_received p) (delete_where is_coinbase cs)))
                _
                (search_inputs-is_ok ds (delete_where (is_received p) (delete_where is_coinbase cs))
                  (All-delete_where _ (is_received p) (delete_where is_coinbase cs)
                    (All-delete_where _ is_coinbase cs fit)))
                (λ ws _. refl)))

  pub create-is_ok :
      (current : List DisplayedTransaction)
      → HaveTotals p acc.credit_balance_changes
      → is_ok (create_new_updated_display_transactions p acc current) ≡ true
  unfolding create_new_updated_display_transactions
  create-is_ok current fit =
      is_ok->>= (new_transactions p acc _ _) _
        (new_transactions-is_ok _ _
          (match_outputs-HaveTotals p current acc.credit_balance_changes [] fit))
        (λ ts _. refl)
