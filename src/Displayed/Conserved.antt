-- ===== src/Displayed/Conserved.antt =====
-- The new displayed transactions of a block against its balance changes
-- (displayed_transaction_processor/processor.rs).
use minotari_cli.Base.{
  All, List, OnOk, OnOk->>=, OnOk-any, OnOk-map, Option-cases, [], ap, arith, inl, inr, insert_asc,
  map, order_asc, order_desc, refl, suc, sum, zero, ℕ, ◌++◌, ◌+◌, ◌∙◌, ◌∷◌, ◌≡◌,
}
use minotari_cli.Displayed.Indices.{remove_used-worth, sum-append, worth_at}
use minotari_cli.Displayed.Inputs.{
  Solved, build_each, handle_unmatched_inputs_outputs, remove_each, search_inputs, targets_of,
  totals_fit,
}
use minotari_cli.Displayed.Measures.{
  Measure, Shows, credit_of, debit_of, gift-ShowsOne, input_value, shown_credit, shown_debit,
  spent-ShowsOne,
}
use minotari_cli.Displayed.Shown.{
  IsGathered, Shows-append, build_each-Shows, credits_at-worth, solved_each-IsGathered,
}
use minotari_cli.Displayed.Solutions.{solve_back_track-AreOwn}
use minotari_cli.Displayed.Subset.{solve_back_track, solve_each}
use minotari_cli.Displayed.Transactions.{
  Credit, Debit, DisplayedTransactionProcessor, spent_transaction, transfer_transaction,
}
use minotari_cli.Models.{DisplayedTransaction}
use minotari_cli.Scan.Blocks.{BlockEventAccumulator}

module _ {A : Type 0} (g key : A → ℕ) where
  sum-insert_asc : (t : A) (ts : List A) → sum g (insert_asc key t ts) ≡ g t + sum g ts
  sum-insert_asc t [] = refl
  sum-insert_asc t (u ∷ ts) = ground (arith, sum-insert_asc t ts)

  pub sum-order_asc : (ts : List A) → sum g (order_asc key ts) ≡ sum g ts
  sum-order_asc [] = refl
  sum-order_asc (t ∷ ts) = omega (arith, sum-insert_asc t (order_asc key ts), sum-order_asc ts)

solve_each-outputs :
    (g : ℕ → ℕ) (nums : List ℕ) (targets : List (ℕ × ℕ)) (remaining : List ℕ)
    → sum (λ s. g s.0) (solve_each nums targets remaining) ≡ sum (λ t. g t.1) targets
unfolding solve_each
solve_each-outputs g nums [] remaining = refl
solve_each-outputs g nums ((target, output) ∷ targets) remaining =
    omega (arith, solve_each-outputs g nums targets _)

solve_back_track-outputs :
    (g : ℕ → ℕ) (values : List ℕ) (targets : List (ℕ × ℕ))
    → sum (λ s. g s.0) (solve_back_track values targets) ≡ sum (λ t. g t.1) targets
unfolding solve_back_track
solve_back_track-outputs g values targets =
    solve_each-outputs g (order_asc (λ v. v) values) (order_asc (λ t. t.0) targets) _
    ∙ sum-order_asc (λ t. g t.1) (λ t. t.0) targets

pub sum-zero : {A : Type 0} (xs : List A) → sum (λ _. 0) xs ≡ 0
sum-zero [] = refl
sum-zero (x ∷ xs) = omega (arith, sum-zero xs)

module _ (μ : Measure) where
  targets_of-worth :
      (p : DisplayedTransactionProcessor) (g : ℕ → ℕ) (k : ℕ) (outputs : List Credit)
      → ((i : ℕ) → g (k + i) ≡ worth_at (credit_of μ) outputs i)
      → let (targets, unmatched) = targets_of p k outputs in
        sum (λ t. g t.1) targets + sum g unmatched ≡ sum (credit_of μ) outputs
  unfolding targets_of
  targets_of-worth p g k [] h = omega arith
  targets_of-worth p g k ((change, o) ∷ outputs) h =
      let zeroth : k ≡ k + 0 = omega arith in
      let here : g k ≡ credit_of μ (change, o) = ap g zeroth ∙ h 0 in
      let next : (i : ℕ) → k + 1 + i ≡ k + suc i = λ i. omega arith in
      let later = targets_of-worth p g (k + 1) outputs (λ i. ap g (next i) ∙ h (suc i)) in
      elim (Option-cases (p.get_transaction_info_details o.output)) [
        | inl e ↦ rw (e, targets_of) (omega (arith, here, later))
        | inr (d, e) ↦ rw (e, targets_of) (omega (arith, here, later))
      ]

  -- the books give an input the debit that its output is worth
  abbrev pub HaveValues : List Debit → Type 0
  HaveValues ds = All (λ d. debit_of μ d ≡ input_value μ d) ds

  worth_at-same :
      (inputs : List Debit) (i : ℕ)
      → HaveValues inputs
      → worth_at (debit_of μ) inputs i ≡ worth_at (input_value μ) inputs i
  worth_at-same [] zero _ = refl
  worth_at-same [] (suc i) _ = refl
  worth_at-same (d ∷ ds) zero (h, _) = h
  worth_at-same (d ∷ ds) (suc i) (_, hs) = worth_at-same ds i hs

  sum-worth_at-same :
      (inputs : List Debit) (is : List ℕ)
      → HaveValues inputs
      → sum (worth_at (debit_of μ) inputs) is ≡ sum (worth_at (input_value μ) inputs) is
  sum-worth_at-same inputs [] h = refl
  sum-worth_at-same inputs (i ∷ is) h =
      omega (arith, worth_at-same inputs i h, sum-worth_at-same inputs is h)

  module _ (p : DisplayedTransactionProcessor) (acc : BlockEventAccumulator) where
    pub transfers-Shows :
        (cs : List Credit)
        → OnOk (Shows μ (sum (credit_of μ) cs) 0) (build_each (transfer_transaction p acc [] 0) cs)
    transfers-Shows cs =
        let made = build_each (transfer_transaction p acc [] 0) cs in
        let zero_debit : (ts : List DisplayedTransaction)
            → Shows μ (sum (credit_of μ) cs) (sum (λ _. 0) cs) ts
            → Shows μ (sum (credit_of μ) cs) 0 ts =
          λ ts h. (h.0, h.1 ∙ sum-zero cs) in
        OnOk-map made zero_debit (
          build_each-Shows μ (transfer_transaction p acc [] 0) (credit_of μ) (λ _. 0) cs
            (gift-ShowsOne p acc μ))

    unmatched-Shows :
        (inputs : List Debit) (outputs : List Credit) (unmatched : List ℕ)
        → OnOk
            (Shows μ (sum (worth_at (credit_of μ) outputs) unmatched) (sum (debit_of μ) inputs))
            (handle_unmatched_inputs_outputs p acc inputs outputs unmatched)
    unfolding handle_unmatched_inputs_outputs
    unmatched-Shows inputs outputs unmatched =
        OnOk->>= (λ found. sum (credit_of μ) found ≡ sum (worth_at (credit_of μ) outputs) unmatched)
          _ _ _ (credits_at-worth μ outputs unmatched)
          (λ cs e. OnOk->>= (Shows μ (sum (credit_of μ) cs) 0) _ _ _ (transfers-Shows cs) (λ ts h.
            OnOk->>= (Shows μ (sum (λ _. 0) inputs) (sum (debit_of μ) inputs)) _ _ _
              (build_each-Shows μ (spent_transaction p acc) (λ _. 0) (debit_of μ) inputs
                (spent-ShowsOne p acc μ))
              (λ us k.
                let both = Shows-append μ (sum (credit_of μ) cs) 0 _ _ ts us h k in
                (omega (arith, both.0, e, sum-zero inputs), omega (arith, both.1)))))

    pub search_inputs-Shows :
        (inputs : List Debit) (outputs : List Credit)
        → HaveValues inputs
        → OnOk
            (Shows μ (sum (credit_of μ) outputs) (sum (debit_of μ) inputs))
            (search_inputs p acc inputs outputs)
    unfolding search_inputs
    search_inputs-Shows inputs outputs v =
        let g = worth_at (credit_of μ) outputs in
        let found = targets_of p 0 outputs in
        let values = map (λ (i : Debit). i.1.output.value) inputs in
        let solutions = solve_back_track values found.0 in
        OnOk-any (Shows μ (sum (credit_of μ) outputs) (sum (debit_of μ) inputs))
          (totals_fit p outputs) _
          (λ _.
            OnOk->>= (IsGathered μ inputs outputs solutions) _ _ _
              (solved_each-IsGathered μ p acc inputs outputs solutions
                (solve_back_track-AreOwn values found.0).0)
              (λ s h.
                let left = remove_each (order_desc (λ i. i) s.used) inputs in
                let unmatched = found.1 ++ s.unmatched in
                OnOk->>= (Shows μ (sum g unmatched) (sum (debit_of μ) left)) _ _ _
                  (unmatched-Shows left outputs unmatched)
                  (λ rest k. searched inputs outputs s rest h k v)))
      where
        searched :
            (inputs : List Debit) (outputs : List Credit) (s : Solved)
            (rest : List DisplayedTransaction)
            → (let found = targets_of p 0 outputs in
                IsGathered μ inputs outputs
                  (solve_back_track (map (λ (i : Debit). i.1.output.value) inputs) found.0)
                  s)
            → (let found = targets_of p 0 outputs in
                Shows μ
                  (sum (worth_at (credit_of μ) outputs) (found.1 ++ s.unmatched))
                  (sum (debit_of μ) (remove_each (order_desc (λ i. i) s.used) inputs))
                  rest)
            → HaveValues inputs
            → Shows μ (sum (credit_of μ) outputs) (sum (debit_of μ) inputs) (s.transactions ++ rest)
        searched inputs outputs s rest h k v =
            let g = worth_at (credit_of μ) outputs in
            let found = targets_of p 0 outputs in
            let values = map (λ (i : Debit). i.1.output.value) inputs in
            let both =
              Shows-append μ (shown_credit μ s.transactions) (shown_debit μ s.transactions) _ _
                s.transactions rest (refl, refl) k in
            (
              omega (
                arith,
                both.0,
                h.credit,
                sum-append g found.1 s.unmatched,
                solve_back_track-outputs g values found.0,
                targets_of-worth p g 0 outputs (λ i. ap g (omega arith)),
              ),
              omega (
                arith,
                both.1,
                h.debit,
                sum-worth_at-same inputs s.used v,
                remove_used-worth (debit_of μ) s.used inputs h.own,
              ),
            )
