-- ===== src/Displayed/Shown.antt =====
-- What the new displayed transactions (search_inputs, create_new_updated_display_transactions of
-- displayed_transaction_processor/processor.rs) add up to.
use minotari_cli.Base.{
  All, AreOwn, AreOwn-append, Bool-cases, List, OnOk, OnOk->>=, OnOk-any, Option-cases, Result, [],
  ap, arith, false, inl, inr, is_listed, is_listed-append, map, missing_field, ok, or_fail, refl,
  some, sum, sum_where-append, true, ℕ, ◌++◌, ◌+◌, ◌==◌, ◌>>=◌, ◌∙◌, ◌∷◌, ◌≡◌,
}
use minotari_cli.Displayed.Indices.{AreOwn-split, sum-append, worth_at, worth_of}
use minotari_cli.Displayed.Inputs.{
  Solved, add_solution, build_each, credits_at, inputs_at, solved_each, sum_of_values, total_send,
}
use minotari_cli.Displayed.Measures.{
  Measure, Shows, ShowsOne, credit_of, input_value, one_credit, one_debit, shown_credit,
  shown_debit, shown_in, shown_in-spent, spent_of, transfer-ShowsOne,
}
use minotari_cli.Displayed.Solutions.{all_used}
use minotari_cli.Displayed.Subset.{get}
use minotari_cli.Displayed.Transactions.{
  Credit, Debit, DisplayedTransactionProcessor, displayed_input, transfer_transaction,
}
use minotari_cli.Models.{DisplayedTransaction}
use minotari_cli.Scan.Blocks.{BlockEventAccumulator, SpentInput}

module _ (μ : Measure) where
  pub build_each-Shows :
      {A : Type 0} (f : A → Result DisplayedTransaction) (credit debit : A → ℕ) (xs : List A)
      → ((x : A) → OnOk (ShowsOne μ (credit x) (debit x)) (f x))
      → OnOk (Shows μ (sum credit xs) (sum debit xs)) (build_each f xs)
  unfolding ShowsOne
  build_each-Shows f credit debit [] h = (refl, refl)
  build_each-Shows f credit debit (x ∷ xs) h =
      OnOk->>= (ShowsOne μ (credit x) (debit x)) _ (f x) _ (h x) (λ t s.
        OnOk->>= (Shows μ (sum credit xs) (sum debit xs)) _ (build_each f xs) _
          (build_each-Shows f credit debit xs h)
          (λ ts r. (omega (arith, s.0, r.0), omega (arith, s.1, r.1))))

  pub Shows-append :
      (a b c d : ℕ) (ts us : List DisplayedTransaction)
      → Shows μ a b ts
      → Shows μ c d us
      → Shows μ (a + c) (b + d) (ts ++ us)
  Shows-append a b c d ts us h k = (
    omega (arith, h.0, k.0, sum_where-append (λ _. true) (one_credit μ) ts us),
    omega (arith, h.1, k.1, sum_where-append (λ _. true) (one_debit μ) ts us),
  )

  inputs_at-worth :
      (inputs : List Debit) (is : List ℕ)
      → OnOk
          (λ found. sum (spent_of μ) found ≡ sum (worth_at (input_value μ) inputs) is)
          (inputs_at inputs is)
  unfolding inputs_at
  inputs_at-worth inputs [] = refl
  inputs_at-worth inputs (i ∷ is) = elim (Option-cases (get i inputs)) [
    | inl e ↦ rw (e, inputs_at) tt
    | inr (found, e) ↦
        rw (e, inputs_at)
          (OnOk->>= (λ rest. sum (spent_of μ) rest ≡ sum (worth_at (input_value μ) inputs) is) _
            (inputs_at inputs is) _ (inputs_at-worth inputs is)
            (λ rest r. omega (arith, r, ap (worth_of (input_value μ)) e)))
  ]

  pub credits_at-worth :
      (outputs : List Credit) (is : List ℕ)
      → OnOk
          (λ found. sum (credit_of μ) found ≡ sum (worth_at (credit_of μ) outputs) is)
          (credits_at outputs is)
  unfolding credits_at
  credits_at-worth outputs [] = refl
  credits_at-worth outputs (i ∷ is) = elim (Option-cases (get i outputs)) [
    | inl e ↦ rw (e, credits_at) tt
    | inr (found, e) ↦
        rw (e, credits_at)
          (OnOk->>= (λ rest. sum (credit_of μ) rest ≡ sum (worth_at (credit_of μ) outputs) is) _
            (credits_at outputs is) _ (credits_at-worth outputs is)
            (λ rest r. omega (arith, r, ap (worth_of (credit_of μ)) e)))
  ]

  -- What has been gathered of some solutions: all their outputs are shown or left, the used inputs are
  -- shown, and none is used twice.
  pub record IsGathered (inputs : List Debit) (outputs : List Credit) (sols : List (ℕ × List ℕ))
      (s : Solved) : Type 0 where
    pub credit :
        shown_credit μ s.transactions + sum (worth_at (credit_of μ) outputs) s.unmatched
        ≡ sum (λ sol. worth_at (credit_of μ) outputs sol.0) sols
    pub debit : shown_debit μ s.transactions ≡ sum (worth_at (input_value μ) inputs) s.used
    pub own : AreOwn (λ i. i) s.used
    pub among :
        (i : ℕ) → is_listed (λ j. j) i (all_used sols) ≡ false → is_listed (λ j. j) i s.used ≡ false

  unused_apart :
      (used is js : List ℕ)
      → ((i : ℕ) → is_listed (λ j. j) i js ≡ false → is_listed (λ j. j) i used ≡ false)
      → All (λ i. is_listed (λ j. j) i js ≡ false) is
      → All (λ i. is_listed (λ j. j) i used ≡ false) is
  unused_apart used [] js f _ = tt
  unused_apart used (i ∷ is) js f (h, hs) = (f i h, unused_apart used is js f hs)

  module _ (p : DisplayedTransactionProcessor) (acc : BlockEventAccumulator) (inputs : List Debit)
      (outputs : List Credit) where
    add_solution-IsGathered :
        (output : ℕ) (solution : List ℕ) (sols : List (ℕ × List ℕ)) (c : Credit)
        (t : DisplayedTransaction) (s : Solved)
        → get output outputs ≡ some c
        → ShowsOne μ (credit_of μ c) (sum (worth_at (input_value μ) inputs) solution) t
        → AreOwn (λ i. i) (all_used ((output, solution) ∷ sols))
        → IsGathered inputs outputs sols s
        → IsGathered inputs outputs ((output, solution) ∷ sols) (add_solution solution t s)
    unfolding ShowsOne
    add_solution-IsGathered output solution sols c t s e (h, k) o g =
        let (p, q, r) = AreOwn-split solution (all_used sols) o in
        record {
          credit = omega (arith, g.credit, h, ap (worth_of (credit_of μ)) e);
          debit =
              omega
                (arith, g.debit, k, sum-append (worth_at (input_value μ) inputs) solution s.used);
          own =
              AreOwn-append (λ i. i) solution s.used p g.own
                (unused_apart s.used solution (all_used sols) g.among r);
          among = λ i h. ground (
            arith,
            is_listed-append (λ j. j) i solution s.used,
            is_listed-append (λ j. j) i solution (all_used sols),
            h,
            g.among i,
          );
        }

    skip-IsGathered :
        (output : ℕ) (solution : List ℕ) (sols : List (ℕ × List ℕ)) (s : Solved)
        → IsGathered inputs outputs sols s
        → IsGathered inputs outputs
            ((output, solution) ∷ sols)
            (record s { unmatched = output ∷ s.unmatched })
    skip-IsGathered output solution sols s g = record {
      credit = omega (arith, g.credit);
      debit = g.debit;
      own = g.own;
      among = λ i h.
          g.among i (ground (arith, is_listed-append (λ j. j) i solution (all_used sols), h));
    }

    one_solution :
        (output : ℕ) (solution : List ℕ) (sols : List (ℕ × List ℕ)) (found : List SpentInput)
        (c : Credit) (details : ℕ × ℕ)
        → get output outputs ≡ some c
        → sum (spent_of μ) found ≡ sum (worth_at (input_value μ) inputs) solution
        → AreOwn (λ i. i) (all_used ((output, solution) ∷ sols))
        → OnOk (IsGathered inputs outputs sols) (solved_each p acc inputs outputs sols)
        → OnOk
            (IsGathered inputs outputs ((output, solution) ∷ sols))
            (elim (total_send details.1 c.1.output == sum_of_values found) as (λ _. Result Solved) [
              | false ↦ solved_each p acc inputs outputs sols >>= λ s.
                  ok (record s { unmatched = output ∷ s.unmatched })
              | true ↦
                  transfer_transaction p acc (map displayed_input found) (sum_of_values found) c
                  >>= λ t.
                      solved_each p acc inputs outputs sols >>= λ s. ok (add_solution solution t s)
            ])
    unfolding ShowsOne
    one_solution output solution sols found c details e w o ih =
        let Q = IsGathered inputs outputs ((output, solution) ∷ sols) in
        let rest = solved_each p acc inputs outputs sols in
        elim (Bool-cases (total_send details.1 c.1.output == sum_of_values found)) [
          | inl y ↦ rw y (
              OnOk->>=
                (ShowsOne μ (credit_of μ c)
                  (shown_in μ (map displayed_input found) (sum_of_values found)))
                Q _ _
                (transfer-ShowsOne p acc μ (map displayed_input found) (sum_of_values found) c)
                (λ t s. OnOk->>= (IsGathered inputs outputs sols) Q rest _ ih (λ r g.
                  add_solution-IsGathered output solution sols c t r e
                    (s.0, s.1 ∙ (shown_in-spent μ found ∙ w)) o g)))
          | inr n ↦ rw n (
              OnOk->>= (IsGathered inputs outputs sols) Q rest _ ih
                (λ r g. skip-IsGathered output solution sols r g))
        ]

    pub solved_each-IsGathered :
        (sols : List (ℕ × List ℕ))
        → AreOwn (λ i. i) (all_used sols)
        → OnOk (IsGathered inputs outputs sols) (solved_each p acc inputs outputs sols)
    unfolding solved_each
    solved_each-IsGathered [] _ = record {
      credit = refl;
      debit = refl;
      own = tt;
      among = λ i h. refl;
    }
    solved_each-IsGathered ((output, solution) ∷ sols) o =
        let Q = IsGathered inputs outputs ((output, solution) ∷ sols) in
        let ih = solved_each-IsGathered sols (AreOwn-split solution (all_used sols) o).1 in
        OnOk->>= (λ found. sum (spent_of μ) found ≡ sum (worth_at (input_value μ) inputs) solution)
          Q (inputs_at inputs solution) _ (inputs_at-worth inputs solution)
          (λ found w. elim (Option-cases (get output outputs)) [
            | inl e ↦ rw e tt
            | inr (c, e) ↦ rw e (
                OnOk-any Q (or_fail (p.get_transaction_info_details c.1.output) missing_field) _
                  (λ details. one_solution output solution sols found c details e w o ih))
          ])
