-- ===== src/Displayed/Balanced.antt =====
-- All new displayed transactions of a block against its balance changes
-- (create_new_updated_display_transactions of displayed_transaction_processor/processor.rs).
use minotari_cli.Base.{
  All-order_asc, Bool, List, OnOk, OnOk->>=, Option-cases, Result, [], any, ap, arith, delete_where,
  err, false, find, if◌then◌else◌, inl, inr, is_none, not, ok, order_asc, refl, select, sum,
  sum_where, sum_where-append, true, ℕ, ◌++◌, ◌+◌, ◌==◌, ◌∙◌, ◌∷◌, ◌≡◌,
}
use minotari_cli.Displayed.Conserved.{
  HaveValues, search_inputs-Shows, sum-order_asc, sum-zero, transfers-Shows,
}
use minotari_cli.Displayed.Made.{HaveTotals, create-is_ok}
use minotari_cli.Displayed.Matching.{
  has_input, has_output, insert_updated, match_inputs, match_outputs, mined_again,
}
use minotari_cli.Displayed.Measures.{
  Measure, Shows, coinbase-ShowsOne, credit_of, debit_of, hashes, totals,
}
use minotari_cli.Displayed.Processor.{
  create_new_updated_display_transactions, is_coinbase, is_received, new_transactions, reversed,
  taken_out,
}
use minotari_cli.Displayed.Shown.{Shows-append, build_each-Shows}
use minotari_cli.Displayed.Total.{is_ok}
use minotari_cli.Displayed.Transactions.{
  Credit, Debit, DisplayedTransactionProcessor, coinbase_transaction,
}
use minotari_cli.Models.{DisplayedTransaction}
use minotari_cli.Scan.Blocks.{BlockEventAccumulator}

sum-reversed : (f : Credit → ℕ) (cs : List Credit) → sum f (reversed cs) ≡ sum f cs
sum-reversed f [] = refl
sum-reversed f (c ∷ cs) =
    omega (arith, sum-reversed f cs, sum_where-append (λ _. true) f (reversed cs) (c ∷ []))

sum-taken_out :
    (f : Credit → ℕ) (q : Credit → Bool) (cs : List Credit)
    → sum f (taken_out q cs) + sum f (delete_where q cs) ≡ sum f cs
sum-taken_out f q cs = omega (arith, sum-reversed f (select q cs), parts cs)
  where
    parts : (cs : List Credit) → sum f (select q cs) + sum f (delete_where q cs) ≡ sum f cs
    parts [] = refl
    parts (c ∷ cs) = ground (arith, parts cs)

module _ (μ : Measure) where
  module _ (p : DisplayedTransactionProcessor) (acc : BlockEventAccumulator) where
    new_transactions-Shows :
        (ds : List Debit) (cs : List Credit)
        → HaveValues μ ds
        → OnOk (Shows μ (sum (credit_of μ) cs) (sum (debit_of μ) ds)) (new_transactions p acc ds cs)
    unfolding new_transactions
    new_transactions-Shows ds cs v =
        let coinbases = taken_out is_coinbase cs in
        let others = delete_where is_coinbase cs in
        let given = taken_out (is_received p) others in
        let change = delete_where (is_received p) others in
        OnOk->>= (Shows μ (sum (credit_of μ) coinbases) (sum (λ _. 0) coinbases)) _ _ _
          (build_each-Shows μ (coinbase_transaction p acc) (credit_of μ) (λ _. 0) coinbases
            (coinbase-ShowsOne p acc μ))
          (λ ts h.
            OnOk->>= (Shows μ (sum (credit_of μ) given) 0) _ _ _ (transfers-Shows μ p acc given)
              (λ us k.
                OnOk->>= (Shows μ (sum (credit_of μ) change) (sum (debit_of μ) ds)) _ _ _
                  (search_inputs-Shows μ p acc ds change v)
                  (λ ws l.
                    let all =
                      Shows-append μ _ _ _ _ (ts ++ us) ws (Shows-append μ _ _ _ _ ts us h k) l in
                    (
                      omega (
                        arith,
                        all.0,
                        sum-taken_out (credit_of μ) is_coinbase cs,
                        sum-taken_out (credit_of μ) (is_received p) others,
                      ),
                      omega (arith, all.1, sum-zero coinbases),
                    ))))

find-any :
    (q : DisplayedTransaction → Bool) (ts : List DisplayedTransaction)
    → any q ts ≡ not (is_none (find q ts))
find-any q [] = refl
find-any q (t ∷ ts) = ground (arith, find-any q ts)

-- the output, or the input, is in no displayed transaction
abbrev pub is_new_output : List DisplayedTransaction → Credit → Bool
is_new_output current c = not (any (has_output c.1.output.output_hash) current)

abbrev pub is_new_input : List DisplayedTransaction → Debit → Bool
is_new_input current d = not (any (has_input d.1.output.output_hash) current)

module _ (μ : Measure) where
  module _ (p : DisplayedTransactionProcessor) (current : List DisplayedTransaction) where
    match_outputs-left :
        (cs : List Credit) (m : List (ℕ × DisplayedTransaction))
        → sum (credit_of μ) (match_outputs p current cs m).1
          ≡ sum_where (is_new_output current) (credit_of μ) cs
    unfolding match_outputs
    match_outputs-left [] m = refl
    match_outputs-left ((change, o) ∷ cs) m =
        let seen = find-any (has_output o.output.output_hash) current in
        elim (Option-cases (find (has_output o.output.output_hash) current)) [
          | inl e ↦
              let new : any (has_output o.output.output_hash) current ≡ false =
                seen ∙ ap (λ r. not (is_none r)) e in
              rw (e, match_outputs)
                (rw new (ap (λ n. credit_of μ (change, o) + n) (match_outputs-left cs m)))
          | inr (t, e) ↦
              let old : any (has_output o.output.output_hash) current ≡ true =
                seen ∙ ap (λ r. not (is_none r)) e in
              rw (e, match_outputs)
                (rw old (
                  let ih =
                    match_outputs-left cs
                      (insert_updated t.id (mined_again p o.height change.effective_date t) m) in
                  omega (arith, ih)))
        ]

    match_inputs-left :
        (ds : List Debit) (m : List (ℕ × DisplayedTransaction))
        → HaveValues μ ds
        → (sum (debit_of μ) (match_inputs p current ds m).1
            ≡ sum_where (is_new_input current) (debit_of μ) ds)
          × HaveValues μ (match_inputs p current ds m).1
    unfolding match_inputs
    match_inputs-left [] m _ = (refl, tt)
    match_inputs-left ((change, i) ∷ ds) m (v, vs) =
        let seen = find-any (has_input i.output.output_hash) current in
        elim (Option-cases (find (has_input i.output.output_hash) current)) [
          | inl e ↦
              let new : any (has_input i.output.output_hash) current ≡ false =
                seen ∙ ap (λ r. not (is_none r)) e in
              let (ih, us) = match_inputs-left ds m vs in
              rw (e, match_inputs) (rw new (ap (λ n. debit_of μ (change, i) + n) ih, (v, us)))
          | inr (t, e) ↦
              let old : any (has_input i.output.output_hash) current ≡ true =
                seen ∙ ap (λ r. not (is_none r)) e in
              let (ih, us) =
                match_inputs-left ds
                  (insert_updated t.id
                    (mined_again p i.mined_in_block_height change.effective_date t) m)
                  vs in
              rw (e, match_inputs) (rw old (omega (arith, ih), us))
        ]

-- what is shown of one measure
made-Shows :
    (μ : Measure) (p : DisplayedTransactionProcessor) (acc : BlockEventAccumulator)
    (current : List DisplayedTransaction)
    → HaveValues μ acc.debit_balance_changes
    → OnOk
        (λ r.
          Shows μ
            (sum_where (is_new_output current) (credit_of μ) acc.credit_balance_changes)
            (sum_where (is_new_input current) (debit_of μ) acc.debit_balance_changes)
            r.1)
        (create_new_updated_display_transactions p acc current)
unfolding create_new_updated_display_transactions
made-Shows μ p acc current v =
    let outs = match_outputs p current acc.credit_balance_changes [] in
    let ins = match_inputs p current acc.debit_balance_changes outs.0 in
    let sorted = order_asc (λ (d : Debit). d.1.output.value) ins.1 in
    let (left, vs) = match_inputs-left μ p current acc.debit_balance_changes outs.0 v in
    OnOk->>= (Shows μ (sum (credit_of μ) outs.1) (sum (debit_of μ) sorted)) _ _ _
      (new_transactions-Shows μ p acc sorted outs.1
        (All-order_asc _ (λ (d : Debit). d.1.output.value) ins.1 vs))
      (λ ts h. (
        h.0 ∙ match_outputs-left μ p current acc.credit_balance_changes [],
        h.1 ∙ (sum-order_asc (debit_of μ) (λ (d : Debit). d.1.output.value) ins.1 ∙ left),
      ))

hashes-HaveValues : (g : ℕ → ℕ) (ds : List Debit) → HaveValues (hashes g) ds
hashes-HaveValues g [] = tt
hashes-HaveValues g (d ∷ ds) = (refl, hashes-HaveValues g ds)

OnOk-both :
    {A I : Type 0} (P : A → Type 0) (Q : I → A → Type 0) (m : Result A)
    → OnOk P m
    → ((i : I) → OnOk (Q i) m)
    → OnOk (λ a. P a × ((i : I) → Q i a)) m
OnOk-both P Q (ok a) h k = (h, k)
OnOk-both P Q (err e) h k = tt

-- the weight that counts a hash
abbrev pub is_hash : ℕ → ℕ → ℕ
is_hash h x = if x == h then 1 else 0

-- the transactions show the new balance changes, by a measure
abbrev pub ShowsNew :
    BlockEventAccumulator → List DisplayedTransaction → Measure → List DisplayedTransaction → Type 0
ShowsNew acc current μ ts =
    Shows μ (sum_where (is_new_output current) (credit_of μ) acc.credit_balance_changes)
      (sum_where (is_new_input current) (debit_of μ) acc.debit_balance_changes) ts

-- The new displayed transactions of a block are made without an error. Their credits add up to those
-- of the outputs that no displayed transaction has yet, and their debits to those of the inputs that
-- none has; and they name each hash as often among their outputs as it is that of such an output, and
-- among their inputs as it is that of such an input. The books give each input the debit that its
-- output is worth, and the total of each payment (its amount, its output and its fee) fits 64 bits.
pub create_new_updated_display_transactions-Shows :
    (p : DisplayedTransactionProcessor) (acc : BlockEventAccumulator)
    (current : List DisplayedTransaction)
    → HaveValues totals acc.debit_balance_changes
    → HaveTotals p acc.credit_balance_changes
    → let made = create_new_updated_display_transactions p acc current in
      (is_ok made ≡ true)
      × OnOk
          (λ r.
            ShowsNew acc current totals r.1
            × ((h : ℕ) → ShowsNew acc current (hashes (is_hash h)) r.1))
          made
create_new_updated_display_transactions-Shows p acc current v fit = (
  create-is_ok p acc current fit,
  OnOk-both _ _ (create_new_updated_display_transactions p acc current)
      (made-Shows totals p acc current v)
      (λ h.
        made-Shows (hashes (is_hash h)) p acc current
          (hashes-HaveValues (is_hash h) acc.debit_balance_changes)),
)
