-- ===== src/Displayed/Measures.antt =====
-- What is counted of displayed transactions, and of the balance changes that they show: the amounts,
-- or the hashes of the outputs and inputs, by any weight (displayed_transaction_processor/processor.rs).
use minotari_cli.Base.{List, OnOk, [], ap, arith, map, refl, sum, transport, ℕ, ◌∷◌, ◌≡◌}
use minotari_cli.Displayed.Builder.{blockchain_info, build, credits_and_debits}
use minotari_cli.Displayed.Inputs.{sum_of_values}
use minotari_cli.Displayed.Transactions.{
  Credit, Debit, DisplayedTransactionProcessor, coinbase_transaction, displayed_input,
  spent_transaction, transfer_transaction,
}
use minotari_cli.Models.{DisplayedTransaction, TransactionInput}
use minotari_cli.Scan.Blocks.{BlockEventAccumulator, SpentInput}

pub data Measure : Type 0 where
  totals : Measure
  hashes : (ℕ → ℕ) → Measure

abbrev pub credit_of : Measure → Credit → ℕ
credit_of totals c = c.0.balance_credit
credit_of (hashes g) c = g c.1.output.output_hash

abbrev pub debit_of : Measure → Debit → ℕ
debit_of totals d = d.0.balance_debit
debit_of (hashes g) d = g d.1.output.output_hash

-- an input as a transaction shows it
abbrev pub spent_of : Measure → SpentInput → ℕ
spent_of totals i = i.output.value
spent_of (hashes g) i = g i.output.output_hash

abbrev pub input_value : Measure → Debit → ℕ
input_value μ d = spent_of μ d.1

abbrev pub shown_in : Measure → List TransactionInput → ℕ → ℕ
shown_in totals is debit = debit
shown_in (hashes g) is debit = sum (λ i. g i.output_hash) is

abbrev pub one_credit : Measure → DisplayedTransaction → ℕ
one_credit totals t = t.details.total_credit
one_credit (hashes g) t = sum (λ o. g o.hash) t.details.outputs

abbrev pub one_debit : Measure → DisplayedTransaction → ℕ
one_debit μ t = shown_in μ t.details.inputs t.details.total_debit

abbrev pub shown_credit : Measure → List DisplayedTransaction → ℕ
shown_credit μ ts = sum (one_credit μ) ts

abbrev pub shown_debit : Measure → List DisplayedTransaction → ℕ
shown_debit μ ts = sum (one_debit μ) ts

-- transactions that show a credit and a debit
abbrev pub Shows : Measure → ℕ → ℕ → List DisplayedTransaction → Type 0
Shows μ credit debit ts = (shown_credit μ ts ≡ credit) × (shown_debit μ ts ≡ debit)

unfoldable pub ShowsOne : Measure → ℕ → ℕ → DisplayedTransaction → Type 0
ShowsOne μ credit debit t = (one_credit μ t ≡ credit) × (one_debit μ t ≡ debit)

module _ (p : DisplayedTransactionProcessor) (acc : BlockEventAccumulator) where
  pub transfer-ShowsOne :
      (μ : Measure) (is : List TransactionInput) (debit : ℕ) (c : Credit)
      → OnOk
          (ShowsOne μ (credit_of μ c) (shown_in μ is debit))
          (transfer_transaction p acc is debit c)
  unfolding ShowsOne transfer_transaction credits_and_debits blockchain_info build
  transfer-ShowsOne totals is debit (change, o) = (refl, refl)
  transfer-ShowsOne (hashes g) is debit (change, o) = (omega arith, refl)

  -- no inputs, no debit
  shown_in-none : (μ : Measure) → shown_in μ [] 0 ≡ 0
  shown_in-none totals = refl
  shown_in-none (hashes g) = refl

  pub gift-ShowsOne :
      (μ : Measure) (c : Credit)
      → OnOk (ShowsOne μ (credit_of μ c) 0) (transfer_transaction p acc [] 0 c)
  gift-ShowsOne μ c =
      transport
        (ap (λ n. OnOk (ShowsOne μ (credit_of μ c) n) (transfer_transaction p acc [] 0 c))
          (shown_in-none μ))
        (transfer-ShowsOne μ [] 0 c)

  pub coinbase-ShowsOne :
      (μ : Measure) (c : Credit)
      → OnOk (ShowsOne μ (credit_of μ c) 0) (coinbase_transaction p acc c)
  unfolding ShowsOne coinbase_transaction credits_and_debits blockchain_info build
  coinbase-ShowsOne totals (change, o) = (refl, refl)
  coinbase-ShowsOne (hashes g) (change, o) = (omega arith, refl)

  pub spent-ShowsOne :
      (μ : Measure) (d : Debit) → OnOk (ShowsOne μ 0 (debit_of μ d)) (spent_transaction p acc d)
  unfolding ShowsOne spent_transaction credits_and_debits blockchain_info build
  spent-ShowsOne totals (change, i) = (refl, refl)
  spent-ShowsOne (hashes g) (change, i) = (refl, omega arith)

-- the inputs of a payment show what they are worth
pub shown_in-spent :
    (μ : Measure) (found : List SpentInput)
    → shown_in μ (map displayed_input found) (sum_of_values found) ≡ sum (spent_of μ) found
shown_in-spent totals found = refl
shown_in-spent (hashes g) [] = refl
shown_in-spent (hashes g) (i ∷ found) = omega (arith, shown_in-spent (hashes g) found)
