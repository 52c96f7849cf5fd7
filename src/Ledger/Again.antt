-- ===== src/Ledger/Again.antt =====
-- An input that process_inputs (minotari/src/scan/block_processor.rs) meets a second time.
use mathlib.Core.Option
use minotari_cli.Base.{
  ==_refl, All, Bool, Bool-cases, List, OnOk, OnOk->>=, OnOk-map, Option-cases, [], any, ap, arith,
  find, find-update_where, inl, inr, none, of_ok, ok, refl, some, sum, sum_where-append, sym, true,
  ℕ, ◌+◌, ◌==◌, ◌∙◌, ◌∷◌, ◌≡◌,
}
use minotari_cli.Db.BalanceChanges.{insert_balance_change}
use minotari_cli.Db.Inputs.{insert_input, spends}
use minotari_cli.Db.Outputs.{
  get_output_info_by_hash_for_account, output_info, set_status, update_output_status,
}
use minotari_cli.Db.Tables.{BalanceChangeRow, Db, InputRow, WalletOutput}
use minotari_cli.Ledger.Spend.{has_hash}
use minotari_cli.Ledger.Totals.{debits, of_account}
use minotari_cli.Models.OutputStatus.{OutputStatus}
use minotari_cli.Scan.BlockProcessor.{Processor, make_balance_change_for_input}
use minotari_cli.Scan.BlockProcessor.Steps.{Env, input_loop, process_inputs, process_spent}
use minotari_cli.Scan.Blocks.{BlockScanResult}

find-any :
    (p : InputRow → Bool) (is : List InputRow)
    → any p is ≡ true
    → (i : InputRow) × (find p is ≡ some i)
find-any p [] y = cc
find-any p (i ∷ is) y = elim (Bool-cases (p i)) [
  | inl h ↦ (i, rw h refl)
  | inr n ↦ let (j, e) = find-any p is (ground (arith, y, n)) in (j, rw n e)
]

-- the status of an output is not among what is told of it
info-set_status :
    (a h k : ℕ) (status : OutputStatus) (db : Db)
    → get_output_info_by_hash_for_account a h (update_output_status k status db)
      ≡ get_output_info_by_hash_for_account a h db
unfolding get_output_info_by_hash_for_account update_output_status set_status
info-set_status a h k status db =
    find-update_where (has_hash a h) (λ o. o.id == k) (set_status status) (Option.map output_info)
      db.outputs (λ o. refl) (λ o. refl)

-- what processing an input again has done
record IsDebitedAgain (a : ℕ) (o : WalletOutput) (db db' : Db) : Type 0 where
  pub infos :
      (h : ℕ)
      → get_output_info_by_hash_for_account a h db' ≡ get_output_info_by_hash_for_account a h db
  pub ins : db'.inputs ≡ db.inputs
  pub more : debits a db'.balance_changes ≡ debits a db.balance_changes + o.value

process_spent-IsDebitedAgain :
    (env : Env) (block : BlockScanResult) (a k : ℕ) (o : WalletOutput) (p : Processor) (db : Db)
    → any (spends k) db.inputs ≡ true
    → OnOk (λ r. IsDebitedAgain a o db r.1) (process_spent env block a k o p db)
unfolding process_spent insert_input insert_balance_change make_balance_change_for_input
    update_output_status get_output_info_by_hash_for_account
process_spent-IsDebitedAgain env block a k o p db y =
    let (i, found) = find-any (spends k) db.inputs y in
    elim (Option-cases (env.ext.from_timestamp block.mined_timestamp)) [
      | inl e ↦ rw e tt
      | inr (t, e) ↦
          rw (e, y, found)
            (record {
              infos = λ h. info-set_status a h k OutputStatus.spent db;
              ins = refl;
              more =
                  sum_where-append (of_account a) (λ (c : BalanceChangeRow). c.balance_debit)
                    db.balance_changes _
                  ∙ rw (==_refl a) (omega arith);
            })
    ]

-- the value of the account's live output with a hash, nothing if it has none
abbrev pub value_named : ℕ → Db → ℕ → ℕ
value_named a db h = elim (get_output_info_by_hash_for_account a h db) [
  | none ↦ 0
  | some (_, _, o) ↦ o.value
]

-- a live input spends the account's live output with a hash, if it has one
abbrev pub is_spent_already : ℕ → Db → ℕ → Bool
is_spent_already a db h = elim (get_output_info_by_hash_for_account a h db) [
  | none ↦ true
  | some (k, _, _) ↦ any (spends k) db.inputs
]

-- what a loop over some inputs has done to the tables that a block started from
AreDebitedAgain : ℕ → List ℕ → Db → Db → Db → Type 0
AreDebitedAgain a hs start db db' =
    (db'.inputs ≡ start.inputs)
    × (debits a db'.balance_changes ≡ debits a db.balance_changes + sum (value_named a start) hs)

module _ (env : Env) (block : BlockScanResult) (a : ℕ) (start : Db) where
  input_loop-again :
      (hs : List ℕ) (p : Processor) (db : Db)
      → ((h : ℕ)
          → get_output_info_by_hash_for_account a h db
            ≡ get_output_info_by_hash_for_account a h start)
      → db.inputs ≡ start.inputs
      → All (λ h. is_spent_already a start h ≡ true) hs
      → OnOk (λ r. AreDebitedAgain a hs start db r.1) (input_loop env block a hs p db)
  unfolding input_loop AreDebitedAgain
  input_loop-again [] p db _ e _ = (e, omega arith)
  input_loop-again (h ∷ hs) p db infos e (y, ys) =
      elim (Option-cases (get_output_info_by_hash_for_account a h start)) [
        | inl n ↦
            let v : value_named a start h ≡ 0 = rw (n, value_named) refl in
            rw (infos h ∙ n, input_loop)
              (OnOk-map (input_loop env block a hs p db) (λ r g. (g.0, omega (arith, g.1, v)))
                (input_loop-again hs p db infos e ys))
        | inr ((k, id, o), f) ↦
            let v : value_named a start h ≡ o.value = rw (f, value_named) refl in
            let told : is_spent_already a start h ≡ any (spends k) start.inputs =
              rw (f, is_spent_already) refl in
            let spent : any (spends k) db.inputs ≡ true = ap (any (spends k)) e ∙ sym told ∙ y in
            rw (infos h ∙ f, input_loop)
              (OnOk->>= (λ r. IsDebitedAgain a o db r.1) _ (process_spent env block a k o p db) _
                (process_spent-IsDebitedAgain env block a k o p db spent)
                (λ r q.
                  OnOk-map (input_loop env block a hs r.0 r.1)
                    (λ r' g. (g.0, omega (arith, g.1, q.more, v)))
                    (input_loop-again hs r.0 r.1 (λ j. q.infos j ∙ infos j) (q.ins ∙ e) ys)))
      ]

-- An input is not booked once only: where every output of the account that a block spends is spent
-- already by a live input, as when the block is scanned a second time, the processing of the block's
-- inputs, if it succeeds, adds the values of these outputs to the account's debits again, and no
-- input.
pub process_inputs-again :
    (env : Env) (block : BlockScanResult) (a : ℕ) (p p' : Processor) (db db' : Db)
    → All (λ h. is_spent_already a db h ≡ true) block.inputs
    → process_inputs env block a p db ≡ ok (p', db')
    → (db'.inputs ≡ db.inputs)
      × (debits a db'.balance_changes
          ≡ debits a db.balance_changes + sum (value_named a db) block.inputs)
unfolding process_inputs AreDebitedAgain
process_inputs-again env block a p p' db db' y e =
    of_ok (λ r. AreDebitedAgain a block.inputs db db r.1) _
      (input_loop-again env block a db block.inputs p db (λ h. refl) refl y) e
