-- ===== src/Ledger/Reversals.antt =====
-- The loops of minotari/src/db/outputs.rs and inputs.rs that book reversals, seen from the ledger.
use minotari_cli.Base.{
  List, Option, [], ap, arith, find-update_where, if◌then◌else◌, none, refl, some, sum, sum_where,
  sum_where-append, sum_where-update_where, update_where, ℕ, ◌+◌, ◌==◌, ◌∙◌, ◌∷◌, ◌≡◌,
}
use minotari_cli.Db.BalanceChanges.{
  get_balance_change_id_by_input, get_balance_change_id_by_output, insert_balance_change,
  mark_original, set_reversed,
}
use minotari_cli.Db.Inputs.{
  InputToDelete, delete_input, input_from_height, input_reversal_change, join_outputs,
  reverse_inputs,
}
use minotari_cli.Db.Outputs.{
  delete_output, output_from_height, output_reversal_change, reverse_outputs,
}
use minotari_cli.Db.Tables.{BalanceChangeRow, Db, InputRow, OutputRow}
use minotari_cli.Ledger.Totals.{
  credits, debits, of_account, received, spent_value, value_of, value_or_zero,
}
use minotari_cli.Models.{BalanceChange}

-- what a deletion for account `a` books for account `b`
abbrev pub share : ℕ → ℕ → ℕ → ℕ
share a b n = if a == b then n else 0

pub received-delete :
    (b a h now : ℕ) (os : List OutputRow)
    → received b os
      ≡ received b (update_where (output_from_height a h) (delete_output h now) os)
        + share a b (sum_where (output_from_height a h) (λ o. o.value) os)
unfolding delete_output
received-delete b a h now [] = ground arith
received-delete b a h now (o ∷ os) = ground (arith, received-delete b a h now os)

-- The value of an output stays what it was when outputs are deleted.
pub value_of-delete :
    (a h now k : ℕ) (os : List OutputRow)
    → value_of (update_where (output_from_height a h) (delete_output h now) os) k ≡ value_of os k
unfolding delete_output
value_of-delete a h now k os =
    find-update_where (λ o. o.id == k) (output_from_height a h) (delete_output h now) value_or_zero
      os (λ o. refl) (λ o. refl)

pub spent_value-delete :
    (b a h now : ℕ) (os : List OutputRow) (is : List InputRow)
    → spent_value b os is
      ≡ spent_value b os (update_where (input_from_height a h) (delete_input h now) is)
        + share a b (sum_where (input_from_height a h) (λ i. value_of os i.output_id) is)
unfolding delete_input
spent_value-delete b a h now os [] = ground arith
spent_value-delete b a h now os (i ∷ is) = ground (arith, spent_value-delete b a h now os is)

pub spent_value-outputs :
    (b : ℕ) (os os' : List OutputRow) (is : List InputRow)
    → ((k : ℕ) → value_of os' k ≡ value_of os k)
    → spent_value b os' is ≡ spent_value b os is
spent_value-outputs b os os' [] h = refl
spent_value-outputs b os os' (i ∷ is) h =
    ground (arith, h i.output_id, spent_value-outputs b os os' is h)

-- The join finds the value of each input's output, and drops an input whose output is gone.
pub sum-join_outputs :
    (os : List OutputRow) (is : List InputRow)
    → sum (λ r. r.output_value) (join_outputs os is) ≡ sum (λ i. value_of os i.output_id) is
unfolding join_outputs
sum-join_outputs os [] = refl
sum-join_outputs os (i ∷ is) = ground (arith, sum-join_outputs os is)

pub credits-mark :
    (b id : ℕ) (cs : List BalanceChangeRow)
    → credits b (update_where (λ c. c.id == id) set_reversed cs) ≡ credits b cs
unfolding set_reversed
credits-mark b id cs =
    sum_where-update_where (of_account b) (λ c. c.balance_credit) _ set_reversed cs (λ c. refl)
      (λ c. refl)

pub debits-mark :
    (b id : ℕ) (cs : List BalanceChangeRow)
    → debits b (update_where (λ c. c.id == id) set_reversed cs) ≡ debits b cs
unfolding set_reversed
debits-mark b id cs =
    sum_where-update_where (of_account b) (λ c. c.balance_debit) _ set_reversed cs (λ c. refl)
      (λ c. refl)

-- What an operation on the ledger leaves alone: every other table.
abbrev OnlyLedger : Db → Db → Type 0
OnlyLedger db db' = db' ≡ record db {
  balance_changes = db'.balance_changes;
  next_balance_change_id = db'.next_balance_change_id;
}

pub mark_original-OnlyLedger : (o : Option ℕ) (db : Db) → OnlyLedger db (mark_original o db)
unfolding mark_original
mark_original-OnlyLedger none db = refl
mark_original-OnlyLedger (some id) db = refl

pub credits-mark_original :
    (b : ℕ) (o : Option ℕ) (db : Db)
    → credits b (mark_original o db).balance_changes ≡ credits b db.balance_changes
unfolding mark_original
credits-mark_original b none db = refl
credits-mark_original b (some id) db = credits-mark b id db.balance_changes

pub debits-mark_original :
    (b : ℕ) (o : Option ℕ) (db : Db)
    → debits b (mark_original o db).balance_changes ≡ debits b db.balance_changes
unfolding mark_original
debits-mark_original b none db = refl
debits-mark_original b (some id) db = debits-mark b id db.balance_changes

pub OnlyLedger-trans : (a b c : Db) → OnlyLedger a b → OnlyLedger b c → OnlyLedger a c
OnlyLedger-trans a b c p q =
    q
    ∙ ap {B = Db}
        (λ d. record d {
          balance_changes = c.balance_changes;
          next_balance_change_id = c.next_balance_change_id;
        })
        p

-- One step of a reversal loop: mark the original and book the change.
abbrev book : Option ℕ → BalanceChange → Db → Db
book o c db = (insert_balance_change c (mark_original o db)).1

pub book-OnlyLedger : (o : Option ℕ) (c : BalanceChange) (db : Db) → OnlyLedger db (book o c db)
unfolding insert_balance_change
book-OnlyLedger o c db =
    OnlyLedger-trans db (mark_original o db) _ (mark_original-OnlyLedger o db) refl

pub credits-book :
    (b : ℕ) (o : Option ℕ) (c : BalanceChange) (db : Db)
    → credits b (book o c db).balance_changes
      ≡ credits b db.balance_changes + share c.account_id b c.balance_credit
unfolding insert_balance_change
credits-book b o c db = ground (
  arith,
  sum_where-append (of_account b) (λ (x : BalanceChangeRow). x.balance_credit)
      (mark_original o db).balance_changes
      (record { id = (mark_original o db).next_balance_change_id; change = c } ∷ []),
  credits-mark_original b o db,
)

pub debits-book :
    (b : ℕ) (o : Option ℕ) (c : BalanceChange) (db : Db)
    → debits b (book o c db).balance_changes
      ≡ debits b db.balance_changes + share c.account_id b c.balance_debit
unfolding insert_balance_change
debits-book b o c db = ground (
  arith,
  sum_where-append (of_account b) (λ (x : BalanceChangeRow). x.balance_debit)
      (mark_original o db).balance_changes
      (record { id = (mark_original o db).next_balance_change_id; change = c } ∷ []),
  debits-mark_original b o db,
)

-- The loop over the outputs books their values as debits of the account.
pub reverse_outputs-OnlyLedger :
    (a h now : ℕ) (rows : List OutputRow) (db : Db)
    → OnlyLedger db (reverse_outputs a h now rows db)
unfolding reverse_outputs
reverse_outputs-OnlyLedger a h now [] db = refl
reverse_outputs-OnlyLedger a h now (row ∷ rows) db =
    let original = get_balance_change_id_by_output row.id db in
    let change = output_reversal_change a h now row original in
    OnlyLedger-trans db (book original change db) _ (book-OnlyLedger original change db)
      (reverse_outputs-OnlyLedger a h now rows (book original change db))

pub credits-reverse_outputs :
    (b a h now : ℕ) (rows : List OutputRow) (db : Db)
    → credits b (reverse_outputs a h now rows db).balance_changes ≡ credits b db.balance_changes
unfolding reverse_outputs
credits-reverse_outputs b a h now [] db = refl
credits-reverse_outputs b a h now (row ∷ rows) db =
    let original = get_balance_change_id_by_output row.id db in
    let change = output_reversal_change a h now row original in
    ground (
      arith,
      credits-book b original change db,
      credits-reverse_outputs b a h now rows (book original change db),
    )

pub debits-reverse_outputs :
    (b a h now : ℕ) (rows : List OutputRow) (db : Db)
    → debits b (reverse_outputs a h now rows db).balance_changes
      ≡ debits b db.balance_changes + share a b (sum (λ o. o.value) rows)
unfolding reverse_outputs
debits-reverse_outputs b a h now [] db = ground arith
debits-reverse_outputs b a h now (row ∷ rows) db =
    let original = get_balance_change_id_by_output row.id db in
    let change = output_reversal_change a h now row original in
    ground (
      arith,
      debits-book b original change db,
      debits-reverse_outputs b a h now rows (book original change db),
    )

-- The loop over the inputs books the values of their outputs as credits.
pub reverse_inputs-OnlyLedger :
    (a h now : ℕ) (rows : List InputToDelete) (db : Db)
    → OnlyLedger db (reverse_inputs a h now rows db)
unfolding reverse_inputs
reverse_inputs-OnlyLedger a h now [] db = refl
reverse_inputs-OnlyLedger a h now (row ∷ rows) db =
    let original = get_balance_change_id_by_input row.input_id db in
    let change = input_reversal_change a h now row original in
    OnlyLedger-trans db (book original change db) _ (book-OnlyLedger original change db)
      (reverse_inputs-OnlyLedger a h now rows (book original change db))

pub credits-reverse_inputs :
    (b a h now : ℕ) (rows : List InputToDelete) (db : Db)
    → credits b (reverse_inputs a h now rows db).balance_changes
      ≡ credits b db.balance_changes + share a b (sum (λ r. r.output_value) rows)
unfolding reverse_inputs
credits-reverse_inputs b a h now [] db = ground arith
credits-reverse_inputs b a h now (row ∷ rows) db =
    let original = get_balance_change_id_by_input row.input_id db in
    let change = input_reversal_change a h now row original in
    ground (
      arith,
      credits-book b original change db,
      credits-reverse_inputs b a h now rows (book original change db),
    )

pub debits-reverse_inputs :
    (b a h now : ℕ) (rows : List InputToDelete) (db : Db)
    → debits b (reverse_inputs a h now rows db).balance_changes ≡ debits b db.balance_changes
unfolding reverse_inputs
debits-reverse_inputs b a h now [] db = refl
debits-reverse_inputs b a h now (row ∷ rows) db =
    let original = get_balance_change_id_by_input row.input_id db in
    let change = input_reversal_change a h now row original in
    ground (
      arith,
      debits-book b original change db,
      debits-reverse_inputs b a h now rows (book original change db),
    )
