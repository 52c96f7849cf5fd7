-- ===== src/Db/Inputs.antt =====
-- db/inputs.rs: the inputs of mined transactions that spent the wallet's outputs.
use minotari_cli.Base.{
  Bool, List, Option, Result, [], any, decoding, false, find, if◌then◌else◌, is_none, leb, no_rows,
  none, ok, or_fail, select, some, suc, true, update_where, ℕ, ◌&&◌, ◌++◌, ◌==◌, ◌>>=◌, ◌∷◌,
}
use minotari_cli.Db.BalanceChanges.{
  get_balance_change_id_by_input, insert_balance_change, mark_original,
}
use minotari_cli.Db.Tables.{Db, InputRow, OutputRow}
use minotari_cli.Models.{BalanceChange, input_reversal}

unfoldable pub get_input_by_id : ℕ → Db → Option InputRow
get_input_by_id id db = find (λ i. i.id == id) db.inputs

-- WHERE output_id = :output_id AND deleted_at IS NULL
abbrev pub spends : ℕ → InputRow → Bool
spends output_id i = (i.output_id == output_id) && is_none i.deleted_at

-- INSERT OR IGNORE under the unique index on the output of a live input, then the id of that input.
unfoldable pub insert_input : (ℕ → Option ℕ) → ℕ → ℕ → ℕ → ℕ → ℕ → Db → Result (ℕ × Db)
insert_input from_timestamp account output_id height hash mined_timestamp db = do
  timestamp ← or_fail (from_timestamp mined_timestamp) decoding
  let i : InputRow = record {
    id = db.next_input_id;
    account_id = account;
    output_id = output_id;
    mined_in_block_hash = hash;
    mined_in_block_height = height;
    mined_timestamp = timestamp;
    deleted_at = none;
    deleted_in_block_height = none;
  }
  let db' : Db =
      if any (spends output_id) db.inputs
      then db
      else record db { inputs = db.inputs ++ i ∷ []; next_input_id = suc db.next_input_id }
  input ← or_fail (find (spends output_id) db'.inputs) no_rows
  ok (input.id, db')

-- WHERE account_id = :account_id AND mined_in_block_height >= :height AND deleted_at IS NULL
abbrev pub input_from_height : ℕ → ℕ → InputRow → Bool
input_from_height account height i =
    (i.account_id == account) && leb height i.mined_in_block_height && is_none i.deleted_at

-- `InputToDelete`: a live input joined with the output that it spends.
pub record InputToDelete : Type 0 where
  pub input_id : ℕ
  pub output_id : ℕ
  pub output_value : ℕ

-- The JOIN on the primary key of `outputs`: an input meets at most one output.
unfoldable pub join_outputs : List OutputRow → List InputRow → List InputToDelete
join_outputs outputs [] = []
join_outputs outputs (i ∷ is) =
    let rest = join_outputs outputs is in
    elim (find (λ o. o.id == i.output_id) outputs) [
      | none ↦ rest
      | some o ↦ record { input_id = i.id; output_id = o.id; output_value = o.value } ∷ rest
    ]

unfoldable pub input_reversal_change : ℕ → ℕ → ℕ → InputToDelete → Option ℕ → BalanceChange
input_reversal_change account height now row original = record {
  account_id = account;
  caused_by_output_id = some row.output_id;
  caused_by_input_id = some row.input_id;
  description = input_reversal height;
  balance_credit = row.output_value;
  balance_debit = 0;
  effective_date = now;
  effective_height = height;
  claimed_recipient_address = none;
  claimed_sender_address = none;
  memo_parsed = none;
  memo_hex = none;
  claimed_fee = none;
  claimed_amount = none;
  is_reversal = true;
  reversal_of_balance_change_id = original;
  is_reversed = false;
}

-- the loop over the inputs to delete
unfoldable pub reverse_inputs : ℕ → ℕ → ℕ → List InputToDelete → Db → Db
unfolding input_reversal_change
reverse_inputs account height now [] db = db
reverse_inputs account height now (row ∷ rows) db =
    let original = get_balance_change_id_by_input row.input_id db in
    let change = input_reversal_change account height now row original in
    reverse_inputs account height now rows
      (insert_balance_change change (mark_original original db)).1

unfoldable pub delete_input : ℕ → ℕ → InputRow → InputRow
delete_input height now i = record i {
  deleted_at = some now;
  deleted_in_block_height = some height;
}

unfoldable pub soft_delete_inputs_from_height : ℕ → ℕ → ℕ → Db → Db
unfolding join_outputs reverse_inputs delete_input
soft_delete_inputs_from_height account height now db =
    let rows = join_outputs db.outputs (select (input_from_height account height) db.inputs) in
    let db' = reverse_inputs account height now rows db in
    record db' {
      inputs = update_where (input_from_height account height) (delete_input height now) db'.inputs;
    }
