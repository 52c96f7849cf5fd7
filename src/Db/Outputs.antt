-- ===== src/Db/Outputs.antt =====
-- db/outputs.rs: the wallet's outputs, their confirmation, locks and deletion.
use mathlib.Core.Option
use minotari_cli.Models.OutputStatus
use minotari_cli.Base.{
  Bool, List, Option, Result, [], any, constraint_violation, decoding, err, false, find,
  if◌then◌else◌, is_none, is_value, leb, map, none, not, ok, or_fail, order_desc, select, some, suc,
  sum_where, true, update_where, ℕ, ◌&&◌, ◌++◌, ◌-◌, ◌==◌, ◌>>=◌, ◌||◌, ◌∷◌,
}
use minotari_cli.Db.BalanceChanges.{
  get_balance_change_id_by_output, insert_balance_change, mark_original,
}
use minotari_cli.Db.Tables.{Db, OutputRow, WalletOutput}
use minotari_cli.Models.{BalanceChange, output_reversal}
use minotari_cli.Models.OutputStatus.{OutputStatus}

-- What the wallet takes from other crates: `TxId::new_deterministic` on a view key and an output
-- hash, `generate_payment_reference` on a block hash and an output hash, and
-- `DateTime::from_timestamp`.
pub record External : Type 0 where
  pub new_deterministic : ℕ → ℕ → ℕ
  pub generate_payment_reference : ℕ → ℕ → ℕ
  pub from_timestamp : ℕ → Option ℕ

-- the unique indexes on the hash and the tx_id of a live output
abbrev pub clashes : ℕ → ℕ → OutputRow → Bool
clashes hash tx_id o = is_none o.deleted_at && ((o.output_hash == hash) || (o.tx_id == tx_id))

-- The row that an INSERT writes; the other columns have their defaults.
new_output : ℕ → ℕ → ℕ → ℕ → WalletOutput → ℕ → ℕ → ℕ → Option ℕ → Option ℕ → ℕ → Bool → OutputRow
new_output id account tx_id hash output height block_hash timestamp memo_parsed memo_hex payref
      is_burn =
    record {
      id = id;
      account_id = account;
      tx_id = tx_id;
      output_hash = hash;
      mined_in_block_hash = block_hash;
      mined_in_block_height = height;
      value = output.value;
      wallet_output = output;
      mined_timestamp = timestamp;
      confirmed_height = none;
      confirmed_hash = none;
      memo_parsed = memo_parsed;
      memo_hex = memo_hex;
      status = OutputStatus.unspent;
      locked_at = none;
      locked_by_request_id = none;
      deleted_at = none;
      deleted_in_block_height = none;
      payment_reference = some payref;
      is_burn = is_burn;
    }

unfoldable pub insert_output :
    External
    → ℕ
    → ℕ
    → ℕ
    → WalletOutput
    → ℕ
    → ℕ
    → ℕ
    → Option ℕ
    → Option ℕ
    → ℕ
    → Bool
    → Db
    → Result (ℕ × Db)
unfolding new_output
insert_output ext account view_key hash output height block_hash mined_timestamp memo_parsed
      memo_hex payref is_burn db =
    do
      let tx_id = ext.new_deterministic view_key output.output_hash
      timestamp ← or_fail (ext.from_timestamp mined_timestamp) decoding
      let row : OutputRow =
          new_output db.next_output_id account tx_id hash output height block_hash timestamp
            memo_parsed memo_hex payref is_burn
      (if any (clashes hash tx_id) db.outputs
          then err constraint_violation
          else ok (
            db.next_output_id,
            record db { outputs = db.outputs ++ row ∷ []; next_output_id = suc db.next_output_id },
          ))

-- id, tx_id and wallet output of a row
abbrev pub output_info : OutputRow → ℕ × ℕ × WalletOutput
output_info o = (o.id, o.tx_id, o.wallet_output)

unfoldable get_output_info_by_hash : ℕ → Db → Option (ℕ × ℕ × WalletOutput)
get_output_info_by_hash hash db =
    Option.map output_info (find (λ o. (o.output_hash == hash) && is_none o.deleted_at) db.outputs)

unfoldable pub get_output_info_by_hash_for_account : ℕ → ℕ → Db → Option (ℕ × ℕ × WalletOutput)
get_output_info_by_hash_for_account account hash db = Option.map output_info (
    find (λ o. (o.account_id == account) && (o.output_hash == hash) && is_none o.deleted_at)
      db.outputs)

-- The rows that have reached the depth and are not yet marked.
abbrev pub is_unconfirmed_at : ℕ → ℕ → OutputRow → Bool
is_unconfirmed_at account min_height o =
    (o.account_id == account)
    && leb o.mined_in_block_height min_height
    && is_none o.confirmed_height
    && is_none o.deleted_at

unfoldable pub get_unconfirmed_outputs : ℕ → ℕ → ℕ → Db → List OutputRow
get_unconfirmed_outputs account current_height confirmation_blocks db =
    select (is_unconfirmed_at account (current_height - confirmation_blocks)) db.outputs

unfoldable pub confirm : ℕ → ℕ → OutputRow → OutputRow
confirm height hash o = record o { confirmed_height = some height; confirmed_hash = some hash }

unfoldable pub mark_output_confirmed : ℕ → ℕ → ℕ → Db → Db
unfolding confirm
mark_output_confirmed hash height block_hash db = record db {
  outputs = update_where (λ o. o.output_hash == hash) (confirm height block_hash) db.outputs;
}

-- WHERE account_id = :account_id AND mined_in_block_height >= :height AND deleted_at IS NULL
abbrev pub output_from_height : ℕ → ℕ → OutputRow → Bool
output_from_height account height o =
    (o.account_id == account) && leb height o.mined_in_block_height && is_none o.deleted_at

unfoldable pub output_reversal_change : ℕ → ℕ → ℕ → OutputRow → Option ℕ → BalanceChange
output_reversal_change account height now row original = record {
  account_id = account;
  caused_by_output_id = some row.id;
  caused_by_input_id = none;
  description = output_reversal height;
  balance_credit = 0;
  balance_debit = row.value;
  effective_date = now;
  effective_height = height;
  claimed_recipient_address = none;
  claimed_sender_address = none;
  memo_parsed = none;
  memo_hex = none;
  claimed_fee = none;
  claimed_amount = none;
  is_reversal = true;
  reversal_of_balance_change_id = original;
  is_reversed = false;
}

-- the loop over the outputs to delete
unfoldable pub reverse_outputs : ℕ → ℕ → ℕ → List OutputRow → Db → Db
unfolding output_reversal_change
reverse_outputs account height now [] db = db
reverse_outputs account height now (row ∷ rows) db =
    let original = get_balance_change_id_by_output row.id db in
    let change = output_reversal_change account height now row original in
    reverse_outputs account height now rows
      (insert_balance_change change (mark_original original db)).1

unfoldable pub delete_output : ℕ → ℕ → OutputRow → OutputRow
delete_output height now o = record o {
  deleted_at = some now;
  deleted_in_block_height = some height;
  payment_reference = none;
}

unfoldable pub soft_delete_outputs_from_height : ℕ → ℕ → ℕ → Db → Db
unfolding reverse_outputs delete_output
soft_delete_outputs_from_height account height now db =
    let db' =
      reverse_outputs account height now (select (output_from_height account height) db.outputs)
        db in
    record db' {
      outputs =
          update_where (output_from_height account height) (delete_output height now) db'.outputs;
    }

unfoldable pub set_status : OutputStatus → OutputRow → OutputRow
set_status status o = record o { status = status }

unfoldable pub update_output_status : ℕ → OutputStatus → Db → Db
unfolding set_status
update_output_status id status db = record db {
  outputs = update_where (λ o. o.id == id) (set_status status) db.outputs;
}

unfoldable pub row_locked : ℕ → ℕ → OutputRow → OutputRow
row_locked request locked_at o = record o {
  status = OutputStatus.locked;
  locked_by_request_id = some request;
  locked_at = some locked_at;
}

-- only an output that is unspent is locked
unfoldable pub lock_output : ℕ → ℕ → ℕ → Db → Db
unfolding row_locked
lock_output id request locked_at db = record db {
  outputs =
      update_where (λ o. (o.id == id) && OutputStatus.eqb o.status OutputStatus.unspent)
        (row_locked request locked_at) db.outputs;
}

-- `DbWalletOutput`
pub record DbWalletOutput : Type 0 where
  pub id : ℕ
  pub tx_id : ℕ
  pub output : WalletOutput

to_db_wallet_output : OutputRow → DbWalletOutput
to_db_wallet_output o = record { id = o.id; tx_id = o.tx_id; output = o.wallet_output }

unfoldable pub get_output_by_id : ℕ → Db → Option OutputRow
get_output_by_id id db = find (λ o. o.id == id) db.outputs

-- an output that may be spent, mined at `min_height` or below
abbrev is_spendable : ℕ → ℕ → OutputRow → Bool
is_spendable account min_height o =
    (o.account_id == account)
    && OutputStatus.eqb o.status OutputStatus.unspent
    && leb o.mined_in_block_height min_height
    && is_none o.deleted_at
    && not o.is_burn

unfoldable pub fetch_unspent_outputs : ℕ → ℕ → Db → List DbWalletOutput
unfolding to_db_wallet_output
fetch_unspent_outputs account min_height db =
    map to_db_wallet_output
      (order_desc (λ o. o.value) (select (is_spendable account min_height) db.outputs))

abbrev pub is_locked_by : ℕ → OutputRow → Bool
is_locked_by request o =
    is_value o.locked_by_request_id request && OutputStatus.eqb o.status OutputStatus.locked

unfoldable pub row_unlocked : OutputRow → OutputRow
row_unlocked o = record o {
  status = OutputStatus.unspent;
  locked_at = none;
  locked_by_request_id = none;
}

unfoldable pub unlock_outputs_for_request : ℕ → Db → Db
unfolding row_unlocked
unlock_outputs_for_request request db = record db {
  outputs = update_where (is_locked_by request) row_unlocked db.outputs;
}

unfoldable pub fetch_outputs_by_lock_request_id : ℕ → Db → List DbWalletOutput
unfolding to_db_wallet_output
fetch_outputs_by_lock_request_id request db =
    map to_db_wallet_output (select (λ o. is_value o.locked_by_request_id request) db.outputs)

-- the outputs that count towards the totals
abbrev is_counted : ℕ → OutputRow → Bool
is_counted account o = (o.account_id == account) && is_none o.deleted_at && not o.is_burn

abbrev is_locked : OutputRow → Bool
is_locked o = OutputStatus.eqb o.status OutputStatus.locked

abbrev is_unconfirmed : OutputRow → Bool
is_unconfirmed o = is_none o.confirmed_height

-- locked, unconfirmed, and both
unfoldable pub get_output_totals_for_account : ℕ → Db → ℕ × ℕ × ℕ
get_output_totals_for_account account db = (
  sum_where (λ o. is_counted account o && is_locked o) (λ o. o.value) db.outputs,
  sum_where (λ o. is_counted account o && is_unconfirmed o) (λ o. o.value) db.outputs,
  sum_where (λ o. is_counted account o && (is_locked o && is_unconfirmed o)) (λ o. o.value)
      db.outputs,
)

-- `ReorgOutputInfo`
unfoldable pub get_active_outputs_from_height : ℕ → ℕ → Db → List OutputRow
get_active_outputs_from_height account height db =
    select (output_from_height account height) db.outputs

unfoldable pub get_total_unspent_balance : ℕ → Db → ℕ
get_total_unspent_balance account db =
    sum_where
      (λ o.
        (o.account_id == account)
        && OutputStatus.eqb o.status OutputStatus.unspent
        && is_none o.deleted_at
        && not o.is_burn)
      (λ o. o.value) db.outputs
