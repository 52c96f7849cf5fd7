-- ===== src/Db/BalanceChanges.antt =====
-- db/balance_changes.rs: the ledger of credits and debits.
use minotari_cli.Base.{
  Bool, List, Option, [], any, first, if◌then◌else◌, is_value, max_where, none, not, order_asc,
  order_desc, select, some, suc, sum_where, true, update_where, ℕ, ◌&&◌, ◌++◌, ◌==◌, ◌∷◌,
}
use minotari_cli.Db.Tables.{BalanceChangeRow, Db}
use minotari_cli.Models.{BalanceChange}

unfoldable pub insert_balance_change : BalanceChange → Db → ℕ × Db
insert_balance_change c db = (
  db.next_balance_change_id,
  record db {
    balance_changes =
        db.balance_changes ++ record { id = db.next_balance_change_id; change = c } ∷ [];
    next_balance_change_id = suc db.next_balance_change_id;
  },
)

unfoldable get_all_balance_changes_by_account_id : ℕ → Db → List BalanceChangeRow
get_all_balance_changes_by_account_id account db =
    order_asc (λ c. c.effective_height) (select (λ c. c.account_id == account) db.balance_changes)

-- without what has been reversed, and without the reversals
unfoldable pub get_all_active_balance_changes_by_account_id : ℕ → Db → List BalanceChangeRow
get_all_active_balance_changes_by_account_id account db =
    order_asc (λ c. c.effective_height)
      (select (λ c. (c.account_id == account) && not c.is_reversed && not c.is_reversal)
        db.balance_changes)

-- `DbBalanceAggregates`
pub record DbBalanceAggregates : Type 0 where
  pub total_credits : Option ℕ
  pub total_debits : Option ℕ
  pub max_height : Option ℕ
  pub max_date : Option ℕ

-- SUM over the rows that pass, NULL where there is none
abbrev pub sum_or_null :
    (BalanceChangeRow → Bool) → (BalanceChangeRow → ℕ) → List BalanceChangeRow → Option ℕ
sum_or_null p f cs = if any p cs then some (sum_where p f cs) else none

unfoldable pub get_balance_aggregates_for_account : ℕ → Db → DbBalanceAggregates
get_balance_aggregates_for_account account db = record {
  total_credits = sum_or_null of_account (λ c. c.balance_credit) db.balance_changes;
  total_debits = sum_or_null of_account (λ c. c.balance_debit) db.balance_changes;
  max_height = max_where of_account (λ c. c.effective_height) db.balance_changes;
  max_date = max_where of_account (λ c. c.effective_date) db.balance_changes;
}
  where
    of_account : BalanceChangeRow → Bool
    of_account c = c.account_id == account

-- the newest of the rows that are no reversals and not reversed
pub newest_id : (BalanceChangeRow → Bool) → List BalanceChangeRow → Option ℕ
newest_id p cs =
    elim (first
      (order_desc (λ c. c.id) (select (λ c. p c && not c.is_reversal && not c.is_reversed) cs))) [
        | none ↦ none
        | some c ↦ some c.id
      ]

unfoldable pub get_balance_change_id_by_output : ℕ → Db → Option ℕ
unfolding newest_id
get_balance_change_id_by_output output_id db =
    newest_id (λ c. is_value c.caused_by_output_id output_id) db.balance_changes

unfoldable pub get_balance_change_id_by_input : ℕ → Db → Option ℕ
unfolding newest_id
get_balance_change_id_by_input input_id db =
    newest_id (λ c. is_value c.caused_by_input_id input_id) db.balance_changes

unfoldable pub set_reversed : BalanceChangeRow → BalanceChangeRow
set_reversed c = record c { change = record (c.change) { is_reversed = true } }

unfoldable mark_balance_change_as_reversed : ℕ → Db → Db
unfolding set_reversed
mark_balance_change_as_reversed id db = record db {
  balance_changes = update_where (λ c. c.id == id) set_reversed db.balance_changes;
}

-- "Find and mark the original balance change as reversed"
unfoldable pub mark_original : Option ℕ → Db → Db
unfolding mark_balance_change_as_reversed
mark_original none db = db
mark_original (some id) db = mark_balance_change_as_reversed id db
