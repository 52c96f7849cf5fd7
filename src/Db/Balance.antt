-- ===== src/Db/Balance.antt =====
-- `get_balance` of db/accounts.rs: the balance that the API and the webhooks report. A sum that
-- saturates does so at 2^64 - 1.
use minotari_cli.Base.{Option, min, none, some, ℕ, ◌+◌, ◌-◌, ◌^◌}
use minotari_cli.Db.BalanceChanges.{get_balance_aggregates_for_account}
use minotari_cli.Db.Outputs.{get_output_totals_for_account}
use minotari_cli.Db.Tables.{Db}

abbrev u64_max : ℕ
u64_max = 2 ^ 64 - 1

unfoldable saturating_add : ℕ → ℕ → ℕ
saturating_add a b = min (a + b) u64_max

abbrev pub or_zero : Option ℕ → ℕ
or_zero none = 0
or_zero (some n) = n

-- `AccountBalance`
pub record AccountBalance : Type 0 where
  pub total : ℕ
  pub available : ℕ
  pub locked : ℕ
  pub unconfirmed : ℕ
  pub total_credits : Option ℕ
  pub total_debits : Option ℕ
  pub max_height : Option ℕ
  pub max_date : Option ℕ

unfoldable pub get_balance : ℕ → Db → AccountBalance
unfolding saturating_add
get_balance account db =
    let agg = get_balance_aggregates_for_account account db in
    let (locked_amount, unconfirmed_amount, both) = get_output_totals_for_account account db in
    let credits : ℕ = or_zero agg.total_credits in
    let debits : ℕ = or_zero agg.total_debits in
    let total : ℕ = credits - debits in
    let unavailable : ℕ = saturating_add locked_amount unconfirmed_amount - both in
    record {
      total = total;
      available = total - unavailable;
      locked = locked_amount;
      unconfirmed = unconfirmed_amount;
      total_credits = some credits;
      total_debits = some debits;
      max_height = agg.max_height;
      max_date = agg.max_date;
    }
