-- ===== src/Ledger/Totals.antt =====
-- The two sides of the books of an account: the ledger's credits and debits, and the values of the
-- outputs and of the spent outputs that the database holds as live.
use minotari_cli.Base.{
  Bool, List, Option, find, is_none, none, some, sum_where, ℕ, ◌&&◌, ◌+◌, ◌==◌, ◌≡◌,
}
use minotari_cli.Db.Tables.{BalanceChangeRow, Db, InputRow, OutputRow}

abbrev pub of_account : ℕ → BalanceChangeRow → Bool
of_account a c = c.account_id == a

abbrev pub is_live_output : ℕ → OutputRow → Bool
is_live_output a o = (o.account_id == a) && is_none o.deleted_at

abbrev pub is_live_input : ℕ → InputRow → Bool
is_live_input a i = (i.account_id == a) && is_none i.deleted_at

-- the value of the output with an id
abbrev pub value_or_zero : Option OutputRow → ℕ
value_or_zero none = 0
value_or_zero (some o) = o.value

abbrev pub value_of : List OutputRow → ℕ → ℕ
value_of os k = value_or_zero (find (λ o. o.id == k) os)

abbrev pub credits : ℕ → List BalanceChangeRow → ℕ
credits a cs = sum_where (of_account a) (λ c. c.balance_credit) cs

abbrev pub debits : ℕ → List BalanceChangeRow → ℕ
debits a cs = sum_where (of_account a) (λ c. c.balance_debit) cs

abbrev pub received : ℕ → List OutputRow → ℕ
received a os = sum_where (is_live_output a) (λ o. o.value) os

abbrev pub spent_value : ℕ → List OutputRow → List InputRow → ℕ
spent_value a os is = sum_where (is_live_input a) (λ i. value_of os i.output_id) is

-- Credits less debits are what the live outputs hold less what the live inputs spent of them.
abbrev pub IsBalanced : ℕ → Db → Type 0
IsBalanced a db =
    credits a db.balance_changes + spent_value a db.outputs db.inputs
    ≡ debits a db.balance_changes + received a db.outputs
