-- ===== src/Ledger/Reported.antt =====
-- get_balance of minotari/src/db/accounts.rs, against the books.
use minotari_cli.Base.{
  Bool, Bool-cases, List, [], any, arith, false, inl, inr, refl, sum_where, sym, ℕ, ◌-◌, ◌==◌, ◌∷◌,
  ◌≡◌,
}
use minotari_cli.Db.Balance.{get_balance, or_zero}
use minotari_cli.Db.BalanceChanges.{get_balance_aggregates_for_account, sum_or_null}
use minotari_cli.Db.Tables.{BalanceChangeRow, Db}
use minotari_cli.Ledger.Totals.{IsBalanced, received, spent_value}

or_zero-sum :
    (p : BalanceChangeRow → Bool) (f : BalanceChangeRow → ℕ) (cs : List BalanceChangeRow)
    → any p cs ≡ false
    → sum_where p f cs ≡ 0
or_zero-sum p f [] h = refl
or_zero-sum p f (c ∷ cs) h = ground (arith, or_zero-sum p f cs)

or_zero-sum_or_null :
    (p : BalanceChangeRow → Bool) (f : BalanceChangeRow → ℕ) (cs : List BalanceChangeRow)
    → or_zero (sum_or_null p f cs) ≡ sum_where p f cs
or_zero-sum_or_null p f cs = elim (Bool-cases (any p cs)) [
  | inl y ↦ rw y refl
  | inr n ↦ rw n (sym (or_zero-sum p f cs n))
]

-- Where the books of an account balance, the total that `get_balance` reports is what the account's
-- live outputs are worth less what its live inputs have spent of them.
pub get_balance-total :
    (a : ℕ) (db : Db)
    → IsBalanced a db
    → (get_balance a db).total ≡ received a db.outputs - spent_value a db.outputs db.inputs
unfolding get_balance get_balance_aggregates_for_account
get_balance-total a db bal = omega (
  arith,
  bal,
  or_zero-sum_or_null (λ c. c.account_id == a) (λ c. c.balance_credit) db.balance_changes,
  or_zero-sum_or_null (λ c. c.account_id == a) (λ c. c.balance_debit) db.balance_changes,
)
