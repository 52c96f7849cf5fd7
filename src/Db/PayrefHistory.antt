-- ===== src/Db/PayrefHistory.antt =====
-- db/payref_history.rs: payment references that a reorg makes stale. In the JSON columns every
-- reference is a proper text, so the source's tests for a bad id or an empty reference pass.
use minotari_cli.Base.{
  List, Option, [], leb, length, none, select, some, suc, ℕ, ◌&&◌, ◌++◌, ◌+◌, ◌==◌, ◌∷◌,
}
use minotari_cli.Db.CompletedTransactions.{is_mined_from}
use minotari_cli.Db.Tables.{CompletedTransaction, Db, DisplayedRow}

unfoldable pub save_payref_history : ℕ → ℕ → ℕ → Option ℕ → Db → Db
save_payref_history account transaction_id old_payref output_hash db = record db {
  payref_history =
      db.payref_history
      ++ record {
        id = db.next_payref_id;
        account_id = account;
        transaction_id = transaction_id;
        old_payref = old_payref;
        output_hash = output_hash;
      }
        ∷ [];
  next_payref_id = suc db.next_payref_id;
}

-- the inner loop of `save_displayed_transaction_payrefs_before_reorg`
unfoldable pub save_payrefs : ℕ → ℕ → List ℕ → Db → Db
save_payrefs account transaction_id [] db = db
save_payrefs account transaction_id (p ∷ ps) db =
    save_payrefs account transaction_id ps (save_payref_history account transaction_id p none db)

unfoldable pub save_displayed_rows : ℕ → List DisplayedRow → ℕ × Db → ℕ × Db
unfolding save_payrefs
save_displayed_rows account [] acc = acc
save_displayed_rows account (r ∷ rs) (count, db) = elim r.payref [
  | none ↦ save_displayed_rows account rs (count, db)
  | some ps ↦ save_displayed_rows account rs (count + length ps, save_payrefs account r.id ps db)
]

-- every displayed row with payrefs, whatever its status
unfoldable pub save_displayed_transaction_payrefs_before_reorg : ℕ → ℕ → Db → ℕ × Db
unfolding save_displayed_rows
save_displayed_transaction_payrefs_before_reorg account height db =
    save_displayed_rows account
      (select (λ r. (r.account_id == account) && leb height r.block_height)
        db.displayed_transactions)
      (0, db)

unfoldable pub save_completed_rows : ℕ → List CompletedTransaction → ℕ × Db → ℕ × Db
unfolding save_payref_history
save_completed_rows account [] acc = acc
save_completed_rows account (t ∷ ts) (count, db) = elim t.sent_payref [
  | none ↦ save_completed_rows account ts (count, db)
  | some p ↦
      save_completed_rows account ts
        (count + 1, save_payref_history account t.id p t.sent_output_hash db)
]

unfoldable pub save_completed_transaction_payrefs_before_reorg : ℕ → ℕ → Db → ℕ × Db
unfolding save_completed_rows
save_completed_transaction_payrefs_before_reorg account height db =
    save_completed_rows account (select (is_mined_from account height) db.completed_transactions)
      (0, db)
