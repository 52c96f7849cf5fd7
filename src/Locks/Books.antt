-- ===== src/Locks/Books.antt =====
-- The lock of minotari/src/transactions/fund_locker.rs and the unlocker, seen from the ledger.
use minotari_cli.Base.{
  Bool-cases, List, OnOk, OnOk-any, Option-cases, [], any, inl, inr, of_ok, ok, refl, ℕ, ◌&&◌, ◌+◌,
  ◌==◌, ◌∷◌, ◌≡◌,
}
use minotari_cli.Db.Outputs.{
  DbWalletOutput, is_locked_by, lock_output, row_locked, row_unlocked, unlock_outputs_for_request,
}
use minotari_cli.Db.PendingTransactions.{
  LockFundsResult, create_pending_transaction, find_expired_pending_transactions, pending_clashes,
  update_pending_transaction_status,
}
use minotari_cli.Db.Tables.{Db}
use minotari_cli.Funds.Locker.{
  LockRequest, find_existing, key_or, lock, lock_all, lock_new, unlock_each,
  unlock_expired_transactions,
}
use minotari_cli.Funds.Selector.{UtxoSelection, Wallet}
use minotari_cli.Ledger.Rows.{IsConsistent-update, KeepsBooks}
use minotari_cli.Ledger.Sound.{IsConsistent}
use minotari_cli.Locks.Locking.{is_unspent}

row_locked-KeepsBooks : (request until : ℕ) → KeepsBooks (row_locked request until)
unfolding row_locked
row_locked-KeepsBooks request until = record {
  ids = λ o. refl;
  accounts = λ o. refl;
  hashes = λ o. refl;
  values = λ o. refl;
  wallet_outputs = λ o. refl;
  deletions = λ o. refl;
}

pub row_unlocked-KeepsBooks : KeepsBooks row_unlocked
unfolding row_unlocked
row_unlocked-KeepsBooks = record {
  ids = λ o. refl;
  accounts = λ o. refl;
  hashes = λ o. refl;
  values = λ o. refl;
  wallet_outputs = λ o. refl;
  deletions = λ o. refl;
}

lock_all-IsConsistent :
    (b request until : ℕ) (us : List DbWalletOutput) (db : Db)
    → IsConsistent b db
    → IsConsistent b (lock_all request until us db)
unfolding lock_all lock_output
lock_all-IsConsistent b request until [] db c = c
lock_all-IsConsistent b request until (u ∷ us) db c = lock_all-IsConsistent b request until us _ (
    IsConsistent-update b (λ o. (o.id == u.id) && is_unspent o) (row_locked request until) db
      (row_locked-KeepsBooks request until) c)

lock_new-IsConsistent :
    (b now id fresh_key : ℕ) (q : LockRequest) (s : UtxoSelection) (db : Db)
    → IsConsistent b db
    → OnOk (λ r. IsConsistent b r.1) (lock_new now id fresh_key q s db)
unfolding lock_new create_pending_transaction
lock_new-IsConsistent b now id fresh_key q s db c =
    elim (Bool-cases (
      any (pending_clashes id q.account_id (key_or fresh_key q.idempotency_key))
        db.pending_transactions)) [
          | inl y ↦ rw y tt
          | inr n ↦ rw n (
              lock_all-IsConsistent b id (now + q.seconds_to_lock_utxos) s.utxos _
                (record { sound = c.sound; balanced = c.balanced }))
        ]

lock-OnOk :
    (b : ℕ) (w : Wallet) (now id fresh_key : ℕ) (q : LockRequest) (db : Db)
    → IsConsistent b db
    → OnOk (λ r. IsConsistent b r.1) (lock w now id fresh_key q db)
unfolding lock
lock-OnOk b w now id fresh_key q db c =
    elim (Option-cases (find_existing q.idempotency_key q.account_id db)) [
      | inr (found, e) ↦ rw (e, lock) c
      | inl e ↦
          rw (e, lock)
            (OnOk-any (λ (r : LockFundsResult × Db). IsConsistent b r.1) _ _
              (λ s. lock_new-IsConsistent b now id fresh_key q s db c))
    ]

pub unlock_each-IsConsistent :
    (b : ℕ) (ids : List ℕ) (db : Db) → IsConsistent b db → IsConsistent b (unlock_each ids db)
unfolding unlock_each unlock_outputs_for_request update_pending_transaction_status
unlock_each-IsConsistent b [] db c = c
unlock_each-IsConsistent b (id ∷ ids) db c = unlock_each-IsConsistent b ids _ (
    IsConsistent-update b (is_locked_by id) row_unlocked _ row_unlocked-KeepsBooks
      (record { sound = c.sound; balanced = c.balanced }))

-- A successful lock keeps the database consistent, and so does a round of the unlocker after it.
pub lock-IsConsistent :
    (b : ℕ) (w : Wallet) (now id fresh_key later : ℕ) (q : LockRequest) (db db' : Db)
    (r : LockFundsResult)
    → IsConsistent b db
    → lock w now id fresh_key q db ≡ ok (r, db')
    → IsConsistent b db' × IsConsistent b (unlock_expired_transactions later db')
unfolding unlock_expired_transactions
lock-IsConsistent b w now id fresh_key later q db db' r c e =
    let kept : IsConsistent b db' =
      of_ok (λ r. IsConsistent b r.1) _ (lock-OnOk b w now id fresh_key q db c) e in
    (kept, unlock_each-IsConsistent b (find_expired_pending_transactions later db') db' kept)
