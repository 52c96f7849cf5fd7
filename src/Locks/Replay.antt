-- ===== src/Locks/Replay.antt =====
-- `FundLocker::lock` as a whole: a new request, and the replay of one.
use minotari_cli.Base.{
  Bool-cases, List, OnOk, Option-cases, Result, Result-cases, [], any, ap, err, false, inl, inr,
  of_ok, ok, refl, some, sym, update_where, ℕ, ◌++◌, ◌+◌, ◌>>=◌, ◌∙◌, ◌∷◌, ◌≡◌, ◌⊎◌,
}
use minotari_cli.Db.Outputs.{DbWalletOutput, lock_output, row_locked}
use minotari_cli.Db.PendingTransactions.{
  LockFundsResult, create_pending_transaction, pending_clashes,
}
use minotari_cli.Db.Tables.{Db}
use minotari_cli.Funds.Locker.{
  LockRequest, find_existing, key_or, lock, lock_all, lock_new, result_of,
}
use minotari_cli.Funds.Selector.{InputSelector, UtxoSelection, Wallet, fetch_unspent}
use minotari_cli.Locks.Locking.{is_selected, lock_all-rows}
use minotari_cli.Models.PendingTransactionStatus.{PendingTransactionStatus}

-- what a call of `lock` that succeeds has done: a replay, which changes nothing, or a new request
pub record IsNewLock (w : Wallet) (now id fresh_key : ℕ) (q : LockRequest) (db : Db)
    (r : LockFundsResult) (db' : Db) : Type 0 where
  pub selection : UtxoSelection
  pub chosen :
      fetch_unspent w
        (record { account_id = q.account_id; confirmation_window = q.confirmation_window })
        q.amount
        q.num_outputs
        q.fee_per_gram
        q.estimated_output_size
        db
      ≡ ok selection
  pub answers : r ≡ result_of selection
  pub is_new :
      any
        (pending_clashes id q.account_id (key_or fresh_key q.idempotency_key))
        db.pending_transactions
      ≡ false
  pub outs :
      db'.outputs
      ≡ update_where
          (is_selected selection.utxos)
          (row_locked id (now + q.seconds_to_lock_utxos))
          db.outputs
  pub requests :
      db'.pending_transactions
      ≡ db.pending_transactions
        ++ record {
          id = id;
          account_id = q.account_id;
          idempotency_key = key_or fresh_key q.idempotency_key;
          status = PendingTransactionStatus.pending;
          requires_change_output = selection.requires_change_output;
          total_value = selection.total_value;
          fee_without_change = selection.fee_without_change;
          fee_with_change = selection.fee_with_change;
          expires_at = now + q.seconds_to_lock_utxos;
        }
          ∷ []

lock_all-requests :
    (request until : ℕ) (us : List DbWalletOutput) (db : Db)
    → (lock_all request until us db).pending_transactions ≡ db.pending_transactions
unfolding lock_all lock_output
lock_all-requests request until [] db = refl
lock_all-requests request until (u ∷ us) db =
    lock_all-requests request until us (lock_output u.id request until db)

lock_new-IsNewLock :
    (w : Wallet) (now id fresh_key : ℕ) (q : LockRequest) (s : UtxoSelection) (db : Db)
    → fetch_unspent w
        (record { account_id = q.account_id; confirmation_window = q.confirmation_window })
        q.amount
        q.num_outputs
        q.fee_per_gram
        q.estimated_output_size
        db
      ≡ ok s
    → OnOk (λ r. IsNewLock w now id fresh_key q db r.0 r.1) (lock_new now id fresh_key q s db)
unfolding lock_new create_pending_transaction
lock_new-IsNewLock w now id fresh_key q s db e =
    elim (Bool-cases (
      any (pending_clashes id q.account_id (key_or fresh_key q.idempotency_key))
        db.pending_transactions)) [
          | inl y ↦ rw y tt
          | inr n ↦ rw n (record {
            selection = s;
            chosen = e;
            answers = refl;
            is_new = n;
            outs = lock_all-rows id (now + q.seconds_to_lock_utxos) s.utxos _;
            requests = lock_all-requests id (now + q.seconds_to_lock_utxos) s.utxos _;
          })
        ]

-- When funds are locked, either the idempotency key names a pending request of the account, whose
-- answer is given again without a change of the database; or the selection of inputs succeeded, the
-- request is new, exactly the selected outputs that are unspent are locked for it until the expiry,
-- and the request is recorded with the totals that are returned.
pub lock-new_or_replay :
    (w : Wallet) (now id fresh_key : ℕ) (q : LockRequest) (db db' : Db) (r : LockFundsResult)
    → lock w now id fresh_key q db ≡ ok (r, db')
    → ((find_existing q.idempotency_key q.account_id db ≡ some r) × (db' ≡ db))
      ⊎ IsNewLock w now id fresh_key q db r db'
unfolding lock
lock-new_or_replay w now id fresh_key q db db' r h =
    elim (Option-cases (find_existing q.idempotency_key q.account_id db)) [
      | inr (found, e) ↦
          let h' : ok (found, db) ≡ ok (r, db') = sym (rw (e, lock) refl) ∙ h in inl (cc, cc)
      | inl e ↦
          let sel : InputSelector = record {
            account_id = q.account_id;
            confirmation_window = q.confirmation_window;
          } in
          let m =
            fetch_unspent w sel q.amount q.num_outputs q.fee_per_gram q.estimated_output_size db in
          let h' : (m >>= λ s. lock_new now id fresh_key q s db) ≡ ok (r, db') =
            sym (rw (e, lock) refl) ∙ h in
          elim (Result-cases m) [
            | inl (s, chosen) ↦
                let recorded : lock_new now id fresh_key q s db ≡ ok (r, db') =
                  ap (λ (n : Result UtxoSelection). n >>= λ t. lock_new now id fresh_key q t db)
                    (sym chosen)
                  ∙ h' in
                inr (
                  of_ok (λ r. IsNewLock w now id fresh_key q db r.0 r.1) _
                    (lock_new-IsNewLock w now id fresh_key q s db chosen) recorded)
            | inr (x, failed) ↦
                let absurd : err x ≡ ok (r, db') =
                  ap (λ (n : Result UtxoSelection). n >>= λ t. lock_new now id fresh_key q t db)
                    (sym failed)
                  ∙ h' in
                cc
          ]
    ]
