-- ===== src/Funds/Locker.antt =====
-- transactions/fund_locker.rs and tasks/unlocker.rs: outputs are locked for a request, and the
-- unlocker frees those of a request that has expired. `fresh_id` and `fresh_key` stand for
-- `Uuid::new_v4()`, `now` for `Utc::now()`.
use minotari_cli.Base.{List, Option, Result, [], map, none, ok, some, ℕ, ◌+◌, ◌>>=◌, ◌∷◌}
use minotari_cli.Db.Outputs.{DbWalletOutput, lock_output, unlock_outputs_for_request}
use minotari_cli.Db.PendingTransactions.{
  LockFundsResult, create_pending_transaction, find_expired_pending_transactions,
  find_pending_transaction_locked_funds_by_idempotency_key, update_pending_transaction_status,
}
use minotari_cli.Db.Tables.{Db}
use minotari_cli.Funds.Selector.{UtxoSelection, Wallet, fetch_unspent}
use minotari_cli.Models.PendingTransactionStatus.{PendingTransactionStatus}

abbrev pub find_existing : Option ℕ → ℕ → Db → Option LockFundsResult
find_existing none account db = none
find_existing (some key) account db =
    find_pending_transaction_locked_funds_by_idempotency_key key account db

abbrev pub key_or : ℕ → Option ℕ → ℕ
key_or fresh none = fresh
key_or fresh (some key) = key

-- `for utxo in &utxo_selection.utxos`
unfoldable pub lock_all : ℕ → ℕ → List DbWalletOutput → Db → Db
lock_all request expires_at [] db = db
lock_all request expires_at (u ∷ us) db =
    lock_all request expires_at us (lock_output u.id request expires_at db)

abbrev pub result_of : UtxoSelection → LockFundsResult
result_of s = record {
  utxos = map (λ u. u.output) s.utxos;
  requires_change_output = s.requires_change_output;
  total_value = s.total_value;
  fee_without_change = s.fee_without_change;
  fee_with_change = s.fee_with_change;
}

-- what `lock` is asked for
pub record LockRequest : Type 0 where
  pub account_id : ℕ
  pub amount : ℕ
  pub num_outputs : ℕ
  pub fee_per_gram : ℕ
  pub estimated_output_size : Option ℕ
  pub idempotency_key : Option ℕ
  pub seconds_to_lock_utxos : ℕ
  pub confirmation_window : ℕ

-- the database transaction: the pending transaction and its locks, or nothing
unfoldable pub lock_new :
    ℕ → ℕ → ℕ → LockRequest → UtxoSelection → Db → Result (LockFundsResult × Db)
unfolding lock_all
lock_new now fresh_id fresh_key q s db = do
  let expires_at = now + q.seconds_to_lock_utxos
  (id, db') ←
      create_pending_transaction fresh_id (key_or fresh_key q.idempotency_key) q.account_id
        s.requires_change_output s.total_value s.fee_without_change s.fee_with_change expires_at db
  ok (result_of s, lock_all id expires_at s.utxos db')

unfoldable pub lock : Wallet → ℕ → ℕ → ℕ → LockRequest → Db → Result (LockFundsResult × Db)
unfolding lock_new
lock w now fresh_id fresh_key q db = elim (find_existing q.idempotency_key q.account_id db) [
  | some found ↦ ok (found, db)
  | none ↦
      fetch_unspent w
        (record { account_id = q.account_id; confirmation_window = q.confirmation_window }) q.amount
        q.num_outputs q.fee_per_gram q.estimated_output_size db
      >>= λ s. lock_new now fresh_id fresh_key q s db
]

-- the loop of the unlocker; each request is a database transaction of its own
unfoldable pub unlock_each : List ℕ → Db → Db
unlock_each [] db = db
unlock_each (id ∷ ids) db = unlock_each ids (
    unlock_outputs_for_request id
      (update_pending_transaction_status id PendingTransactionStatus.expired db))

unfoldable pub unlock_expired_transactions : ℕ → Db → Db
unfolding unlock_each
unlock_expired_transactions now db = unlock_each (find_expired_pending_transactions now db) db
