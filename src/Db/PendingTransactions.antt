-- ===== src/Db/PendingTransactions.antt =====
-- db/pending_transactions.rs: the requests that lock outputs. An id is a fresh UUID, given as an
-- argument; CURRENT_TIMESTAMP is the argument `now`.
use minotari_cli.Models.PendingTransactionStatus
use minotari_cli.Base.{
  Bool, List, Option, Result, [], any, duplicate_entry, err, find, if◌then◌else◌, ltb, map, none,
  ok, select, some, update_where, ℕ, ◌&&◌, ◌++◌, ◌==◌, ◌||◌, ◌∷◌,
}
use minotari_cli.Db.Outputs.{fetch_outputs_by_lock_request_id}
use minotari_cli.Db.Tables.{Db, PendingTransactionRow, WalletOutput}
use minotari_cli.Models.PendingTransactionStatus.{PendingTransactionStatus}

-- the primary key, and UNIQUE (account_id, idempotency_key)
abbrev pub pending_clashes : ℕ → ℕ → ℕ → PendingTransactionRow → Bool
pending_clashes id account key p =
    (p.id == id) || ((p.account_id == account) && (p.idempotency_key == key))

unfoldable pub create_pending_transaction : ℕ → ℕ → ℕ → Bool → ℕ → ℕ → ℕ → ℕ → Db → Result (ℕ × Db)
create_pending_transaction id key account requires_change total_value fee_without_change
      fee_with_change expires_at db =
    if any (pending_clashes id account key) db.pending_transactions
    then err duplicate_entry
    else ok (id, record db { pending_transactions = db.pending_transactions ++ row ∷ [] })
  where
    row : PendingTransactionRow
    row = record {
      id = id;
      account_id = account;
      idempotency_key = key;
      status = PendingTransactionStatus.pending;
      requires_change_output = requires_change;
      total_value = total_value;
      fee_without_change = fee_without_change;
      fee_with_change = fee_with_change;
      expires_at = expires_at;
    }

abbrev is_pending : PendingTransactionRow → Bool
is_pending p = PendingTransactionStatus.eqb p.status PendingTransactionStatus.pending

abbrev has_expired : ℕ → PendingTransactionRow → Bool
has_expired now p = is_pending p && ltb p.expires_at now

-- the ids, `ExpiredTransaction`
unfoldable pub find_expired_pending_transactions : ℕ → Db → List ℕ
find_expired_pending_transactions now db =
    map (λ p. p.id) (select (has_expired now) db.pending_transactions)

unfoldable pub set_pending_status :
    PendingTransactionStatus → PendingTransactionRow → PendingTransactionRow
set_pending_status status p = record p { status = status }

unfoldable pub update_pending_transaction_status : ℕ → PendingTransactionStatus → Db → Db
unfolding set_pending_status
update_pending_transaction_status id status db = record db {
  pending_transactions =
      update_where (λ p. p.id == id) (set_pending_status status) db.pending_transactions;
}

-- `LockFundsResult` of api/types.rs
pub record LockFundsResult : Type 0 where
  pub utxos : List WalletOutput
  pub requires_change_output : Bool
  pub total_value : ℕ
  pub fee_without_change : ℕ
  pub fee_with_change : ℕ

-- WHERE idempotency_key = :key AND account_id = :acc_id AND status = :status
abbrev pub with_key : ℕ → ℕ → PendingTransactionStatus → PendingTransactionRow → Bool
with_key key account status p =
    (p.idempotency_key == key)
    && (p.account_id == account)
    && PendingTransactionStatus.eqb p.status status

unfoldable pub find_pending_transaction_locked_funds_by_idempotency_key :
    ℕ → ℕ → Db → Option LockFundsResult
find_pending_transaction_locked_funds_by_idempotency_key key account db =
    elim (find (with_key key account PendingTransactionStatus.pending) db.pending_transactions) [
      | none ↦ none
      | some p ↦ some (record {
        utxos = map (λ o. o.output) (fetch_outputs_by_lock_request_id p.id db);
        requires_change_output = p.requires_change_output;
        total_value = p.total_value;
        fee_without_change = p.fee_without_change;
        fee_with_change = p.fee_with_change;
      })
    ]

unfoldable pub find_pending_transaction_by_idempotency_key :
    ℕ → ℕ → Db → Option PendingTransactionRow
find_pending_transaction_by_idempotency_key key account db =
    find (with_key key account PendingTransactionStatus.pending) db.pending_transactions

unfoldable check_if_transaction_was_already_completed_by_idempotency_key : ℕ → ℕ → Db → Bool
check_if_transaction_was_already_completed_by_idempotency_key key account db =
    any (with_key key account PendingTransactionStatus.completed) db.pending_transactions

unfoldable check_if_transaction_is_expired_by_idempotency_key : ℕ → ℕ → ℕ → Db → Bool
check_if_transaction_is_expired_by_idempotency_key now key account db =
    any (λ p. with_key key account PendingTransactionStatus.pending p && ltb p.expires_at now)
      db.pending_transactions

abbrev pub member : ℕ → List ℕ → Bool
member k ks = any (λ j. j == k) ks

unfoldable pub cancel_pending_transactions_by_ids : List ℕ → PendingTransactionStatus → Db → Db
unfolding set_pending_status
cancel_pending_transactions_by_ids [] status db = db
cancel_pending_transactions_by_ids (i ∷ is) status db = record db {
  pending_transactions =
      update_where (λ p. member p.id (i ∷ is)) (set_pending_status status) db.pending_transactions;
}
