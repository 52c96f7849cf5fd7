-- ===== src/Db/CompletedTransactions.antt =====
-- db/completed_transactions.rs: the transactions that the wallet has signed, from broadcast to
-- confirmation. `now` is the source's `Utc::now()`.
use minotari_cli.Models.CompletedTransactionStatus
use minotari_cli.Base.{
  Bool, List, Option, Result, [], any, constraint_violation, drop, err, false, find, if◌then◌else◌,
  is_value, leb, length, none, ok, order_asc, order_desc, select, some, take, true, update_where, ℕ,
  ◌&&◌, ◌++◌, ◌==◌, ◌||◌, ◌∷◌,
}
use minotari_cli.Db.Tables.{CompletedTransaction, Db}
use minotari_cli.Models.{RejectReason}
use minotari_cli.Models.CompletedTransactionStatus.{CompletedTransactionStatus}

-- The primary key is the transaction's id; created_at and updated_at default to CURRENT_TIMESTAMP.
unfoldable pub create_completed_transaction : ℕ → ℕ → ℕ → ℕ → Option ℕ → ℕ → ℕ → Db → Result Db
create_completed_transaction account pending kernel_excess serialized sent_output_hash tx_id now
      db =
    if any (λ t. t.id == tx_id) db.completed_transactions
    then err constraint_violation
    else ok (record db { completed_transactions = db.completed_transactions ++ row ∷ [] })
  where
    row : CompletedTransaction
    row = record {
      id = tx_id;
      account_id = account;
      pending_tx_id = pending;
      status = CompletedTransactionStatus.completed;
      last_rejected_reason = none;
      kernel_excess = kernel_excess;
      sent_payref = none;
      sent_output_hash = sent_output_hash;
      mined_height = none;
      mined_block_hash = none;
      confirmation_height = none;
      broadcast_attempts = 0;
      serialized_transaction = serialized;
      created_at = now;
      updated_at = now;
    }

unfoldable get_completed_transaction_by_id : ℕ → Db → Option CompletedTransaction
get_completed_transaction_by_id id db = find (λ t. t.id == id) db.completed_transactions

unfoldable get_completed_transactions_by_status :
    ℕ → CompletedTransactionStatus → Db → List CompletedTransaction
get_completed_transactions_by_status account status db =
    select (λ t. (t.account_id == account) && CompletedTransactionStatus.eqb t.status status)
      db.completed_transactions

-- UPDATE completed_transactions SET .. WHERE id = :id
abbrev update_completed : ℕ → (CompletedTransaction → CompletedTransaction) → Db → Db
update_completed id f db = record db {
  completed_transactions = update_where (λ t. t.id == id) f db.completed_transactions;
}

abbrev with_status : CompletedTransactionStatus → ℕ → CompletedTransaction → CompletedTransaction
with_status status now t = record t { status = status; updated_at = now }

unfoldable update_completed_transaction_status : ℕ → CompletedTransactionStatus → ℕ → Db → Db
update_completed_transaction_status id status now = update_completed id (with_status status now)

abbrev pub broadcasted : ℕ → ℕ → CompletedTransaction → CompletedTransaction
broadcasted attempts now t = record t {
  status = CompletedTransactionStatus.broadcast;
  broadcast_attempts = attempts;
  updated_at = now;
}

unfoldable pub mark_completed_transaction_as_broadcasted : ℕ → ℕ → ℕ → Db → Db
mark_completed_transaction_as_broadcasted id attempts now =
    update_completed id (broadcasted attempts now)

abbrev pub mined : ℕ → ℕ → ℕ → CompletedTransaction → CompletedTransaction
mined height hash now t = record t {
  status = CompletedTransactionStatus.mined_unconfirmed;
  mined_height = some height;
  mined_block_hash = some hash;
  updated_at = now;
}

unfoldable pub mark_completed_transaction_as_mined_unconfirmed : ℕ → ℕ → ℕ → ℕ → Db → Db
mark_completed_transaction_as_mined_unconfirmed id height hash now =
    update_completed id (mined height hash now)

abbrev pub confirmed : ℕ → ℕ → ℕ → CompletedTransaction → CompletedTransaction
confirmed height payref now t = record t {
  status = CompletedTransactionStatus.mined_confirmed;
  confirmation_height = some height;
  sent_payref = some payref;
  updated_at = now;
}

unfoldable pub mark_completed_transaction_as_confirmed : ℕ → ℕ → ℕ → ℕ → Db → Db
mark_completed_transaction_as_confirmed id height payref now =
    update_completed id (confirmed height payref now)

-- back to the state before the broadcast
abbrev pub reverted : ℕ → CompletedTransaction → CompletedTransaction
reverted now t = record t {
  status = CompletedTransactionStatus.completed;
  mined_height = none;
  mined_block_hash = none;
  confirmation_height = none;
  sent_payref = none;
  broadcast_attempts = 0;
  updated_at = now;
}

unfoldable revert_completed_transaction_to_completed : ℕ → ℕ → Db → Db
revert_completed_transaction_to_completed id now = update_completed id (reverted now)

abbrev is_mined : CompletedTransactionStatus → Bool
is_mined s =
    CompletedTransactionStatus.eqb s CompletedTransactionStatus.mined_unconfirmed
    || CompletedTransactionStatus.eqb s CompletedTransactionStatus.mined_confirmed

-- `column >= :height` on a column that may be NULL
abbrev is_from : ℕ → Option ℕ → Bool
is_from height none = false
is_from height (some h) = leb height h

abbrev pub is_mined_from : ℕ → ℕ → CompletedTransaction → Bool
is_mined_from account height t =
    (t.account_id == account) && is_mined t.status && is_from height t.mined_height

-- the new database and the number of rows that changed
unfoldable pub reset_mined_completed_transactions_from_height : ℕ → ℕ → ℕ → Db → ℕ × Db
reset_mined_completed_transactions_from_height account height now db = (
  length (select (is_mined_from account height) db.completed_transactions),
  record db {
    completed_transactions =
        update_where (is_mined_from account height) (reverted now) db.completed_transactions;
  },
)

abbrev pub rejected_with : RejectReason → ℕ → CompletedTransaction → CompletedTransaction
rejected_with reason now t = record t {
  status = CompletedTransactionStatus.rejected;
  last_rejected_reason = some reason;
  updated_at = now;
}

unfoldable pub mark_completed_transaction_as_rejected : ℕ → RejectReason → ℕ → Db → Db
mark_completed_transaction_as_rejected id reason now =
    update_completed id (rejected_with reason now)

-- status NOT IN ('mined_confirmed', 'rejected', 'canceled')
abbrev pub is_open : CompletedTransactionStatus → Bool
is_open CompletedTransactionStatus.completed = true
is_open CompletedTransactionStatus.broadcast = true
is_open CompletedTransactionStatus.mined_unconfirmed = true
is_open CompletedTransactionStatus.mined_confirmed = false
is_open CompletedTransactionStatus.rejected = false
is_open CompletedTransactionStatus.canceled = false

unfoldable pub get_pending_completed_transactions : ℕ → Db → List CompletedTransaction
get_pending_completed_transactions account db =
    order_asc (λ t. t.created_at)
      (select (λ t. (t.account_id == account) && is_open t.status) db.completed_transactions)

-- ORDER BY created_at DESC, id DESC LIMIT :limit OFFSET :offset
unfoldable get_completed_transactions_by_account : ℕ → ℕ → ℕ → Db → List CompletedTransaction
get_completed_transactions_by_account account limit offset db = take limit (
    drop offset (
      order_desc (λ t. t.created_at)
        (order_desc (λ t. t.id) (select (λ t. t.account_id == account) db.completed_transactions))))

unfoldable get_completed_transaction_by_payref : ℕ → ℕ → Db → Option CompletedTransaction
get_completed_transaction_by_payref account payref db =
    find (λ t. (t.account_id == account) && is_value t.sent_payref payref) db.completed_transactions
