-- ===== src/Db/DisplayedTransactions.antt =====
-- db/displayed_transactions.rs, for the operations that reorgs and the monitor use. A row keeps the
-- transaction itself, in the source as JSON, beside the columns that repeat parts of it.
use mathlib.Core.Option
use minotari_cli.Base.{
  Bool, List, Option, [], any, false, find, if◌then◌else◌, leb, map, none, not, order_desc, select,
  some, true, update_where, ℕ, ◌&&◌, ◌++◌, ◌==◌, ◌||◌, ◌∷◌,
}
use minotari_cli.Db.Tables.{Db, DisplayedRow}
use minotari_cli.Models.{DisplayedTransaction, TransactionDisplayStatus}

abbrev status_eqb : TransactionDisplayStatus → TransactionDisplayStatus → Bool
status_eqb TransactionDisplayStatus.pending TransactionDisplayStatus.pending = true
status_eqb TransactionDisplayStatus.unconfirmed TransactionDisplayStatus.unconfirmed = true
status_eqb TransactionDisplayStatus.confirmed TransactionDisplayStatus.confirmed = true
status_eqb TransactionDisplayStatus.cancelled TransactionDisplayStatus.cancelled = true
status_eqb TransactionDisplayStatus.reorganized TransactionDisplayStatus.reorganized = true
status_eqb TransactionDisplayStatus.rejected TransactionDisplayStatus.rejected = true
status_eqb _ _ = false

new_displayed : DisplayedTransaction → DisplayedRow
new_displayed t = record {
  id = t.id;
  account_id = t.details.account_id;
  direction = t.direction;
  source = t.source;
  status = t.status;
  amount = t.amount;
  block_height = t.blockchain.block_height;
  timestamp = t.blockchain.timestamp;
  transaction = t;
  payref = some t.details.sent_payrefs;
}

-- ON CONFLICT(id) DO UPDATE
merge_displayed : DisplayedTransaction → DisplayedRow → DisplayedRow
merge_displayed t r = record r {
  status = t.status;
  transaction = t;
  payref = some t.details.sent_payrefs;
}

unfoldable pub insert_displayed_transaction : DisplayedTransaction → Db → Db
unfolding new_displayed merge_displayed
insert_displayed_transaction t db =
    if any (λ r. r.id == t.id) db.displayed_transactions
    then record db {
      displayed_transactions =
          update_where (λ r. r.id == t.id) (merge_displayed t) db.displayed_transactions;
    }
    else record db { displayed_transactions = db.displayed_transactions ++ new_displayed t ∷ [] }

unfoldable get_displayed_transaction_by_id : ℕ → Db → Option DisplayedTransaction
get_displayed_transaction_by_id id db =
    Option.map (λ r. r.transaction) (find (λ r. r.id == id) db.displayed_transactions)

mine_displayed : DisplayedTransaction → DisplayedRow → DisplayedRow
mine_displayed t r = record r {
  status = t.status;
  block_height = t.blockchain.block_height;
  transaction = t;
  payref = some t.details.sent_payrefs;
}

-- whether a row was affected, and the new database
unfoldable pub update_displayed_transaction_mined : DisplayedTransaction → Db → Bool × Db
unfolding mine_displayed
update_displayed_transaction_mined t db = (
  any (λ r. r.id == t.id) db.displayed_transactions,
  record db {
    displayed_transactions =
        update_where (λ r. r.id == t.id) (mine_displayed t) db.displayed_transactions;
  },
)

unfoldable pub get_displayed_transactions_needing_confirmation_update :
    ℕ → Db → List DisplayedTransaction
get_displayed_transactions_needing_confirmation_update account db =
    map (λ r. r.transaction)
      (select
        (λ r.
          (r.account_id == account)
          && (status_eqb r.status TransactionDisplayStatus.pending
              || status_eqb r.status TransactionDisplayStatus.unconfirmed))
        db.displayed_transactions)

unfoldable pub write_displayed : DisplayedTransaction → DisplayedRow → DisplayedRow
write_displayed t r = record r { status = t.status; transaction = t }

-- `update_displayed_transaction_confirmations`, and the UPDATE of the two functions below
unfoldable pub update_displayed_transaction_confirmations : DisplayedTransaction → Db → Bool × Db
unfolding write_displayed
update_displayed_transaction_confirmations t db = (
  any (λ r. r.id == t.id) db.displayed_transactions,
  record db {
    displayed_transactions =
        update_where (λ r. r.id == t.id) (write_displayed t) db.displayed_transactions;
  },
)

abbrev set_row_status : TransactionDisplayStatus → DisplayedRow → DisplayedRow
set_row_status s r = record r { status = s; transaction = record (r.transaction) { status = s } }

unfoldable pub mark_displayed_transaction_rejected : ℕ → Db → Option DisplayedTransaction × Db
unfolding write_displayed
mark_displayed_transaction_rejected id db =
    elim (find (λ r. r.id == id) db.displayed_transactions) [
      | none ↦ (none, db)
      | some r ↦
          let t : DisplayedTransaction = record (r.transaction) {
            status = TransactionDisplayStatus.rejected;
          } in
          (
            some t,
            record db {
              displayed_transactions =
                  update_where (λ q. q.id == id) (write_displayed t) db.displayed_transactions;
            },
          )
    ]

abbrev pub displayed_from_height : ℕ → ℕ → DisplayedRow → Bool
displayed_from_height account height r =
    (r.account_id == account)
    && leb height r.block_height
    && not (status_eqb r.status TransactionDisplayStatus.reorganized)

abbrev pub reorganized_copy : DisplayedRow → DisplayedTransaction
reorganized_copy r = record (r.transaction) { status = TransactionDisplayStatus.reorganized }

-- the loop over the rows to update; each is written back under its own id
unfoldable pub write_reorganized : List DisplayedRow → Db → Db
unfolding write_displayed
write_reorganized [] db = db
write_reorganized (r ∷ rs) db = write_reorganized rs (record db {
  displayed_transactions =
      update_where (λ q. q.id == r.id) (write_displayed (reorganized_copy r))
        db.displayed_transactions;
})

unfoldable pub mark_displayed_transactions_reorganized_and_return :
    ℕ → ℕ → Db → List DisplayedTransaction × Db
unfolding write_reorganized
mark_displayed_transactions_reorganized_and_return account height db =
    let rows = select (displayed_from_height account height) db.displayed_transactions in
    (map reorganized_copy rows, write_reorganized rows db)

-- ORDER BY block_height DESC, timestamp DESC
abbrev newest_displayed : List DisplayedRow → List DisplayedTransaction
newest_displayed rs =
    map (λ r. r.transaction) (order_desc (λ r. r.block_height) (order_desc (λ r. r.timestamp) rs))

unfoldable pub get_displayed_transactions_by_status :
    ℕ → TransactionDisplayStatus → Db → List DisplayedTransaction
get_displayed_transactions_by_status account status db = newest_displayed (
    select (λ r. (r.account_id == account) && status_eqb r.status status) db.displayed_transactions)

unfoldable pub get_displayed_transactions_from_height : ℕ → ℕ → Db → List DisplayedTransaction
get_displayed_transactions_from_height account from_height db = newest_displayed (
    select (λ r. (r.account_id == account) && leb from_height r.block_height)
      db.displayed_transactions)
