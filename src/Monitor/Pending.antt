-- ===== src/Monitor/Pending.antt =====
-- The pending transactions of an account, as a cycle of the monitor reads them off the table
-- (`get_pending_completed_transactions`, `PendingTransactionsByStatus::from_transactions`).
use minotari_cli.Models.CompletedTransactionStatus
use minotari_cli.Base.{
  All, All-append, All-order_asc, All-select, All-selected, AreOwn-append, AreOwn-order_asc,
  AreOwn-select, Bool, Bool-cases, List, [], ap, arith, false, inl, inr, insert_asc, length,
  listed_in_neither, order_asc, others_apart, own_rows, refl, select, suc, true, unlisted, ℕ, ◌&&◌,
  ◌++◌, ◌==◌, ◌∙◌, ◌∷◌, ◌≡◌,
}
use minotari_cli.Db.CompletedTransactions.{get_pending_completed_transactions, is_open}
use minotari_cli.Db.Tables.{CompletedTransaction, Db}
use minotari_cli.Models.CompletedTransactionStatus.{CompletedTransactionStatus}
use minotari_cli.Monitor.Cycle.{
  PendingTransactionsByStatus, from_transactions, of_status, remaining_count,
}
use minotari_cli.Monitor.Moves.{HasOwnIds, IsStored, is_kept}

abbrev pub is_pending_of : ℕ → CompletedTransaction → Bool
is_pending_of account t = (t.account_id == account) && is_open t.status

-- how many of an account's transactions are pending
abbrev pub open_count : ℕ → List CompletedTransaction → ℕ
open_count account rs = length (select (is_pending_of account) rs)

-- a transaction of the account that stands in the table and is pending
pub record IsPending (account : ℕ) (rs : List CompletedTransaction) (t : CompletedTransaction)
    : Type 0 where
  pub snapshot : IsStored rs t
  pub listed : is_kept t.id rs ≡ true
  pub pending : is_pending_of account t ≡ true

All-both :
    (account : ℕ) (rs ts : List CompletedTransaction)
    → All (λ t. IsStored rs t × (is_kept t.id rs ≡ true)) ts
    → All (λ t. is_pending_of account t ≡ true) ts
    → All (IsPending account rs) ts
All-both account rs [] _ _ = tt
All-both account rs (t ∷ ts) ((s, l), h) (p, k) =
    (record { snapshot = s; listed = l; pending = p }, All-both account rs ts h k)

pub fetched-IsPending :
    (account : ℕ) (db : Db)
    → HasOwnIds db.completed_transactions
    → All
        (IsPending account db.completed_transactions)
        (get_pending_completed_transactions account db)
unfolding get_pending_completed_transactions
fetched-IsPending account db o =
    let rs = db.completed_transactions in
    All-order_asc _ (λ t. t.created_at) (select (is_pending_of account) rs)
      (All-both account rs (select (is_pending_of account) rs)
        (All-select _ (is_pending_of account) rs (own_rows (λ t. t.id) rs o))
        (All-selected (is_pending_of account) rs))

pub fetched-HasOwnIds :
    (account : ℕ) (db : Db)
    → HasOwnIds db.completed_transactions
    → HasOwnIds (get_pending_completed_transactions account db)
unfolding get_pending_completed_transactions
fetched-HasOwnIds account db o =
    AreOwn-order_asc (λ t. t.id) _ _
      (AreOwn-select (λ t. t.id) (is_pending_of account) db.completed_transactions o)

length-order_asc :
    (key : CompletedTransaction → ℕ) (ts : List CompletedTransaction)
    → length (order_asc key ts) ≡ length ts
length-order_asc key [] = refl
length-order_asc key (t ∷ ts) =
    length-insert_asc key t (order_asc key ts) ∙ ap suc (length-order_asc key ts)
  where
    length-insert_asc :
        (key : CompletedTransaction → ℕ) (t : CompletedTransaction) (ts : List CompletedTransaction)
        → length (insert_asc key t ts) ≡ suc (length ts)
    length-insert_asc key t [] = refl
    length-insert_asc key t (x ∷ xs) = ground (arith, length-insert_asc key t xs)

pub length-get_pending :
    (account : ℕ) (db : Db)
    → length (get_pending_completed_transactions account db)
      ≡ open_count account db.completed_transactions
unfolding get_pending_completed_transactions
length-get_pending account db = length-order_asc _ _

-- the three lists of a cycle, in the order in which it goes through them
abbrev pub in_turn : PendingTransactionsByStatus → List CompletedTransaction
in_turn p = p.completed_txs ++ (p.broadcast_txs ++ p.mined_unconfirmed_txs)

-- Each pending transaction stands in one of the three lists.
pub remaining_count-from_transactions :
    (account : ℕ) (ts : List CompletedTransaction)
    → All (λ t. is_pending_of account t ≡ true) ts
    → remaining_count (from_transactions ts) ≡ length ts
unfolding remaining_count from_transactions
remaining_count-from_transactions account [] _ = refl
remaining_count-from_transactions account (t ∷ ts) (h, hs) =
    ground (arith, h, remaining_count-from_transactions account ts hs)

of_status-apart :
    (i : ℕ) (s : CompletedTransactionStatus) (ts : List CompletedTransaction)
    → is_kept i ts ≡ false
    → is_kept i (of_status s ts) ≡ false
of_status-apart i s [] h = refl
of_status-apart i s (t ∷ ts) h = ground (arith, h, of_status-apart i s ts)

-- two statuses that are not one
abbrev AreApart : CompletedTransactionStatus → CompletedTransactionStatus → Type 0
AreApart s s' =
    (x : CompletedTransactionStatus)
    → CompletedTransactionStatus.eqb x s ≡ true
    → CompletedTransactionStatus.eqb x s' ≡ false

of_status-of_status :
    (s s' : CompletedTransactionStatus) (ts : List CompletedTransaction)
    → AreApart s s'
    → HasOwnIds ts
    → All (λ u. is_kept u.id (of_status s' ts) ≡ false) (of_status s ts)
of_status-of_status s s' [] x _ = tt
of_status-of_status s s' (t ∷ ts) x (o, os) =
    let ih = of_status-of_status s s' ts x os in
    let later : All (λ u. is_kept u.id (of_status s' (t ∷ ts)) ≡ false) (of_status s ts) =
      elim (Bool-cases (CompletedTransactionStatus.eqb t.status s')) [
        | inl y ↦ rw y (
            others_apart (λ t. t.id) t (of_status s ts) (of_status s' ts)
              (All-select _ _ ts (unlisted (λ t. t.id) t.id ts o)) ih)
        | inr k ↦ rw k ih
      ] in
    elim (Bool-cases (CompletedTransactionStatus.eqb t.status s)) [
      | inl y ↦ rw y (ground (arith, x t.status y, of_status-apart t.id s' ts o), later)
      | inr n ↦ rw n later
    ]

pub in_turn-HasOwnIds :
    (ts : List CompletedTransaction) → HasOwnIds ts → HasOwnIds (in_turn (from_transactions ts))
unfolding from_transactions
in_turn-HasOwnIds ts o =
    let c = of_status CompletedTransactionStatus.completed ts in
    let b = of_status CompletedTransactionStatus.broadcast ts in
    let u = of_status CompletedTransactionStatus.mined_unconfirmed ts in
    AreOwn-append (λ t. t.id) c (b ++ u) (AreOwn-select (λ t. t.id) _ ts o)
      (AreOwn-append (λ t. t.id) b u (AreOwn-select (λ t. t.id) _ ts o)
        (AreOwn-select (λ t. t.id) _ ts o)
        (of_status-of_status CompletedTransactionStatus.broadcast
          CompletedTransactionStatus.mined_unconfirmed ts (λ x h. ground (arith, h)) o))
      (listed_in_neither (λ t. t.id) c b u
        (of_status-of_status CompletedTransactionStatus.completed
          CompletedTransactionStatus.broadcast ts (λ x h. ground (arith, h)) o)
        (of_status-of_status CompletedTransactionStatus.completed
          CompletedTransactionStatus.mined_unconfirmed ts (λ x h. ground (arith, h)) o))

pub in_turn-All :
    (P : CompletedTransaction → Type 0) (ts : List CompletedTransaction)
    → All P ts
    → All P (in_turn (from_transactions ts))
unfolding from_transactions
in_turn-All P ts h =
    All-append P _ _ (All-select P _ ts h)
      (All-append P _ _ (All-select P _ ts h) (All-select P _ ts h))
