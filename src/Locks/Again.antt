-- ===== src/Locks/Again.antt =====
-- A request for funds that is sent twice with one idempotency key.
use minotari_cli.Base.{
  ==_refl, Bool, List, Option, [], any, ap, arith, false, find, inl, inr, map, none, ok, refl, some,
  sym, transport, true, ℕ, ◌++◌, ◌+◌, ◌∙◌, ◌∷◌, ◌≡◌,
}
use minotari_cli.Db.Outputs.{fetch_outputs_by_lock_request_id}
use minotari_cli.Db.PendingTransactions.{
  LockFundsResult, find_pending_transaction_by_idempotency_key,
  find_pending_transaction_locked_funds_by_idempotency_key, pending_clashes, with_key,
}
use minotari_cli.Db.Tables.{Db, PendingTransactionRow}
use minotari_cli.Funds.Locker.{LockRequest, find_existing, key_or, lock}
use minotari_cli.Funds.Selector.{Wallet}
use minotari_cli.Locks.Replay.{IsNewLock, lock-new_or_replay}
use minotari_cli.Models.PendingTransactionStatus.{PendingTransactionStatus}

find-last :
    (p : PendingTransactionRow → Bool) (xs : List PendingTransactionRow) (x : PendingTransactionRow)
    → any p xs ≡ false
    → p x ≡ true
    → find p (xs ++ x ∷ []) ≡ some x
find-last p [] x n y = ground (arith, y)
find-last p (z ∷ zs) x n y = ground (arith, n, y, find-last p zs x)

no_key :
    (id a key : ℕ) (ps : List PendingTransactionRow)
    → any (pending_clashes id a key) ps ≡ false
    → any (with_key key a PendingTransactionStatus.pending) ps ≡ false
no_key id a key [] n = refl
no_key id a key (p ∷ ps) n = ground (arith, n, no_key id a key ps)

-- the totals of two answers agree
record AreSameTotals (r r' : LockFundsResult) : Type 0 where
  pub change : r'.requires_change_output ≡ r.requires_change_output
  pub total : r'.total_value ≡ r.total_value
  pub fee_without : r'.fee_without_change ≡ r.fee_without_change
  pub fee_with : r'.fee_with_change ≡ r.fee_with_change

IsReplayable : LockRequest → LockFundsResult → Db → Type 0
IsReplayable q r db =
    (r' : LockFundsResult) × (find_existing q.idempotency_key q.account_id db ≡ some r')
    × AreSameTotals r r'

new-IsReplayable :
    (w : Wallet) (now id fresh_key key : ℕ) (q : LockRequest) (db db' : Db) (r : LockFundsResult)
    → q.idempotency_key ≡ some key
    → IsNewLock w now id fresh_key q db r db'
    → IsReplayable q r db'
unfolding IsReplayable find_pending_transaction_locked_funds_by_idempotency_key
new-IsReplayable w now id fresh_key key q db db' r k new =
    let a = q.account_id in
    let s = new.selection in
    let row : PendingTransactionRow = record {
      id = id;
      account_id = a;
      idempotency_key = key;
      status = PendingTransactionStatus.pending;
      requires_change_output = s.requires_change_output;
      total_value = s.total_value;
      fee_without_change = s.fee_without_change;
      fee_with_change = s.fee_with_change;
      expires_at = now + q.seconds_to_lock_utxos;
    } in
    let same_key : key_or fresh_key q.idempotency_key ≡ key = rw k refl in
    let fresh : any (pending_clashes id a key) db.pending_transactions ≡ false =
      ap (λ j. any (pending_clashes id a j) db.pending_transactions) (sym same_key) ∙ new.is_new in
    let rows : db'.pending_transactions ≡ db.pending_transactions ++ row ∷ [] =
      new.requests
      ∙ ap (λ j. db.pending_transactions ++ record row { idempotency_key = j } ∷ []) same_key in
    let found : find (with_key key a PendingTransactionStatus.pending) db'.pending_transactions
        ≡ some row =
      ap (find (with_key key a PendingTransactionStatus.pending)) rows
      ∙ find-last (with_key key a PendingTransactionStatus.pending) db.pending_transactions row
          (no_key id a key db.pending_transactions fresh) (rw (==_refl key, ==_refl a) refl) in
    (
      record {
        utxos = map (λ o. o.output) (fetch_outputs_by_lock_request_id id db');
        requires_change_output = s.requires_change_output;
        total_value = s.total_value;
        fee_without_change = s.fee_without_change;
        fee_with_change = s.fee_with_change;
      },
      rw (k, found, find_pending_transaction_locked_funds_by_idempotency_key) refl,
      rw (new.answers)
          (record { change = refl; total = refl; fee_without = refl; fee_with = refl }),
    )

lock-IsReplayable :
    (w : Wallet) (now id fresh_key key : ℕ) (q : LockRequest) (db db' : Db) (r : LockFundsResult)
    → q.idempotency_key ≡ some key
    → lock w now id fresh_key q db ≡ ok (r, db')
    → IsReplayable q r db'
unfolding IsReplayable
lock-IsReplayable w now id fresh_key key q db db' r k e =
    elim (lock-new_or_replay w now id fresh_key q db db' r e) [
      | inl (old, same) ↦ (
        r,
        ap (find_existing q.idempotency_key q.account_id) same ∙ old,
        record { change = refl; total = refl; fee_without = refl; fee_with = refl },
      )
      | inr new ↦ new-IsReplayable w now id fresh_key key q db db' r k new
    ]

-- what is answered on a pending request
abbrev answer : Db → PendingTransactionRow → LockFundsResult
answer db p = record {
  utxos = map (λ o. o.output) (fetch_outputs_by_lock_request_id p.id db);
  requires_change_output = p.requires_change_output;
  total_value = p.total_value;
  fee_without_change = p.fee_without_change;
  fee_with_change = p.fee_with_change;
}

abbrev answer_of : Db → Option PendingTransactionRow → Option LockFundsResult
answer_of db o = elim o [ none ↦ none | some p ↦ some (answer db p) ]

abbrev AnswersWith : LockFundsResult → Option LockFundsResult → Type 0
AnswersWith r' none = Unit
AnswersWith r' (some r) = AreSameTotals r r'

-- but for its outputs the answer depends on the request alone
same_answer :
    (db db' : Db) (o : Option PendingTransactionRow) (r : LockFundsResult)
    → answer_of db o ≡ some r
    → (r' : LockFundsResult) × (answer_of db' o ≡ some r') × AreSameTotals r r'
same_answer db db' none r h = absurd (cc)
same_answer db db' (some p) r h =
    let same : AreSameTotals (answer db p) (answer db' p) = record {
      change = refl;
      total = refl;
      fee_without = refl;
      fee_with = refl;
    } in
    (answer db' p, refl, transport (ap (AnswersWith (answer db' p)) h) same)

same_request :
    (key a : ℕ) (db db' : Db) (r : LockFundsResult)
    → find_pending_transaction_by_idempotency_key key a db'
      ≡ find_pending_transaction_by_idempotency_key key a db
    → find_existing (some key) a db ≡ some r
    → (r' : LockFundsResult) × (find_existing (some key) a db' ≡ some r') × AreSameTotals r r'
unfolding find_pending_transaction_by_idempotency_key
    find_pending_transaction_locked_funds_by_idempotency_key
same_request key a db db' r e h =
    let (r', answer, same) =
      same_answer db db' (find_pending_transaction_by_idempotency_key key a db) r h in
    (r', ap (answer_of db') e ∙ answer, same)

-- A request for funds with an idempotency key that has succeeded may be sent again, whatever the
-- services answer then and whatever has changed in the database, as long as the pending request with
-- the key is the one that was there right after: it succeeds, changes nothing, and returns the same
-- totals. A request that has expired, or was canceled, is no longer pending.
pub lock-again :
    (w w' : Wallet) (now id fresh_key key now' id' fresh_key' : ℕ) (q : LockRequest)
    (db db' later : Db) (r : LockFundsResult)
    → q.idempotency_key ≡ some key
    → lock w now id fresh_key q db ≡ ok (r, db')
    → find_pending_transaction_by_idempotency_key key q.account_id later
      ≡ find_pending_transaction_by_idempotency_key key q.account_id db'
    → (r' : LockFundsResult) × (lock w' now' id' fresh_key' q later ≡ ok (r', later))
      × (r'.requires_change_output ≡ r.requires_change_output)
      × (r'.total_value ≡ r.total_value)
      × (r'.fee_without_change ≡ r.fee_without_change)
      × (r'.fee_with_change ≡ r.fee_with_change)
unfolding lock IsReplayable
lock-again w w' now id fresh_key key now' id' fresh_key' q db db' later r k e kept =
    let (r1, found, same) = lock-IsReplayable w now id fresh_key key q db db' r k e in
    let (r2, found2, same2) =
      same_request key q.account_id db' later r1 kept
        (ap (λ i. find_existing i q.account_id db') (sym k) ∙ found) in
    let again : find_existing q.idempotency_key q.account_id later ≡ some r2 =
      ap (λ i. find_existing i q.account_id later) k ∙ found2 in
    (
      r2,
      rw (again, lock) refl,
      same2.change ∙ same.change,
      same2.total ∙ same.total,
      same2.fee_without ∙ same.fee_without,
      same2.fee_with ∙ same.fee_with,
    )
