-- ===== src/Locks/Release.antt =====
-- The requests and the outputs in a round of minotari/src/tasks/unlocker.rs.
use minotari_cli.Models.OutputStatus
use minotari_cli.Base.{
  Bool, Bool-cases, List, Option-cases, [], ap, arith, false, if◌then◌else◌, inl, inr, none, refl,
  some, sym, update_where, ℕ, ◌&&◌, ◌==◌, ◌∙◌, ◌∷◌, ◌≡◌,
}
use minotari_cli.Db.Outputs.{is_locked_by, row_unlocked, unlock_outputs_for_request}
use minotari_cli.Db.PendingTransactions.{
  find_expired_pending_transactions, member, set_pending_status, update_pending_transaction_status,
}
use minotari_cli.Db.Tables.{Db, OutputRow, PendingTransactionRow}
use minotari_cli.Funds.Locker.{unlock_each, unlock_expired_transactions}
use minotari_cli.Models.OutputStatus.{OutputStatus}
use minotari_cli.Models.PendingTransactionStatus.{PendingTransactionStatus}

-- an output locked by one of the requests
abbrev pub is_held_by : List ℕ → OutputRow → Bool
is_held_by ids o = elim o.locked_by_request_id [
  | none ↦ false
  | some r ↦ member r ids && OutputStatus.eqb o.status OutputStatus.locked
]

none_held :
    (g : OutputRow → OutputRow) (os : List OutputRow) → update_where (is_held_by []) g os ≡ os
none_held g [] = refl
none_held g (o ∷ os) = elim (Option-cases o.locked_by_request_id) [
  | inl e ↦ rw (e, none_held g os) refl
  | inr (r, e) ↦ rw (e, none_held g os) refl
]

release-row :
    (id : ℕ) (ids : List ℕ) (o : OutputRow)
    → (let o' = if is_locked_by id o then row_unlocked o else o in
        if is_held_by ids o' then row_unlocked o' else o')
      ≡ (if is_held_by (id ∷ ids) o then row_unlocked o else o)
unfolding row_unlocked
release-row id ids o = elim (Option-cases o.locked_by_request_id) [
  | inl e ↦ rw e refl
  | inr (r, e) ↦ elim (Bool-cases (r == id)) [
    | inl y ↦ elim (Bool-cases (OutputStatus.eqb o.status OutputStatus.locked)) [
      | inl l ↦ ground (arith, e, y, l)
      | inr l ↦ ground (arith, e, y, l)
    ]
    | inr n ↦ ground (arith, e, n)
  ]
]

release-rows :
    (id : ℕ) (ids : List ℕ) (os : List OutputRow)
    → update_where (is_held_by ids) row_unlocked (update_where (is_locked_by id) row_unlocked os)
      ≡ update_where (is_held_by (id ∷ ids)) row_unlocked os
release-rows id ids [] = refl
release-rows id ids (o ∷ os) =
    let rest = update_where (is_locked_by id) row_unlocked os in
    ap (λ x. x ∷ update_where (is_held_by ids) row_unlocked rest) (release-row id ids o)
    ∙ ap (λ xs. (if is_held_by (id ∷ ids) o then row_unlocked o else o) ∷ xs)
        (release-rows id ids os)

unlock_each-outputs :
    (ids : List ℕ) (db : Db)
    → (unlock_each ids db).outputs ≡ update_where (is_held_by ids) row_unlocked db.outputs
unfolding unlock_each unlock_outputs_for_request update_pending_transaction_status
unlock_each-outputs [] db = sym (none_held row_unlocked db.outputs)
unlock_each-outputs (id ∷ ids) db = unlock_each-outputs ids _ ∙ release-rows id ids db.outputs

abbrev expire : PendingTransactionRow → PendingTransactionRow
expire = set_pending_status PendingTransactionStatus.expired

none_expired : (ps : List PendingTransactionRow) → update_where (λ p. member p.id []) expire ps ≡ ps
none_expired [] = refl
none_expired (p ∷ ps) = ap (λ r. p ∷ r) (none_expired ps)

expire-row :
    (id : ℕ) (ids : List ℕ) (p : PendingTransactionRow)
    → (let p' = if p.id == id then expire p else p in if member p'.id ids then expire p' else p')
      ≡ (if member p.id (id ∷ ids) then expire p else p)
unfolding set_pending_status
expire-row id ids p = elim (Bool-cases (p.id == id)) [
  | inl y ↦ elim (Bool-cases (member p.id ids)) [
    | inl m ↦ ground (arith, y, m)
    | inr m ↦ ground (arith, y, m)
  ]
  | inr n ↦ ground (arith, n)
]

expire-rows :
    (id : ℕ) (ids : List ℕ) (ps : List PendingTransactionRow)
    → update_where (λ p. member p.id ids) expire (update_where (λ p. p.id == id) expire ps)
      ≡ update_where (λ p. member p.id (id ∷ ids)) expire ps
expire-rows id ids [] = refl
expire-rows id ids (p ∷ ps) =
    let rest = update_where (λ q. q.id == id) expire ps in
    ap (λ x. x ∷ update_where (λ q. member q.id ids) expire rest) (expire-row id ids p)
    ∙ ap (λ xs. (if member p.id (id ∷ ids) then expire p else p) ∷ xs) (expire-rows id ids ps)

unlock_each-requests :
    (ids : List ℕ) (db : Db)
    → (unlock_each ids db).pending_transactions
      ≡ update_where (λ p. member p.id ids) expire db.pending_transactions
unfolding unlock_each unlock_outputs_for_request update_pending_transaction_status
unlock_each-requests [] db = sym (none_expired db.pending_transactions)
unlock_each-requests (id ∷ ids) db =
    unlock_each-requests ids _ ∙ expire-rows id ids db.pending_transactions

-- A round of the unlocker frees exactly the outputs that are locked by a request that is pending
-- and past its expiry, marks exactly the requests of those ids as expired, and changes nothing else
-- in the two tables.
pub unlock_expired_transactions-rows :
    (now : ℕ) (db : Db)
    → let expired = find_expired_pending_transactions now db in
      let db' = unlock_expired_transactions now db in
      (db'.outputs ≡ update_where (is_held_by expired) row_unlocked db.outputs)
      × (db'.pending_transactions
          ≡ update_where
              (λ p. member p.id expired)
              (set_pending_status PendingTransactionStatus.expired)
              db.pending_transactions)
unfolding unlock_expired_transactions
unlock_expired_transactions-rows now db = (
  unlock_each-outputs (find_expired_pending_transactions now db) db,
  unlock_each-requests (find_expired_pending_transactions now db) db,
)
