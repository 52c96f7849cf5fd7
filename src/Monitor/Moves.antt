-- ===== src/Monitor/Moves.antt =====
-- The rows of completed_transactions under the monitor's loops (transactions/monitor.rs): what one
-- cycle may do to a row, and a table part of which the loops have been through.
use minotari_cli.Base.{
  AreOwn, Bool, IsSnapshot, List, Pairwise, Turns, Turns-start, is_listed, ok, refl, some, ℕ, ◌+◌,
  ◌-◌, ◌<◌, ◌≡◌, ◌≤◌,
}
use minotari_cli.Db.CompletedTransactions.{broadcasted, confirmed, mined, rejected_with}
use minotari_cli.Db.Tables.{CompletedTransaction}
use minotari_cli.Models.{RejectReason}
use minotari_cli.Models.CompletedTransactionStatus.{CompletedTransactionStatus}
use minotari_cli.Monitor.Loops.{MonitorConfig, max_broadcast_attempts, sent_payref_of}

-- The fate of one row in a cycle at chain height `height`.
pub data Move (m : MonitorConfig) (height : ℕ) (r : CompletedTransaction)
    : CompletedTransaction → Type 0 where
  stays : Move m height r r
  broadcasts :
      r.status ≡ CompletedTransactionStatus.completed
      → r.broadcast_attempts < max_broadcast_attempts
      → Move m height r (broadcasted (r.broadcast_attempts + 1) m.now r)
  rejects :
      (reason : RejectReason)
      → r.status ≡ CompletedTransactionStatus.completed
      → Move m height r (rejected_with reason m.now r)
  mines :
      (at hash : ℕ)
      → r.status ≡ CompletedTransactionStatus.broadcast
      → Move m height r (mined at hash m.now r)
  confirms :
      (at payref : ℕ)
      → r.status ≡ CompletedTransactionStatus.mined_unconfirmed
      → r.mined_height ≡ some at
      → m.required_confirmations ≤ height - at
      → sent_payref_of m r ≡ ok payref
      → Move m height r (confirmed height payref m.now r)

-- The rows of a table made at most one move each.
abbrev pub Moves :
    MonitorConfig → ℕ → List CompletedTransaction → List CompletedTransaction → Type 0
Moves m height = Pairwise (Move m height)

-- Besides, the rows of the transactions that a loop still has before it made none.
abbrev pub Going :
    MonitorConfig
    → ℕ
    → List CompletedTransaction
    → List CompletedTransaction
    → List CompletedTransaction
    → Type 0
Going m height ts = Turns (λ t. t.id) (Move m height) ts

abbrev pub is_kept : ℕ → List CompletedTransaction → Bool
is_kept i ts = is_listed (λ t. t.id) i ts

-- the ids of a table are distinct
abbrev pub HasOwnIds : List CompletedTransaction → Type 0
HasOwnIds ts = AreOwn (λ t. t.id) ts

-- `t` is what the table holds under its id.
abbrev pub IsStored : List CompletedTransaction → CompletedTransaction → Type 0
IsStored rs t = IsSnapshot (λ t. t.id) rs t

module _ (m : MonitorConfig) (height : ℕ) where
  pub Move-id : (r r' : CompletedTransaction) → Move m height r r' → r'.id ≡ r.id
  Move-id r _ Move.stays = refl
  Move-id r _ (Move.broadcasts _ _) = refl
  Move-id r _ (Move.rejects _ _) = refl
  Move-id r _ (Move.mines _ _ _) = refl
  Move-id r _ (Move.confirms _ _ _ _ _ _) = refl

  pub Going-start : (ts rs : List CompletedTransaction) → Going m height ts rs rs
  Going-start ts rs = Turns-start (λ t. t.id) (Move m height) (λ r. Move.stays) ts rs
