-- ===== src/Monitor/Advance.antt =====
-- What the body of each of the monitor's loops (transactions/monitor.rs) does to the tables for one
-- transaction.
use minotari_cli.Base.{
  Bool-cases, List, Option-cases, [], arith, find, if◌then◌else◌, inl, inr, leb, ok, refl, some,
  true, update_where, ℕ, ◌+◌, ◌-◌, ◌==◌, ◌∷◌, ◌≡◌,
}
use minotari_cli.Db.CompletedTransactions.{
  broadcasted, confirmed, is_open, mark_completed_transaction_as_broadcasted,
  mark_completed_transaction_as_confirmed, mark_completed_transaction_as_mined_unconfirmed,
  mark_completed_transaction_as_rejected, mined, rejected_with,
}
use minotari_cli.Db.DisplayedTransactions.{mark_displayed_transaction_rejected}
use minotari_cli.Db.Outputs.{is_locked_by, row_unlocked, unlock_outputs_for_request}
use minotari_cli.Db.Tables.{CompletedTransaction, Db}
use minotari_cli.Ledger.Frames.{
  SameBooks, SameBooks-trans, insert_wallet_event-SameBooks, trigger_webhook-SameBooks,
}
use minotari_cli.Ledger.Rows.{IsConsistent-same, IsConsistent-update}
use minotari_cli.Ledger.Sound.{IsConsistent}
use minotari_cli.Locks.Books.{row_unlocked-KeepsBooks}
use minotari_cli.Models.{
  RejectReason, WalletEvent, exceeded_attempts, transaction_broadcast, transaction_rejected,
  transaction_unconfirmed,
}
use minotari_cli.Models.CompletedTransactionStatus.{CompletedTransactionStatus}
use minotari_cli.Monitor.Cycle.{terminal_transitions}
use minotari_cli.Monitor.Loops.{
  MonitorConfig, confirm_one, max_broadcast_attempts, persist_event, rebroadcast_one,
  reject_transaction, sent_payref_of, tx_event,
}
use minotari_cli.Monitor.Moves.{Move}
use minotari_cli.Monitor.Node.{Network, broadcast_transaction}

-- whether a row has reached the end of its life
abbrev pub ends : CompletedTransaction → ℕ
ends t = if is_open t.status then 0 else 1

-- One transaction makes its move and is reported by the events; no other row of the table changes.
pub record Advance (m : MonitorConfig) (height : ℕ) (t : CompletedTransaction)
    (es : List WalletEvent) (db db' : Db) : Type 0 where
  pub change : CompletedTransaction → CompletedTransaction
  pub move : Move m height t (change t)
  pub table :
      db'.completed_transactions ≡ update_where (λ r. r.id == t.id) change db.completed_transactions
  pub books : (b : ℕ) → IsConsistent b db → IsConsistent b db'
  pub reported : terminal_transitions es ≡ ends (change t)

persist_event-SameBooks :
    (m : MonitorConfig) (a : ℕ) (e : WalletEvent) (db : Db) → SameBooks db (persist_event m a e db)
unfolding persist_event
persist_event-SameBooks m a e db = elim (Option-cases m.webhook_config) [
  | inl h ↦ rw h (insert_wallet_event-SameBooks a e db)
  | inr (c, h) ↦
      rw h (
        SameBooks-trans (insert_wallet_event-SameBooks a e db)
          (trigger_webhook-SameBooks a _ e c _))
]

mark_rejected-SameBooks :
    (id : ℕ) (db : Db) → SameBooks db (mark_displayed_transaction_rejected id db).1
unfolding mark_displayed_transaction_rejected
mark_rejected-SameBooks id db =
    elim (Option-cases (find (λ r. r.id == id) db.displayed_transactions)) [
      | inl h ↦ rw (h, mark_displayed_transaction_rejected) same_books
      | inr (r, h) ↦
          rw (h, mark_displayed_transaction_rejected)
            (record {
              outs = refl;
              ins = refl;
              ledger = refl;
              next = refl;
              tips = refl;
              completed = refl;
            })
    ]
  where
    same_books : SameBooks db db
    same_books = record {
      outs = refl;
      ins = refl;
      ledger = refl;
      next = refl;
      tips = refl;
      completed = refl;
    }

module _ (m : MonitorConfig) (height account : ℕ) (t : CompletedTransaction) where
  reject_transaction-Advance :
      (reason : RejectReason) (db : Db)
      → t.status ≡ CompletedTransactionStatus.completed
      → let out = reject_transaction m account t reason db in
        Advance m height t out.0.wallet_events db out.1
  unfolding reject_transaction mark_completed_transaction_as_rejected unlock_outputs_for_request
      terminal_transitions
  reject_transaction-Advance reason db s =
      let db₁ = mark_completed_transaction_as_rejected t.id reason m.now db in
      let db₂ = unlock_outputs_for_request t.pending_tx_id db₁ in
      let db₃ = (mark_displayed_transaction_rejected t.id db₂).1 in
      let event = tx_event account (transaction_rejected t.id reason) in
      let same =
        SameBooks-trans (mark_rejected-SameBooks t.id db₂)
          (persist_event-SameBooks m account event db₃) in
      record {
        change = rejected_with reason m.now;
        move = Move.rejects reason s;
        table = same.completed;
        books = λ b c. IsConsistent-same b same (
            IsConsistent-update b (is_locked_by t.pending_tx_id) row_unlocked db₁
              row_unlocked-KeepsBooks (record { sound = c.sound; balanced = c.balanced }));
        reported = refl;
      }

  pub rebroadcast_one-Advance :
      (net : Network) (db : Db)
      → t.status ≡ CompletedTransactionStatus.completed
      → let out = rebroadcast_one net m account t db in
        Advance m height t out.0.wallet_events db out.1
  unfolding rebroadcast_one mark_completed_transaction_as_broadcasted terminal_transitions
  rebroadcast_one-Advance net db s =
      elim (Bool-cases (leb max_broadcast_attempts t.broadcast_attempts)) [
        | inl y ↦ rw (y, rebroadcast_one) (reject_transaction-Advance exceeded_attempts db s)
        | inr n ↦ elim (Option-cases (broadcast_transaction net t)) [
          | inr (reason, e) ↦
              rw (n, rebroadcast_one)
                (rw (e, rebroadcast_one) (reject_transaction-Advance reason db s))
          | inl e ↦
              let db₁ =
                mark_completed_transaction_as_broadcasted t.id (t.broadcast_attempts + 1) m.now
                  db in
              let event = tx_event account (transaction_broadcast t.id t.kernel_excess) in
              let same = persist_event-SameBooks m account event db₁ in
              rw (n, rebroadcast_one)
                (rw (e, rebroadcast_one)
                  (record {
                    change = broadcasted (t.broadcast_attempts + 1) m.now;
                    move = Move.broadcasts s (ground (arith, n));
                    table = same.completed;
                    books = λ b c.
                        IsConsistent-same b same
                          (record { sound = c.sound; balanced = c.balanced });
                    reported = refl;
                  }))
        ]
      ]

  pub mined-Advance :
      (at hash : ℕ) (db : Db)
      → t.status ≡ CompletedTransactionStatus.broadcast
      → let event = tx_event account (transaction_unconfirmed t.id at 0) in
        Advance m height t (event ∷ []) db (
          persist_event m account event
            (mark_completed_transaction_as_mined_unconfirmed t.id at hash m.now db))
  unfolding mark_completed_transaction_as_mined_unconfirmed terminal_transitions
  mined-Advance at hash db s =
      let same = persist_event-SameBooks m account _ _ in
      record {
        change = mined at hash m.now;
        move = Move.mines at hash s;
        table = same.completed;
        books = λ b c. IsConsistent-same b same (record { sound = c.sound; balanced = c.balanced });
        reported = refl;
      }

  pub confirm_one-Advance :
      (at payref : ℕ) (db : Db)
      → t.status ≡ CompletedTransactionStatus.mined_unconfirmed
      → t.mined_height ≡ some at
      → leb m.required_confirmations (height - at) ≡ true
      → sent_payref_of m t ≡ ok payref
      → let out = confirm_one m account height at t payref db in
        Advance m height t (out.0 ∷ []) db out.1
  unfolding confirm_one mark_completed_transaction_as_confirmed terminal_transitions
  confirm_one-Advance at payref db s mh d p =
      let same = persist_event-SameBooks m account _ _ in
      record {
        change = confirmed height payref m.now;
        move = Move.confirms at payref s mh (ground (arith, d)) p;
        table = same.completed;
        books = λ b c. IsConsistent-same b same (record { sound = c.sound; balanced = c.balanced });
        reported = refl;
      }
