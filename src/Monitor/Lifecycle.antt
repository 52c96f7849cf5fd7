-- ===== src/Monitor/Lifecycle.antt =====
-- A cycle of the monitor (transactions/monitor.rs) over the table of completed transactions, the
-- wallet's books, and the flag that tells whether transactions are pending.
use minotari_cli.Models.CompletedTransactionStatus
use minotari_cli.Base.{
  All, Bool-cases, List, OnOk, Result, Result-cases, Turns-skip, Turns-update_where, [], ap, arith,
  err, if◌then◌else◌, inl, inr, of_ok, ok, refl, sum, sum-Turns, true, update_where, ℕ, ◌++◌, ◌+◌,
  ◌==◌, ◌>>=◌, ◌∷◌, ◌≡◌,
}
use minotari_cli.Db.Tables.{CompletedTransaction, Db}
use minotari_cli.Ledger.Sound.{IsConsistent}
use minotari_cli.Models.{WalletEvent}
use minotari_cli.Models.CompletedTransactionStatus.{CompletedTransactionStatus}
use minotari_cli.Monitor.Advance.{ends}
use minotari_cli.Monitor.Cycle.{
  from_transactions, of_status, process_pending_transactions, terminal_transitions,
}
use minotari_cli.Monitor.Loops.{
  MonitorConfig, MonitoringResult, check_broadcast_for_mining, rebroadcast_completed_transactions,
}
use minotari_cli.Monitor.Moves.{Going, HasOwnIds, Move, Move-id}
use minotari_cli.Monitor.Node.{Network}
use minotari_cli.Monitor.Pending.{IsPending, in_turn, is_pending_of, open_count}
use minotari_cli.Monitor.Run.{
  HasStatus, Run, Run-append, append_assoc, confirming-Runs, mining-Runs, rebroadcast-Run,
}

terminal_transitions-append :
    (es fs : List WalletEvent)
    → terminal_transitions (es ++ fs) ≡ terminal_transitions es + terminal_transitions fs
unfolding terminal_transitions
terminal_transitions-append [] fs = omega arith
terminal_transitions-append (e ∷ es) fs = ground (arith, terminal_transitions-append es fs)

terminal_transitions-nil : terminal_transitions [] ≡ 0
unfolding terminal_transitions
terminal_transitions-nil = refl

of_status-HasStatus :
    (s : CompletedTransactionStatus) (ts : List CompletedTransaction)
    → ((x : CompletedTransactionStatus) → CompletedTransactionStatus.eqb x s ≡ true → x ≡ s)
    → All (HasStatus s) (of_status s ts)
of_status-HasStatus s [] h = tt
of_status-HasStatus s (t ∷ ts) h = elim (Bool-cases (CompletedTransactionStatus.eqb t.status s)) [
  | inl y ↦ rw y (h t.status y, of_status-HasStatus s ts h)
  | inr n ↦ rw n (of_status-HasStatus s ts h)
]

events_in_turn :
    (r : MonitoringResult) (events es fs : List WalletEvent) (c : Result (List WalletEvent))
    → events ≡ es
    → OnOk (λ cs. cs ≡ fs) c
    → OnOk
        (λ q. q.wallet_events ≡ r.wallet_events ++ (es ++ fs))
        (c >>= λ cs. ok (record r { wallet_events = (r.wallet_events ++ events) ++ cs }))
events_in_turn r events es fs (ok cs) e h = rw (e, h) (append_assoc r.wallet_events es fs)
events_in_turn r events es fs (err _) e h = tt

-- what one row counts for among an account's pending transactions
abbrev counts : ℕ → CompletedTransaction → ℕ
counts account r = if is_pending_of account r then 1 else 0

sum-counts :
    (account : ℕ) (rs : List CompletedTransaction) → sum (counts account) rs ≡ open_count account rs
sum-counts account [] = refl
sum-counts account (r ∷ rs) = ground (arith, sum-counts account rs)

module _ (m : MonitorConfig) (height account : ℕ) where
  Move-account : (r r' : CompletedTransaction) → Move m height r r' → r'.account_id ≡ r.account_id
  Move-account r _ Move.stays = refl
  Move-account r _ (Move.broadcasts _ _) = refl
  Move-account r _ (Move.rejects _ _) = refl
  Move-account r _ (Move.mines _ _ _) = refl
  Move-account r _ (Move.confirms _ _ _ _ _ _) = refl

  Going-none :
      (ts rs rs' : List CompletedTransaction) → Going m height ts rs rs' → Going m height [] rs rs'
  Going-none [] rs rs' g = g
  Going-none (t ∷ ts) rs rs' g =
      Going-none ts rs rs' (Turns-skip (λ t. t.id) (Move m height) t ts rs rs' g)

  -- what a turn closes is no longer counted
  counts-ends :
      (t : CompletedTransaction) (f : CompletedTransaction → CompletedTransaction)
      → is_pending_of account t ≡ true
      → (f t).account_id ≡ t.account_id
      → counts account (f t) + ends (f t) ≡ counts account t
  counts-ends t f p a = ground (arith, p, a)

  pub Run-Going :
      (ts : List CompletedTransaction) (es : List WalletEvent) (db db' : Db)
      (rs : List CompletedTransaction)
      → HasOwnIds ts
      → All (IsPending account rs) ts
      → Going m height ts rs db.completed_transactions
      → Run m height ts es db db'
      → Going m height [] rs db'.completed_transactions
  Run-Going _ _ _ _ rs o p g (Run.stops ts db) = Going-none ts rs db.completed_transactions g
  Run-Going _ _ _ _ rs o p g (Run.skips t ts es db db' r) =
      Run-Going ts es db db' rs o.1 p.1 (Turns-skip (λ t. t.id) (Move m height) t ts _ _ g) r
  Run-Going _ _ _ _ rs o p g (Run.takes t ts es es' db db₁ db₂ v r) =
      Run-Going ts es' db₁ db₂ rs o.1 p.1
        (rw v.table (
          Turns-update_where (λ t. t.id) (Move m height) (Move-id m height) t ts rs _ v.change o.0
            p.0.snapshot v.move g))
        r

  pub Run-open_count :
      (ts : List CompletedTransaction) (es : List WalletEvent) (db db' : Db)
      (rs : List CompletedTransaction)
      → HasOwnIds rs
      → HasOwnIds ts
      → All (IsPending account rs) ts
      → Going m height ts rs db.completed_transactions
      → Run m height ts es db db'
      → open_count account db'.completed_transactions + terminal_transitions es
        ≡ open_count account db.completed_transactions
  Run-open_count _ _ _ _ rs u o p g (Run.stops ts db) = omega (arith, terminal_transitions-nil)
  Run-open_count _ _ _ _ rs u o p g (Run.skips t ts es db db' r) =
      Run-open_count ts es db db' rs u o.1 p.1 (Turns-skip (λ t. t.id) (Move m height) t ts _ _ g) r
  Run-open_count _ _ _ _ rs u o p g (Run.takes t ts es es' db db₁ db₂ v r) =
      let next =
        Turns-update_where (λ t. t.id) (Move m height) (Move-id m height) t ts rs _ v.change o.0
          p.0.snapshot v.move g in
      let later = Run-open_count ts es' db₁ db₂ rs u o.1 p.1 (rw v.table next) r in
      let now =
        sum-Turns (λ t. t.id) (Move m height) (Move-id m height) (counts account) t ts rs _ v.change
          p.0.snapshot u p.0.listed g in
      omega (
        arith,
        later,
        now,
        ap (open_count account) v.table,
        counts-ends t v.change p.0.pending (Move-account t (v.change t) v.move),
        sum-counts account db.completed_transactions,
        sum-counts account (update_where (λ r. r.id == t.id) v.change db.completed_transactions),
        v.reported,
        terminal_transitions-append es es',
      )

  pub Run-IsConsistent :
      (b : ℕ) (ts : List CompletedTransaction) (es : List WalletEvent) (db db' : Db)
      → IsConsistent b db
      → Run m height ts es db db'
      → IsConsistent b db'
  Run-IsConsistent b _ _ _ _ c (Run.stops ts db) = c
  Run-IsConsistent b _ _ _ _ c (Run.skips t ts es db db' r) = Run-IsConsistent b ts es db db' c r
  Run-IsConsistent b _ _ _ _ c (Run.takes t ts es es' db db₁ db₂ v r) =
      Run-IsConsistent b ts es' db₁ db₂ (v.books b c) r

  -- a cycle over the pending transactions
  pub process-Runs :
      (net : Network) (ts : List CompletedTransaction) (db : Db)
      → let out = process_pending_transactions net m account height (from_transactions ts) db in
        (es : List WalletEvent) × Run m height (in_turn (from_transactions ts)) es db out.1
        × OnOk (λ r. r.wallet_events ≡ es) out.0
  unfolding process_pending_transactions from_transactions
  process-Runs net ts db =
      let c = of_status CompletedTransactionStatus.completed ts in
      let b = of_status CompletedTransactionStatus.broadcast ts in
      let u = of_status CompletedTransactionStatus.mined_unconfirmed ts in
      let out = rebroadcast_completed_transactions net m account c db in
      let r =
        rebroadcast-Run m height account net c db (
          of_status-HasStatus CompletedTransactionStatus.completed ts (λ x h. ground (arith, h))) in
      let mid = check_broadcast_for_mining net m account b out.1 in
      let (es, q, k) =
        mining-Runs m height account net b out.1 (
          of_status-HasStatus CompletedTransactionStatus.broadcast ts (λ x h. ground (arith, h))) in
      let (fs, p, l) = confirming-Runs m height account u mid.1 (
        of_status-HasStatus CompletedTransactionStatus.mined_unconfirmed ts
          (λ x h. ground (arith, h))) in
      elim (Result-cases mid.0) [
        | inr (e, h) ↦
            rw (h, process_pending_transactions)
              (
                out.0.wallet_events ++ (es ++ []),
                Run-append m height account c (b ++ u) _ _ db out.1 mid.1 r
                    (Run-append m height account b u es [] out.1 mid.1 mid.1 q (Run.stops u mid.1)),
                tt,
              )
        | inl (events, h) ↦
            rw (h, process_pending_transactions)
              (
                out.0.wallet_events ++ (es ++ fs),
                Run-append m height account c (b ++ u) _ _ db out.1 _ r
                    (Run-append m height account b u es fs out.1 mid.1 _ q p),
                events_in_turn out.0 events es fs _ (of_ok (λ events. events ≡ es) mid.0 k h) l,
              )
      ]
