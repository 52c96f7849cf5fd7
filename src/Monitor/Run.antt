-- ===== src/Monitor/Run.antt =====
-- The monitor's three loops (transactions/monitor.rs) as runs through a list of transactions.
use minotari_cli.Base.{
  All, Bool-cases, List, OnOk, Option-cases, Result, Result-cases, [], ap, err, inl, inr, leb, none,
  ok, refl, some, ℕ, ◌++◌, ◌-◌, ◌>>=◌, ◌∷◌, ◌≡◌,
}
use minotari_cli.Db.CompletedTransactions.{mark_completed_transaction_as_mined_unconfirmed}
use minotari_cli.Db.Tables.{CompletedTransaction, Db}
use minotari_cli.Models.{WalletEvent, transaction_unconfirmed}
use minotari_cli.Models.CompletedTransactionStatus.{CompletedTransactionStatus}
use minotari_cli.Monitor.Advance.{
  Advance, confirm_one-Advance, mined-Advance, rebroadcast_one-Advance,
}
use minotari_cli.Monitor.Loops.{
  MonitorConfig, check_broadcast_for_mining, check_confirmation_status, confirm_one, extend_result,
  persist_event, rebroadcast_completed_transactions, rebroadcast_one, sent_payref_of, tx_event,
}
use minotari_cli.Monitor.Node.{Network, find_kernel_on_chain}

-- A run through a list, with the events that it reports: it takes a turn with a transaction, or
-- passes it over, or stops before the end of the list.
pub data Run (m : MonitorConfig) (height : ℕ)
    : List CompletedTransaction → List WalletEvent → Db → Db → Type 0 where
  stops : (ts : List CompletedTransaction) (db : Db) → Run m height ts [] db db
  skips :
      (t : CompletedTransaction) (ts : List CompletedTransaction) (es : List WalletEvent)
      (db db' : Db)
      → Run m height ts es db db'
      → Run m height (t ∷ ts) es db db'
  takes :
      (t : CompletedTransaction) (ts : List CompletedTransaction) (es es' : List WalletEvent)
      (db db₁ db₂ : Db)
      → Advance m height t es db db₁
      → Run m height ts es' db₁ db₂
      → Run m height (t ∷ ts) (es ++ es') db db₂

-- a run for an operation that reports the events of its result, if it has one
abbrev pub Runs :
    MonitorConfig → ℕ → List CompletedTransaction → Db → Result (List WalletEvent) × Db → Type 0
Runs m height ts db out =
    (es : List WalletEvent) × Run m height ts es db out.1 × OnOk (λ events. events ≡ es) out.0

abbrev pub HasStatus : CompletedTransactionStatus → CompletedTransaction → Type 0
HasStatus s t = t.status ≡ s

pub append_assoc : (es fs gs : List WalletEvent) → (es ++ fs) ++ gs ≡ es ++ (fs ++ gs)
append_assoc [] fs gs = refl
append_assoc (e ∷ es) fs gs = ap (λ xs. e ∷ xs) (append_assoc es fs gs)

OnOk-cons :
    (e : WalletEvent) (es : List WalletEvent) (r : Result (List WalletEvent))
    → OnOk (λ events. events ≡ es) r
    → OnOk (λ events. events ≡ e ∷ es) (r >>= λ events. ok (e ∷ events))
OnOk-cons e es (ok fs) h = ap (λ xs. e ∷ xs) h
OnOk-cons e es (err _) h = tt

module _ (m : MonitorConfig) (height account : ℕ) where
  Run-skips :
      (ts us : List CompletedTransaction) (es : List WalletEvent) (db db' : Db)
      → Run m height us es db db'
      → Run m height (ts ++ us) es db db'
  Run-skips [] us es db db' r = r
  Run-skips (t ∷ ts) us es db db' r = Run.skips t (ts ++ us) es db db' (Run-skips ts us es db db' r)

  pub Run-append :
      (ts us : List CompletedTransaction) (es fs : List WalletEvent) (a b c : Db)
      → Run m height ts es a b
      → Run m height us fs b c
      → Run m height (ts ++ us) (es ++ fs) a c
  Run-append _ us _ fs _ _ c (Run.stops ts b) s = Run-skips ts us fs b c s
  Run-append _ us _ fs _ _ c (Run.skips t ts es a b r) s =
      Run.skips t (ts ++ us) (es ++ fs) a c (Run-append ts us es fs a b c r s)
  Run-append _ us _ fs _ _ c (Run.takes t ts es es' a b₁ b v r) s =
      rw (append_assoc es es' fs)
        (Run.takes t (ts ++ us) es (es' ++ fs) a b₁ c v (Run-append ts us es' fs b₁ b c r s))

  pub rebroadcast-Run :
      (net : Network) (ts : List CompletedTransaction) (db : Db)
      → All (HasStatus CompletedTransactionStatus.completed) ts
      → let out = rebroadcast_completed_transactions net m account ts db in
        Run m height ts out.0.wallet_events db out.1
  unfolding rebroadcast_completed_transactions extend_result
  rebroadcast-Run net [] db _ = Run.stops [] db
  rebroadcast-Run net (t ∷ ts) db (s, ss) =
      let step = rebroadcast_one net m account t db in
      Run.takes t ts step.0.wallet_events _ db step.1 _
        (rebroadcast_one-Advance m height account t net db s) (rebroadcast-Run net ts step.1 ss)

  pub mining-Runs :
      (net : Network) (ts : List CompletedTransaction) (db : Db)
      → All (HasStatus CompletedTransactionStatus.broadcast) ts
      → Runs m height ts db (check_broadcast_for_mining net m account ts db)
  unfolding check_broadcast_for_mining
  mining-Runs net [] db _ = ([], Run.stops [] db, refl)
  mining-Runs net (t ∷ ts) db (s, ss) = elim (Result-cases (find_kernel_on_chain net t)) [
    | inr (e, h) ↦ rw (h, check_broadcast_for_mining) ([], Run.stops (t ∷ ts) db, tt)
    | inl (none, h) ↦
        let (es, r, k) = mining-Runs net ts db ss in
        rw (h, check_broadcast_for_mining) (es, Run.skips t ts es db _ r, k)
    | inl (some (at, hash), h) ↦
        let event = tx_event account (transaction_unconfirmed t.id at 0) in
        let db₁ =
          persist_event m account event
            (mark_completed_transaction_as_mined_unconfirmed t.id at hash m.now db) in
        let (es, r, k) = mining-Runs net ts db₁ ss in
        rw (h, check_broadcast_for_mining)
          (
            event ∷ es,
            Run.takes t ts (event ∷ []) es db db₁ _ (mined-Advance m height account t at hash db s)
                r,
            OnOk-cons event es _ k,
          )
  ]

  pub confirming-Runs :
      (ts : List CompletedTransaction) (db : Db)
      → All (HasStatus CompletedTransactionStatus.mined_unconfirmed) ts
      → Runs m height ts db (check_confirmation_status m account height ts db)
  unfolding check_confirmation_status
  confirming-Runs [] db _ = ([], Run.stops [] db, refl)
  confirming-Runs (t ∷ ts) db (s, ss) =
      let (es, r, k) = confirming-Runs ts db ss in
      elim (Option-cases t.mined_height) [
        | inl n ↦ simp (n) (es, Run.skips t ts es db _ r, k)
        | inr (at, h) ↦ elim (Bool-cases (leb m.required_confirmations (height - at))) [
          | inr n ↦ simp (h) (simp (n) (es, Run.skips t ts es db _ r, k))
          | inl y ↦ elim (Result-cases (sent_payref_of m t)) [
            | inr (e, p) ↦ simp (h) (simp (y) (simp (p) ([], Run.stops (t ∷ ts) db, tt)))
            | inl (payref, p) ↦
                let step = confirm_one m account height at t payref db in
                let (fs, q, l) = confirming-Runs ts step.1 ss in
                simp (h) (
                  simp (y) (
                    simp (p) (
                      step.0 ∷ fs,
                      Run.takes t ts (step.0 ∷ []) fs db step.1 _
                          (confirm_one-Advance m height account t at payref db s h y p) q,
                      OnOk-cons step.0 fs _ l,
                    )))
          ]
        ]
      ]
