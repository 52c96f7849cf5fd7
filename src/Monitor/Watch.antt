-- ===== src/Monitor/Watch.antt =====
-- The flag of the monitor (`MonitoringState` of transactions/monitor.rs) over its cycles.
use minotari_cli.Base.{
  Bool, List, Pairwise, [], ap, arith, false, inl, inr, refl, sym, transport, true, ℕ, ◌∙◌, ◌∷◌,
  ◌≡◌, ◌⊎◌,
}
use minotari_cli.Db.CompletedTransactions.{get_pending_completed_transactions}
use minotari_cli.Db.Tables.{CompletedTransaction, Db}
use minotari_cli.Monitor.Cycle.{initialize, monitor_if_needed}
use minotari_cli.Monitor.Cycles.{
  monitor_if_needed-Moves, monitor_pending-IsCycle, update_confirmations-SameBooks,
}
use minotari_cli.Monitor.Loops.{MonitorConfig}
use minotari_cli.Monitor.Moves.{HasOwnIds, Move-id, Moves, is_kept}
use minotari_cli.Monitor.Node.{Network}

-- the flag is up, or nothing is pending
abbrev pub IsWatched : ℕ → Bool → Db → Type 0
IsWatched account flag db = (flag ≡ true) ⊎ (get_pending_completed_transactions account db ≡ [])

initialize-IsWatched : (account : ℕ) (db : Db) → IsWatched account (initialize account db) db
unfolding initialize
initialize-IsWatched account db =
    elim (get_pending_completed_transactions account db)
      as (λ ts. ((elim ts [ [] ↦ false | _ ∷ _ ↦ true ]) ≡ true) ⊎ (ts ≡ [])) [
        | [] ↦ inr refl
        | t ∷ ts ↦ inl refl
      ]

watched :
    (account : ℕ) (flag : Bool) (db : Db)
    → (flag ≡ false → get_pending_completed_transactions account db ≡ [])
    → IsWatched account flag db
watched account true db h = inl refl
watched account false db h = inr (h refl)

same_pending :
    (account : ℕ) (db db' : Db)
    → db'.completed_transactions ≡ db.completed_transactions
    → get_pending_completed_transactions account db' ≡ get_pending_completed_transactions account db
unfolding get_pending_completed_transactions
same_pending account db db' e = rw e refl

monitor_if_needed-IsWatched :
    (net : Network) (m : MonitorConfig) (account height : ℕ) (flag : Bool) (db : Db)
    → HasOwnIds db.completed_transactions
    → IsWatched account flag db
    → let out = monitor_if_needed net m account height flag db in IsWatched account out.1 out.2
unfolding monitor_if_needed
monitor_if_needed-IsWatched net m account height false db o (inl h) = absurd (cc)
monitor_if_needed-IsWatched net m account height false db o (inr h) =
    inr
      (same_pending account db _ (update_confirmations-SameBooks m account height db).completed ∙ h)
monitor_if_needed-IsWatched net m account height true db o w =
    let same = (update_confirmations-SameBooks m account height db).completed in
    watched account _ _ (
      (monitor_pending-IsCycle m height account net _ _ _ refl refl).idle
        (transport (ap HasOwnIds (sym same)) o))

is_kept-Moves :
    (m : MonitorConfig) (height k : ℕ) (rs rs' : List CompletedTransaction)
    → Moves m height rs rs'
    → is_kept k rs' ≡ is_kept k rs
is_kept-Moves m height k _ _ Pairwise.no_pairs = refl
is_kept-Moves m height k _ _ (Pairwise.pair r r' rs rs' v p) =
    ground (arith, Move-id m height r r' v, is_kept-Moves m height k rs rs' p)

HasOwnIds-Moves :
    (m : MonitorConfig) (height : ℕ) (rs rs' : List CompletedTransaction)
    → Moves m height rs rs'
    → HasOwnIds rs
    → HasOwnIds rs'
HasOwnIds-Moves m height _ _ Pairwise.no_pairs o = o
HasOwnIds-Moves m height _ _ (Pairwise.pair r r' rs rs' v p) (o, os) = (
  rw (Move-id m height r r' v) (is_kept-Moves m height r.id rs rs' p ∙ o),
  HasOwnIds-Moves m height rs rs' p os,
)

-- The flag and the database of an account that is watched: from a start of the monitor on, by cycles
-- with any node, and by anything that leaves the completed transactions alone.
pub data IsMonitored (account : ℕ) : Bool → Db → Type 0 where
  starts :
      (db : Db)
      → HasOwnIds db.completed_transactions
      → IsMonitored account (initialize account db) db
  cycles :
      (net : Network) (m : MonitorConfig) (height : ℕ) (flag : Bool) (db : Db)
      → IsMonitored account flag db
      → IsMonitored account
          (monitor_if_needed net m account height flag db).1
          (monitor_if_needed net m account height flag db).2
  is_left_alone :
      (flag : Bool) (db db' : Db)
      → db'.completed_transactions ≡ db.completed_transactions
      → IsMonitored account flag db
      → IsMonitored account flag db'

monitored_lem :
    (account : ℕ) (flag : Bool) (db : Db)
    → IsMonitored account flag db
    → HasOwnIds db.completed_transactions × IsWatched account flag db
monitored_lem account _ _ (IsMonitored.starts db o) = (o, initialize-IsWatched account db)
monitored_lem account _ _ (IsMonitored.cycles net m height flag db r) =
    let (o, w) = monitored_lem account flag db r in
    (
      HasOwnIds-Moves m height db.completed_transactions _
          (monitor_if_needed-Moves net m account height flag db o) o,
      monitor_if_needed-IsWatched net m account height flag db o w,
    )
monitored_lem account _ _ (IsMonitored.is_left_alone flag db db' e r) =
    let (o, w) = monitored_lem account flag db r in
    (
      transport (ap HasOwnIds (sym e)) o,
      elim w [ inl y ↦ inl y | inr n ↦ inr (same_pending account db db' e ∙ n) ],
    )

-- Once the monitor has started for an account, and through any number of cycles, whatever the nodes
-- answer and whether or not the cycles fail, its flag is up or the account has no pending transaction,
-- as long as nothing but the cycles changes the completed transactions. Their ids are distinct at the
-- start. A transaction that another task adds or returns to pending in between is not covered.
pub IsMonitored-IsWatched :
    (account : ℕ) (flag : Bool) (db : Db) → IsMonitored account flag db → IsWatched account flag db
IsMonitored-IsWatched account flag db r = (monitored_lem account flag db r).1
