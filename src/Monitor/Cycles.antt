-- ===== src/Monitor/Cycles.antt =====
-- Whole cycles of the monitor: `monitor_if_needed` of transactions/monitor.rs.
use minotari_cli.Base.{
  All, Bool, Bool-cases, List, Result-cases, Turns-Pairwise, [], ap, arith, false, first, inl, inr,
  leb, length, not, of_ok, refl, sym, transport, true, ℕ, ◌++◌, ◌-◌, ◌==◌, ◌∙◌, ◌∷◌, ◌≡◌,
}
use minotari_cli.Db.CompletedTransactions.{get_pending_completed_transactions}
use minotari_cli.Db.DisplayedTransactions.{update_displayed_transaction_confirmations}
use minotari_cli.Db.Tables.{CompletedTransaction, Db}
use minotari_cli.Ledger.Frames.{SameBooks, SameBooks-trans}
use minotari_cli.Ledger.Rows.{IsConsistent-same}
use minotari_cli.Ledger.Sound.{IsConsistent}
use minotari_cli.Models.{DisplayedTransaction, WalletEvent}
use minotari_cli.Monitor.Cycle.{
  Outcome, flag_after, from_transactions, monitor_if_needed, monitor_pending,
  process_pending_transactions, remaining_count, terminal_transitions, update_confirmations,
  update_each, with_confirmations,
}
use minotari_cli.Monitor.Lifecycle.{Run-Going, Run-IsConsistent, Run-open_count, process-Runs}
use minotari_cli.Monitor.Loops.{MonitorConfig, MonitoringResult, extend_result}
use minotari_cli.Monitor.Moves.{Going-start, HasOwnIds, Move, Moves}
use minotari_cli.Monitor.Node.{Network}
use minotari_cli.Monitor.Pending.{
  IsPending, fetched-HasOwnIds, fetched-IsPending, in_turn, in_turn-All, in_turn-HasOwnIds,
  length-get_pending, open_count, remaining_count-from_transactions,
}
use minotari_cli.Monitor.Run.{Run}

update_each-SameBooks :
    (m : MonitorConfig) (height : ℕ) (ts : List DisplayedTransaction) (db : Db)
    → SameBooks db (update_each m height ts db).1
unfolding update_each update_displayed_transaction_confirmations
update_each-SameBooks m height [] db = record {
  outs = refl;
  ins = refl;
  ledger = refl;
  next = refl;
  tips = refl;
  completed = refl;
}
update_each-SameBooks m height (t ∷ ts) db =
    let confirmations : ℕ = height - t.blockchain.block_height in
    let db' =
      (update_displayed_transaction_confirmations (with_confirmations m confirmations t) db).1 in
    let one : SameBooks db db' = record {
      outs = refl;
      ins = refl;
      ledger = refl;
      next = refl;
      tips = refl;
      completed = refl;
    } in
    elim (Bool-cases (confirmations == t.blockchain.confirmations)) [
      | inl y ↦ rw (y, update_each) (update_each-SameBooks m height ts db)
      | inr n ↦ rw (n, update_each) (SameBooks-trans one (update_each-SameBooks m height ts db'))
    ]

pub update_confirmations-SameBooks :
    (m : MonitorConfig) (account height : ℕ) (db : Db)
    → SameBooks db (update_confirmations m account height db).1
unfolding update_confirmations
update_confirmations-SameBooks m account height db = update_each-SameBooks m height _ db

All-map :
    {P Q : CompletedTransaction → Type 0}
    → ((t : CompletedTransaction) → P t → Q t)
    → (ts : List CompletedTransaction) → All P ts
    → All Q ts
All-map f [] _ = tt
All-map f (t ∷ ts) (h, hs) = (f t h, All-map f ts hs)

none_left : (ts : List CompletedTransaction) → length ts ≡ 0 → ts ≡ []
none_left [] h = refl
none_left (t ∷ ts) h = absurd (omega (arith, h))

flag_cleared :
    (n : ℕ) (first q : MonitoringResult) (es : List WalletEvent)
    → first.wallet_events ≡ []
    → q.wallet_events ≡ es
    → flag_after n (extend_result first q) ≡ false
    → leb n (terminal_transitions es) ≡ true
unfolding extend_result
flag_cleared n first q es e e' f =
    let all : first.wallet_events ++ q.wallet_events ≡ es = rw (e, e') refl in
    not_false _ (ap (λ xs. not (leb n (terminal_transitions xs))) (sym all) ∙ f)
  where
    not_false : (b : Bool) → not b ≡ false → b ≡ true
    not_false true h = refl
    not_false false h = absurd (cc)

module _ (m : MonitorConfig) (height account : ℕ) (net : Network) where
  -- what is shown of the pending transactions' cycle, for the database it starts from
  pub record IsCycle (db : Db) (out : Outcome) : Type 0 where
    moves :
        HasOwnIds db.completed_transactions
        → Moves m height db.completed_transactions out.2.completed_transactions
    books : (b : ℕ) → IsConsistent b db → IsConsistent b out.2
    pub idle :
        HasOwnIds db.completed_transactions
        → out.1 ≡ false
        → get_pending_completed_transactions account out.2 ≡ []

  module _ (db : Db) (ts : List CompletedTransaction)
      (here : get_pending_completed_transactions account db ≡ ts) where
    here-IsPending :
        HasOwnIds db.completed_transactions → All (IsPending account db.completed_transactions) ts
    here-IsPending o =
        transport (ap (All (IsPending account db.completed_transactions)) here)
          (fetched-IsPending account db o)

    here-HasOwnIds : HasOwnIds db.completed_transactions → HasOwnIds ts
    here-HasOwnIds o = transport (ap HasOwnIds here) (fetched-HasOwnIds account db o)

    counted_here :
        HasOwnIds db.completed_transactions
        → remaining_count (from_transactions ts) ≡ open_count account db.completed_transactions
    counted_here o =
        remaining_count-from_transactions account ts
          (All-map (λ t p. p.pending) ts (here-IsPending o))
        ∙ (ap length (sym here) ∙ length-get_pending account db)

    module _ (es : List WalletEvent) (db' : Db)
        (r : Run m height (in_turn (from_transactions ts)) es db db') where
      run-Moves :
          HasOwnIds db.completed_transactions
          → Moves m height db.completed_transactions db'.completed_transactions
      run-Moves o =
          let rs = db.completed_transactions in
          Turns-Pairwise (λ t. t.id) (Move m height) [] rs _
            (Run-Going m height account (in_turn (from_transactions ts)) es db db' rs
              (in_turn-HasOwnIds ts (here-HasOwnIds o)) (in_turn-All _ ts (here-IsPending o))
              (Going-start m height _ rs) r)

      run_idle :
          HasOwnIds db.completed_transactions
          → leb (remaining_count (from_transactions ts)) (terminal_transitions es) ≡ true
          → get_pending_completed_transactions account db' ≡ []
      run_idle o f =
          let rs = db.completed_transactions in
          let c =
            Run-open_count m height account (in_turn (from_transactions ts)) es db db' rs o
              (in_turn-HasOwnIds ts (here-HasOwnIds o)) (in_turn-All _ ts (here-IsPending o))
              (Going-start m height _ rs) r in
          none_left _ (ground (arith, c, f, counted_here o, length-get_pending account db'))

      run-IsConsistent : (b : ℕ) → IsConsistent b db → IsConsistent b db'
      run-IsConsistent b c = Run-IsConsistent m height account b _ es db db' c r

  pub monitor_pending-IsCycle :
      (first : MonitoringResult) (ts : List CompletedTransaction) (db : Db)
      → first.wallet_events ≡ []
      → get_pending_completed_transactions account db ≡ ts
      → IsCycle db (monitor_pending net m account height first ts db)
  unfolding monitor_pending
  monitor_pending-IsCycle first [] db _ here = record {
    moves = λ _. Turns-Pairwise (λ t. t.id) (Move m height) [] _ _ (Going-start m height [] _);
    books = λ b c. c;
    idle = λ _ _. here;
  }
  monitor_pending-IsCycle first (t ∷ ts) db e here =
      let out = process_pending_transactions net m account height (from_transactions (t ∷ ts)) db in
      let (es, r, k) = process-Runs m height account net (t ∷ ts) db in
      elim (Result-cases out.0) [
        | inr (x, h) ↦
            rw (h, monitor_pending)
              (record {
                moves = run-Moves db (t ∷ ts) here es out.1 r;
                books = run-IsConsistent db (t ∷ ts) here es out.1 r;
                idle = λ _ f. absurd (cc);
              })
        | inl (q, h) ↦
            rw (h, monitor_pending)
              (record {
                moves = run-Moves db (t ∷ ts) here es out.1 r;
                books = run-IsConsistent db (t ∷ ts) here es out.1 r;
                idle = λ o f.
                    run_idle db (t ∷ ts) here es out.1 r o
                      (flag_cleared _ first q es e (of_ok (λ r. r.wallet_events ≡ es) out.0 k h) f);
              })
      ]

-- A cycle keeps the wallet's books, whatever the node answers.
pub monitor_if_needed-IsConsistent :
    (b : ℕ) (net : Network) (m : MonitorConfig) (account height : ℕ) (flag : Bool) (db : Db)
    → IsConsistent b db
    → IsConsistent b (monitor_if_needed net m account height flag db).2
unfolding monitor_if_needed
monitor_if_needed-IsConsistent b net m account height false db c =
    IsConsistent-same b (update_confirmations-SameBooks m account height db) c
monitor_if_needed-IsConsistent b net m account height true db c =
    (monitor_pending-IsCycle m height account net _ _ _ refl refl).books b
      (IsConsistent-same b (update_confirmations-SameBooks m account height db) c)

-- In one cycle of the monitor, whatever the node answers and whether or not the cycle fails, every
-- row of completed_transactions either stays as it is or makes one of these moves: from completed,
-- after fewer than ten attempts, to broadcast with one attempt more; from completed to rejected;
-- from broadcast to mined; from mined to confirmed, where the block that has it is as deep as
-- required, with the payment reference made of its block and its output. No row is added or removed.
-- The table's ids are distinct.
pub monitor_if_needed-Moves :
    (net : Network) (m : MonitorConfig) (account height : ℕ) (flag : Bool) (db : Db)
    → HasOwnIds db.completed_transactions
    → Moves m height db.completed_transactions
        (monitor_if_needed net m account height flag db).2.completed_transactions
unfolding monitor_if_needed
monitor_if_needed-Moves net m account height false db o =
    rw (update_confirmations-SameBooks m account height db).completed
      (Turns-Pairwise (λ t. t.id) (Move m height) [] _ _ (Going-start m height [] _))
monitor_if_needed-Moves net m account height true db o =
    let same = (update_confirmations-SameBooks m account height db).completed in
    transport
      (ap
        (λ rs.
          Moves m height rs
            (monitor_if_needed net m account height true db).2.completed_transactions)
        same)
      ((monitor_pending-IsCycle m height account net _ _ _ refl refl).moves
        (transport (ap HasOwnIds (sym same)) o))
