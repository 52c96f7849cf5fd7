-- ===== src/Burns/Lookup.antt =====
-- A burn from its insertion to the completion of its proof, as a lookup by its output's hash shows it.
use minotari_cli.Base.{
  ==_refl, All, All-append, AreOwn, Bool-cases, List, Option, Option-cases, [], any, ap, arith,
  constraint_violation, err, find, inl, inr, is_listed-append, is_none, map, none, not, ok, refl,
  some, true, ℕ, ◌&&◌, ◌++◌, ◌+◌, ◌<◌, ◌∙◌, ◌∷◌, ◌≡◌, ◌⊎◌,
}
use minotari_cli.Burns.Cycle.{process_pending_proofs-fate}
use minotari_cli.Burns.Fates.{HasFile, can_prove, fate}
use minotari_cli.Burns.Table.{
  BurnTable, DbBurnProof, NewBurnProof, get_burn_proof_by_output_hash, insert_burn_proof, inserted,
  is_pending_merkle, of_hash,
}
use minotari_cli.Burns.Worker.{BurnProofWorker, ProofFile, process_pending_proofs}

find-append :
    (h : ℕ) (r : DbBurnProof) (rows : List DbBurnProof)
    → find (of_hash h) rows ≡ none
    → of_hash h r ≡ true
    → find (of_hash h) (rows ++ (r ∷ [])) ≡ some r
find-append h r [] _ e = rw e refl
find-append h r (x ∷ rows) n e = elim (Bool-cases (of_hash h x)) [
  | inl y ↦ absurd (ground (arith, n, y))
  | inr y ↦ rw y (find-append h r rows (ground (arith, n, y)) e)
]

of_hash-fate : (w : BurnProofWorker) (h : ℕ) (r : DbBurnProof) → of_hash h (fate w r) ≡ of_hash h r
of_hash-fate w h r = elim (Bool-cases (is_pending_merkle r.status && can_prove w r)) [
  | inl y ↦ rw y refl
  | inr n ↦ rw n refl
]

abbrev fated : BurnProofWorker → Option DbBurnProof → Option DbBurnProof
fated w none = none
fated w (some r) = some (fate w r)

find-fate :
    (w : BurnProofWorker) (h : ℕ) (rows : List DbBurnProof)
    → find (of_hash h) (map (fate w) rows) ≡ fated w (find (of_hash h) rows)
find-fate w h [] = refl
find-fate w h (x ∷ rows) = elim (Bool-cases (of_hash h x)) [
  | inl y ↦ rw (of_hash-fate w h x, y) refl
  | inr n ↦ rw (of_hash-fate w h x, n) (find-fate w h rows)
]

any-find :
    (h : ℕ) (rows : List DbBurnProof) → any (of_hash h) rows ≡ not (is_none (find (of_hash h) rows))
any-find h [] = refl
any-find h (r ∷ rows) = ground (arith, any-find h rows)

-- the ids of the table are below the next one
abbrev pub HasNextId : BurnTable → Type 0
HasNextId t = All (λ (r : DbBurnProof). r.id < t.next_id) t.rows

AreOwn-next :
    (n : ℕ) (row : DbBurnProof) (rows : List DbBurnProof)
    → row.id ≡ n
    → All (λ (r : DbBurnProof). r.id < n) rows
    → AreOwn (λ (r : DbBurnProof). r.id) rows
    → AreOwn (λ (r : DbBurnProof). r.id) (rows ++ (row ∷ []))
AreOwn-next n row [] e _ _ = (refl, tt)
AreOwn-next n row (r ∷ rows) e (h, hs) (o, os) = (
  ground (arith, is_listed-append (λ (x : DbBurnProof). x.id) r.id rows (row ∷ []), o, h, e),
  AreOwn-next n row rows e hs os,
)

HasNextId-insert :
    (n : ℕ) (row : DbBurnProof) (rows : List DbBurnProof)
    → row.id ≡ n
    → All (λ (r : DbBurnProof). r.id < n) rows
    → All (λ (r : DbBurnProof). r.id < n + 1) (rows ++ (row ∷ []))
HasNextId-insert n row [] e _ = (omega (arith, e), tt)
HasNextId-insert n row (r ∷ rows) e (h, hs) = (omega (arith, h), HasNextId-insert n row rows e hs)

-- what an insertion leaves, and what a cycle of the worker on a table `t` makes of it
pub record IsInserted (w : BurnProofWorker) (now : ℕ) (burn : NewBurnProof) (files : List ProofFile)
    (t t' : BurnTable) : Type 0 where
  pub own : AreOwn (λ (r : DbBurnProof). r.id) t'.rows
  pub next : HasNextId t'
  pub found :
      get_burn_proof_by_output_hash burn.output_hash t'.rows ≡ some (inserted t.next_id now burn)
  pub found_later :
      get_burn_proof_by_output_hash burn.output_hash
        (process_pending_proofs w (record { burn_proofs = t'.rows; files = files })).burn_proofs
      ≡ some (fate w (inserted t.next_id now burn))

-- A burn is inserted for an output that has no burn proof yet, under the next id, and otherwise
-- refused. Inserted, it is found by the output's hash, and the table's ids stay distinct and below
-- the next one. After a cycle of the worker it is found again: complete where its proof could be made
-- and written, and otherwise as it was inserted. Before, the table's ids are distinct and below the
-- next one, and every complete row has its file.
pub insert_burn_proof-get :
    (w : BurnProofWorker) (now : ℕ) (burn : NewBurnProof) (files : List ProofFile) (t : BurnTable)
    → AreOwn (λ (r : DbBurnProof). r.id) t.rows
    → HasNextId t
    → All (HasFile files) t.rows
    → ((r : DbBurnProof) × (get_burn_proof_by_output_hash burn.output_hash t.rows ≡ some r)
        × (insert_burn_proof now burn t ≡ err constraint_violation))
      ⊎ ((t' : BurnTable) × (get_burn_proof_by_output_hash burn.output_hash t.rows ≡ none)
          × (insert_burn_proof now burn t ≡ ok (t.next_id, t'))
          × IsInserted w now burn files t t')
unfolding insert_burn_proof get_burn_proof_by_output_hash
insert_burn_proof-get w now burn files t o b h =
    let row = inserted t.next_id now burn in
    let clash = any-find burn.output_hash t.rows in
    elim (Option-cases (find (of_hash burn.output_hash) t.rows)) [
      | inr (r, e) ↦ inl (r, e, rw (clash, e) refl)
      | inl e ↦
          let found = find-append burn.output_hash row t.rows e (==_refl burn.output_hash) in
          let own = AreOwn-next t.next_id row t.rows refl b o in
          let stored = All-append _ t.rows (row ∷ []) h (λ e. absurd (cc), tt) in
          let (rows, _) =
            process_pending_proofs-fate w
              (record { burn_proofs = t.rows ++ (row ∷ []); files = files }) own stored in
          inr (
            record { rows = t.rows ++ (row ∷ []); next_id = t.next_id + 1 },
            e,
            rw (clash, e) refl,
            record {
              own = own;
              next = HasNextId-insert t.next_id row t.rows refl b;
              found = found;
              found_later =
                  ap (λ rs. find (of_hash burn.output_hash) rs) rows
                  ∙ find-fate w burn.output_hash (t.rows ++ (row ∷ []))
                  ∙ ap (fated w) found;
            },
          )
    ]
