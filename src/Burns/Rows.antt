-- ===== src/Burns/Rows.antt =====
-- The rows of the burn proofs as the worker goes through them: which are completed, and their files.
use minotari_cli.Base.{
  All, Bool, Bool-cases, IsSnapshot, List, [], any, ap, arith, false, if◌then◌else◌, inl, inr,
  insert_asc, is_listed, map, order_asc, refl, select, true, update_where, ℕ, ◌&&◌, ◌==◌, ◌||◌, ◌∷◌,
  ◌≡◌,
}
use minotari_cli.Burns.Fates.{HasFile, can_prove, is_file_of}
use minotari_cli.Burns.Table.{DbBurnProof, completed_row}
use minotari_cli.Burns.Worker.{BurnProofWorker, ProofFile}

-- the row is processed with success
abbrev pub is_done : BurnProofWorker → List DbBurnProof → DbBurnProof → Bool
is_done w ps r = any (λ p. (p.id == r.id) && can_prove w p) ps

abbrev pub done : BurnProofWorker → List DbBurnProof → DbBurnProof → DbBurnProof
done w ps r = if is_done w ps r then completed_row r else r

module _ {A : Type 0} where
  pub map-cong :
      {B : Type 0} (f g : A → B) (rs : List A) → All (λ r. f r ≡ g r) rs → map f rs ≡ map g rs
  map-cong f g [] _ = refl
  map-cong f g (r ∷ rs) (h, hs) = rw (h, map-cong f g rs hs) refl

  any-insert_asc :
      (q : A → Bool) (by : A → ℕ) (t : A) (ts : List A)
      → any q (insert_asc by t ts) ≡ (q t || any q ts)
  any-insert_asc q by t [] = refl
  any-insert_asc q by t (x ∷ xs) = ground (arith, any-insert_asc q by t xs)

  pub any-order_asc : (q : A → Bool) (by : A → ℕ) (ts : List A) → any q (order_asc by ts) ≡ any q ts
  any-order_asc q by [] = refl
  any-order_asc q by (t ∷ ts) =
      ground (arith, any-insert_asc q by t (order_asc by ts), any-order_asc q by ts)

  pub any-passing : (q p : A → Bool) (ts : List A) → any q (select p ts) ≡ any (λ t. p t && q t) ts
  any-passing q p [] = refl
  any-passing q p (t ∷ ts) = ground (arith, any-passing q p ts)

  -- of the rows with a key, only one can pass a test
  pub any-own :
      (key : A → ℕ) (c d : A → Bool) (t : A) (rs : List A)
      → IsSnapshot key rs t
      → any (λ r. c r && ((key r == key t) && d r)) rs ≡ (is_listed key (key t) rs && (c t && d t))
  any-own key c d t [] _ = refl
  any-own key c d t (r ∷ rs) (s, ss) = elim (Bool-cases (key r == key t)) [
    | inl y ↦ ground (arith, y, ap c (s y), ap d (s y), any-own key c d t rs ss)
    | inr n ↦ ground (arith, n, any-own key c d t rs ss)
  ]

-- one row of the table, once the head of the list is processed
done-cons :
    (w : BurnProofWorker) (p r : DbBurnProof) (ps : List DbBurnProof)
    → done w ps (if can_prove w p && (r.id == p.id) then completed_row r else r) ≡ done w (p ∷ ps) r
done-cons w p r ps = ground arith

pub map-done :
    (w : BurnProofWorker) (p : DbBurnProof) (ps rows : List DbBurnProof)
    → map (done w ps) (update_where (λ r. can_prove w p && (r.id == p.id)) completed_row rows)
      ≡ map (done w (p ∷ ps)) rows
map-done w p ps [] = refl
map-done w p ps (r ∷ rows) = rw (done-cons w p r ps, map-done w p ps rows) refl

pub map-rest : (rows : List DbBurnProof) (w : BurnProofWorker) → rows ≡ map (done w []) rows
map-rest [] w = refl
map-rest (r ∷ rows) w = ap (λ rs. r ∷ rs) (map-rest rows w)

-- the rows under the id of `p` are of the same burn
abbrev pub IsBurnOf : List DbBurnProof → DbBurnProof → Type 0
IsBurnOf rows p = All (λ (r : DbBurnProof). (r.id == p.id) ≡ true → r.burn ≡ p.burn) rows

-- `completed` says whether the row of `p` is processed with success
abbrev pub rows_after : Bool → DbBurnProof → List DbBurnProof → List DbBurnProof
rows_after completed p rows =
    update_where (λ (r : DbBurnProof). completed && (r.id == p.id)) completed_row rows

pub rows_after-IsBurnOf :
    (b : Bool) (p q : DbBurnProof) (rows : List DbBurnProof)
    → IsBurnOf rows q
    → IsBurnOf (rows_after b p rows) q
rows_after-IsBurnOf b p q [] _ = tt
rows_after-IsBurnOf b p q (r ∷ rows) (h, hs) = elim (Bool-cases (b && (r.id == p.id))) [
  | inl y ↦ rw y (h, rows_after-IsBurnOf b p q rows hs)
  | inr n ↦ rw n (h, rows_after-IsBurnOf b p q rows hs)
]

pub rows_after-same : (p : DbBurnProof) (rows : List DbBurnProof) → rows_after false p rows ≡ rows
rows_after-same p [] = refl
rows_after-same p (r ∷ rows) = ap (λ rs. r ∷ rs) (rows_after-same p rows)

-- a row that is completed has the new file, and the others keep theirs
row_after-HasFile :
    (p r : DbBurnProof) (f : ProofFile) (files : List ProofFile) (completed : Bool)
    → is_file_of p.burn f ≡ true
    → (completed ≡ true → r.burn ≡ p.burn)
    → HasFile files r
    → HasFile (f ∷ files) (if completed then completed_row r else r)
row_after-HasFile p r f files true e b h = λ _. rw (b refl) (ground (arith, e))
row_after-HasFile p r f files false e b h = λ c. ground (arith, h c)

pub rows_after-HasFile :
    (p : DbBurnProof) (f : ProofFile) (files : List ProofFile) (rows : List DbBurnProof)
    → is_file_of p.burn f ≡ true
    → IsBurnOf rows p
    → All (HasFile files) rows
    → All (HasFile (f ∷ files)) (rows_after true p rows)
rows_after-HasFile p f files [] _ _ _ = tt
rows_after-HasFile p f files (r ∷ rows) e (b, bs) (h, hs) =
    (row_after-HasFile p r f files (r.id == p.id) e b h, rows_after-HasFile p f files rows e bs hs)
