-- ===== src/Ledger/Sound.antt =====
-- Predicates on the ids and values in the tables outputs and inputs (minotari/src/db): the ids of
-- outputs are distinct and below the next one, the value column repeats the output's value, and
-- inputs name ids below the next one.
use minotari_cli.Base.{
  All, Bool, Bool-cases, List, [], any, arith, false, find, inl, inr, refl, some, suc, update_where,
  ℕ, ◌++◌, ◌<◌, ◌==◌, ◌∙◌, ◌∷◌, ◌≡◌, ◌≢◌,
}
use minotari_cli.Db.Tables.{Db, InputRow, OutputRow}
use minotari_cli.Ledger.Totals.{IsBalanced}

abbrev pub has_id : ℕ → OutputRow → Bool
has_id k o = o.id == k

-- the outputs, with ids below `n`
abbrev pub AreSound : ℕ → List OutputRow → Type 0
AreSound n [] = Unit
AreSound n (o ∷ os) =
    (o.id < n) × (o.value ≡ o.wallet_output.value) × (any (has_id o.id) os ≡ false) × AreSound n os

abbrev pub AreBelow : ℕ → List InputRow → Type 0
AreBelow n is = All (λ i. i.output_id < n) is

abbrev IsSound : Db → Type 0
IsSound db = AreSound db.next_output_id db.outputs × AreBelow db.next_output_id db.inputs

-- the database has sound tables, and the books of account `b` balance
pub record IsConsistent (b : ℕ) (db : Db) : Type 0 where
  pub sound : IsSound db
  pub balanced : IsBalanced b db

any-has_id-append :
    (k : ℕ) (os : List OutputRow) (row : OutputRow)
    → any (has_id k) os ≡ false
    → k ≢ row.id
    → any (has_id k) (os ++ row ∷ []) ≡ false
any-has_id-append k [] row h ne = ground arith
any-has_id-append k (o ∷ os) row h ne = ground (arith, any-has_id-append k os row)

pub AreSound-append :
    (os : List OutputRow) (row : OutputRow)
    → AreSound row.id os
    → row.value ≡ row.wallet_output.value
    → AreSound (suc row.id) (os ++ row ∷ [])
AreSound-append [] row s v = (omega arith, v, refl, tt)
AreSound-append (o ∷ os) row (lt, ve, ne, s) v =
    (omega arith, ve, any-has_id-append o.id os row ne (omega arith), AreSound-append os row s v)

-- An update that keeps ids and values.
any-has_id-update :
    (k : ℕ) (q : OutputRow → Bool) (g : OutputRow → OutputRow) (os : List OutputRow)
    → ((o : OutputRow) → (g o).id ≡ o.id)
    → any (has_id k) (update_where q g os) ≡ any (has_id k) os
any-has_id-update k q g [] h = refl
any-has_id-update k q g (o ∷ os) h = ground (arith, h o, any-has_id-update k q g os h)

abbrev pub Keeps : (OutputRow → OutputRow) → Type 0
Keeps g =
    (o : OutputRow)
    → ((g o).id ≡ o.id) × ((g o).value ≡ o.value) × ((g o).wallet_output ≡ o.wallet_output)

pub AreSound-update :
    (n : ℕ) (q : OutputRow → Bool) (g : OutputRow → OutputRow) (os : List OutputRow)
    → Keeps g
    → AreSound n os
    → AreSound n (update_where q g os)
AreSound-update n q g [] h s = tt
AreSound-update n q g (o ∷ os) h (lt, ve, ne, s) = elim (Bool-cases (q o)) [
  | inl y ↦
      rw (y, (h o).0, (h o).1, (h o).2)
        (lt, ve, any-has_id-update o.id q g os (λ x. (h x).0) ∙ ne, AreSound-update n q g os h s)
  | inr y ↦
      rw y (lt, ve, any-has_id-update o.id q g os (λ x. (h x).0) ∙ ne, AreSound-update n q g os h s)
]

-- a row that a query finds is the row of its id
pub find-ne :
    (k : ℕ) (p : OutputRow → Bool) (os : List OutputRow) (o : OutputRow)
    → find p os ≡ some o
    → any (has_id k) os ≡ false
    → (o.id == k) ≡ false
find-ne k p [] o e h = cc
find-ne k p (x ∷ os) o e h = ground (arith, find-ne k p os o)

pub find-has_id :
    (n : ℕ) (p : OutputRow → Bool) (os : List OutputRow) (o : OutputRow)
    → AreSound n os
    → find p os ≡ some o
    → find (has_id o.id) os ≡ some o
find-has_id n p [] o s e = cc
find-has_id n p (x ∷ os) o (lt, ve, ne, s) e =
    ground (arith, find-has_id n p os o s, find-ne x.id p os o)

pub find-value :
    (n : ℕ) (p : OutputRow → Bool) (os : List OutputRow) (o : OutputRow)
    → AreSound n os
    → find p os ≡ some o
    → (o.value ≡ o.wallet_output.value) × (o.id < n)
find-value n p [] o s e = cc
find-value n p (x ∷ os) o (lt, ve, ne, s) e = ground (arith, find-value n p os o s)
