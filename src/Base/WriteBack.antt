-- ===== src/Base/WriteBack.antt =====
-- A loop over rows that it read before, each of which it writes back under its key at most once:
-- what has become of the table, row by row, and what a sum over the table has changed by.
use Prim.Native.Nat.{ℕ, ◌+◌}
use mathlib.Core.Path.{◌≡◌, refl, ap, ◌∙◌}
use mathlib.Core.Bool.{false, true}
use mathlib.Core.Logic.{inl, inr}
use mathlib.Core.List.{List, [], ◌∷◌}
use native.Mathlib.Omega.{arith}
use minotari_cli.Base.Tests.{◌==◌, Bool-cases, if◌then◌else◌}
use minotari_cli.Base.Rows.{sum_where, update_where}
use minotari_cli.Base.RowLaws.{sum}
use minotari_cli.Base.Keys.{AreOwn, IsSnapshot, is_listed}

-- Two tables of related rows.
pub data Pairwise {A : Type 0} (R : A → A → Type 0) : List A → List A → Type 0 where
  no_pairs : Pairwise R [] []
  pair : (r r' : A) (rs rs' : List A) → R r r' → Pairwise R rs rs' → Pairwise R (r ∷ rs) (r' ∷ rs')

-- Besides, the rows of the list `ts`, which the loop still has before it, are as they were.
pub data Turns {A : Type 0} (key : A → ℕ) (R : A → A → Type 0) (ts : List A)
    : List A → List A → Type 0 where
  no_turns : Turns key R ts [] []
  turn :
      (r r' : A) (rs rs' : List A)
      → R r r'
      → (is_listed key (key r) ts ≡ true → r' ≡ r)
      → Turns key R ts rs rs'
      → Turns key R ts (r ∷ rs) (r' ∷ rs')

module _ {A : Type 0} (key : A → ℕ) (R : A → A → Type 0) where
  pub Turns-start : ((r : A) → R r r) → (ts rs : List A) → Turns key R ts rs rs
  Turns-start s ts [] = Turns.no_turns
  Turns-start s ts (r ∷ rs) = Turns.turn r r rs rs (s r) (λ _. refl) (Turns-start s ts rs)

  pub Turns-Pairwise : (ts rs rs' : List A) → Turns key R ts rs rs' → Pairwise R rs rs'
  Turns-Pairwise ts _ _ Turns.no_turns = Pairwise.no_pairs
  Turns-Pairwise ts _ _ (Turns.turn r r' rs rs' v k g) =
      Pairwise.pair r r' rs rs' v (Turns-Pairwise ts rs rs' g)

  pub Turns-skip :
      (t : A) (ts rs rs' : List A) → Turns key R (t ∷ ts) rs rs' → Turns key R ts rs rs'
  Turns-skip t ts _ _ Turns.no_turns = Turns.no_turns
  Turns-skip t ts _ _ (Turns.turn r r' rs rs' v k g) =
      Turns.turn r r' rs rs' v (λ h. k (ground (arith, h))) (Turns-skip t ts rs rs' g)

  same_row :
      (t r r' : A) (f : A → A)
      → r ≡ t
      → r' ≡ t
      → (key t == key t) ≡ true
      → R t (f t)
      → R r (if key r' == key t then f r' else r')
  same_row t r r' f e e' y v = rw (e, e', y) v

  -- the row of `t` is written
  pub Turns-update_where :
      ((r r' : A) → R r r' → key r' ≡ key r)
      → (t : A) (ts rs rs' : List A) (f : A → A) → is_listed key (key t) ts ≡ false
      → IsSnapshot key rs t
      → R t (f t)
      → Turns key R (t ∷ ts) rs rs'
      → Turns key R ts rs (update_where (λ r. key r == key t) f rs')
  Turns-update_where same t ts _ _ f o s v Turns.no_turns = Turns.no_turns
  Turns-update_where same t ts _ _ f o s v (Turns.turn r r' rs rs' w k g) =
      let rest = Turns-update_where same t ts rs rs' f o s.1 v g in
      elim (Bool-cases (key r == key t)) [
        | inl y ↦
            let e : r ≡ t = s.0 y in
            let e' : r' ≡ t = k (ground (arith, y)) ∙ e in
            Turns.turn r _ rs _ (same_row t r r' f e e' (cc) v) (λ h. ground (arith, h, o, y)) rest
        | inr n ↦
            let other : (key r' == key t) ≡ false = ap (λ i. i == key t) (same r r' w) ∙ n in
            Turns.turn r _ rs _ (rw other w) (λ h. rw other (k (ground (arith, h)))) rest
      ]

  weight_row :
      (w : A → ℕ) (t r r' : A) (f : A → A) (a b c d : ℕ)
      → r' ≡ t
      → (key t == key t) ≡ true
      → a + b ≡ c + d
      → w (if key r' == key t then f r' else r') + a + (w t + b) ≡ w r' + c + (w (f t) + d)
  weight_row w t r r' f a b c d e y h = rw (e, y) (omega (arith, h))

  Turns-weigh :
      ((r r' : A) → R r r' → key r' ≡ key r)
      → (w : A → ℕ) (t : A) (ts rs rs' : List A) (f : A → A) → IsSnapshot key rs t
      → Turns key R (t ∷ ts) rs rs'
      → sum w (update_where (λ r. key r == key t) f rs')
          + sum_where (λ r. key r == key t) (λ _. w t) rs
        ≡ sum w rs' + sum_where (λ r. key r == key t) (λ _. w (f t)) rs
  Turns-weigh same w t ts _ _ f s Turns.no_turns = refl
  Turns-weigh same w t ts _ _ f s (Turns.turn r r' rs rs' v k g) =
      let rest = Turns-weigh same w t ts rs rs' f s.1 g in
      elim (Bool-cases (key r == key t)) [
        | inl y ↦
            let e : r ≡ t = s.0 y in
            let e' : r' ≡ t = k (ground (arith, y)) ∙ e in
            rw y (weight_row w t r r' f _ _ _ _ e' (cc) rest)
        | inr n ↦
            let other : (key r' == key t) ≡ false = ap (λ i. i == key t) (same r r' v) ∙ n in
            ground (arith, other, n, rest)
      ]

  sum_unlisted :
      (i k : ℕ) (rs : List A)
      → is_listed key i rs ≡ false
      → sum_where (λ r. key r == i) (λ _. k) rs ≡ 0
  sum_unlisted i k [] h = refl
  sum_unlisted i k (r ∷ rs) h = ground (arith, h, sum_unlisted i k rs)

  -- A row that stands in a table stands there once.
  sum_listed :
      (i k : ℕ) (rs : List A)
      → AreOwn key rs
      → is_listed key i rs ≡ true
      → sum_where (λ r. key r == i) (λ _. k) rs ≡ k
  sum_listed i k [] o h = absurd (cc)
  sum_listed i k (r ∷ rs) (o, os) h = elim (Bool-cases (key r == i)) [
    | inl y ↦ ground (arith, y, o, sum_unlisted i k rs)
    | inr n ↦ ground (arith, n, h, sum_listed i k rs os)
  ]

  -- A sum over the table changes by what it gives for the row that is written.
  pub sum-Turns :
      ((r r' : A) → R r r' → key r' ≡ key r)
      → (w : A → ℕ) (t : A) (ts rs rs' : List A) (f : A → A) → IsSnapshot key rs t
      → AreOwn key rs
      → is_listed key (key t) rs ≡ true
      → Turns key R (t ∷ ts) rs rs'
      → sum w (update_where (λ r. key r == key t) f rs') + w t ≡ sum w rs' + w (f t)
  sum-Turns same w t ts rs rs' f s o l g = omega (
    arith,
    Turns-weigh same w t ts rs rs' f s g,
    sum_listed (key t) (w t) rs o l,
    sum_listed (key t) (w (f t)) rs o l,
  )
