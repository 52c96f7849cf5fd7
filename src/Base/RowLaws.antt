-- ===== src/Base/RowLaws.antt =====
-- Laws of the table operations: sums, selections and updates.
use Prim.Native.Nat.{ℕ, ◌+◌}
use mathlib.Core.Path.{◌≡◌, refl}
use mathlib.Core.Bool.{Bool, true}
use mathlib.Core.List.{List, [], ◌∷◌, ◌++◌}
use mathlib.Core.Option.{Option, some}
use native.Mathlib.Omega.{arith}
use minotari_cli.Base.Rows.{select, update_where, sum_where, find}

module _ {ℓ} {A : Type ℓ} where
  pub sum_where-append :
      (p : A → Bool) (f : A → ℕ) (xs ys : List A)
      → sum_where p f (xs ++ ys) ≡ sum_where p f xs + sum_where p f ys
  sum_where-append p f [] ys = omega arith
  sum_where-append p f (x ∷ xs) ys = omega (arith, sum_where-append p f xs ys)

  -- An update that keeps the column and the condition keeps the sum.
  pub sum_where-update_where :
      (p : A → Bool) (f : A → ℕ) (q : A → Bool) (g : A → A) (xs : List A)
      → ((x : A) → p (g x) ≡ p x)
      → ((x : A) → f (g x) ≡ f x)
      → sum_where p f (update_where q g xs) ≡ sum_where p f xs
  sum_where-update_where p f q g [] hp hf = refl
  sum_where-update_where p f q g (x ∷ xs) hp hf =
      ground (arith, hp x, hf x, sum_where-update_where p f q g xs hp hf)

  pub find-update_where {κ} :
      {B : Type κ} (p : A → Bool) (q : A → Bool) (g : A → A) (f : Option A → B) (xs : List A)
      → ((x : A) → p (g x) ≡ p x)
      → ((x : A) → f (some (g x)) ≡ f (some x))
      → f (find p (update_where q g xs)) ≡ f (find p xs)
  find-update_where p q g f [] hp hf = refl
  find-update_where p q g f (x ∷ xs) hp hf =
      ground (arith, hp x, hf x, find-update_where p q g f xs hp hf)

  abbrev pub sum : (A → ℕ) → List A → ℕ
  sum f xs = sum_where (λ _. true) f xs

  pub sum-select : (p : A → Bool) (f : A → ℕ) (xs : List A) → sum f (select p xs) ≡ sum_where p f xs
  sum-select p f [] = refl
  sum-select p f (x ∷ xs) = ground (arith, sum-select p f xs)
