-- ===== src/Displayed/Indices.antt =====
-- Sums over the elements that a list of indices names, as search_inputs
-- (displayed_transaction_processor/processor.rs) names inputs and outputs.
use minotari_cli.Base.{
  All, AreOwn, AreOwn-order_desc, List, Option, [], arith, false, insert_desc, is_listed,
  is_listed-append, none, order_desc, refl, some, suc, sum, sum_where-append, true, zero, ℕ, ◌++◌,
  ◌+◌, ◌<◌, ◌∷◌, ◌≡◌, ◌≤◌,
}
use minotari_cli.Chain.Sorted.{AreDescending, order_desc-AreDescending}
use minotari_cli.Displayed.Inputs.{remove_at, remove_each}
use minotari_cli.Displayed.Subset.{get}

-- distinct indices, the greatest first
abbrev IsFalling : List ℕ → Type 0
IsFalling [] = Unit
IsFalling (i ∷ is) = All (λ j. j < i) is × IsFalling is

module _ {A : Type 0} (f : A → ℕ) where
  -- the worth of the element at an index, nothing out of bounds
  abbrev pub worth_of : Option A → ℕ
  worth_of none = 0
  worth_of (some x) = f x

  abbrev pub worth_at : List A → ℕ → ℕ
  worth_at xs i = worth_of (get i xs)

  remove_at-worth : (i : ℕ) (xs : List A) → sum f (remove_at i xs) + worth_at xs i ≡ sum f xs
  remove_at-worth zero [] = refl
  remove_at-worth (suc i) [] = refl
  remove_at-worth zero (x ∷ xs) = omega arith
  remove_at-worth (suc i) (x ∷ xs) = omega (arith, remove_at-worth i xs)

  worth_at-remove_at : (i j : ℕ) (xs : List A) → i < j → worth_at (remove_at j xs) i ≡ worth_at xs i
  worth_at-remove_at i zero xs h = absurd (omega (arith, h))
  worth_at-remove_at i (suc j) [] h = refl
  worth_at-remove_at zero (suc j) (x ∷ xs) h = refl
  worth_at-remove_at (suc i) (suc j) (x ∷ xs) h = worth_at-remove_at i j xs (omega (arith, h))

  sum-worth_at-remove_at :
      (is : List ℕ) (j : ℕ) (xs : List A)
      → All (λ i. i < j) is
      → sum (worth_at (remove_at j xs)) is ≡ sum (worth_at xs) is
  sum-worth_at-remove_at [] j xs _ = refl
  sum-worth_at-remove_at (i ∷ is) j xs (h, hs) =
      omega (arith, worth_at-remove_at i j xs h, sum-worth_at-remove_at is j xs hs)

  pub remove_each-worth :
      (is : List ℕ) (xs : List A)
      → IsFalling is
      → sum f (remove_each is xs) + sum (worth_at xs) is ≡ sum f xs
  remove_each-worth [] xs _ = omega arith
  remove_each-worth (i ∷ is) xs (h, hs) = omega (
    arith,
    remove_each-worth is (remove_at i xs) hs,
    sum-worth_at-remove_at is i xs h,
    remove_at-worth i xs,
  )

below :
    (i : ℕ) (is : List ℕ)
    → All (λ j. j ≤ i) is
    → is_listed (λ j. j) i is ≡ false
    → All (λ j. j < i) is
below i [] _ _ = tt
below i (j ∷ is) (h, hs) o = (ground (arith, h, o), below i is hs (ground (arith, o)))

falling : (is : List ℕ) → AreDescending (λ i. i) is → AreOwn (λ i. i) is → IsFalling is
falling [] _ _ = tt
falling (i ∷ is) (h, hs) (o, os) = (below i is h o, falling is hs os)

sum-insert_desc :
    (g : ℕ → ℕ) (i : ℕ) (is : List ℕ) → sum g (insert_desc (λ i. i) i is) ≡ g i + sum g is
sum-insert_desc g i [] = refl
sum-insert_desc g i (j ∷ is) = ground (arith, sum-insert_desc g i is)

pub sum-order_desc : (g : ℕ → ℕ) (is : List ℕ) → sum g (order_desc (λ i. i) is) ≡ sum g is
sum-order_desc g [] = refl
sum-order_desc g (i ∷ is) =
    omega (arith, sum-insert_desc g i (order_desc (λ i. i) is), sum-order_desc g is)

-- removing used inputs, the greatest index first, leaves what the others are worth
pub remove_used-worth :
    {A : Type 0} (f : A → ℕ) (used : List ℕ) (xs : List A)
    → AreOwn (λ i. i) used
    → sum f (remove_each (order_desc (λ i. i) used) xs) + sum (worth_at f xs) used ≡ sum f xs
remove_used-worth f used xs o =
    let sorted = order_desc (λ i. i) used in
    omega (
      arith,
      remove_each-worth f sorted xs (
          falling sorted (order_desc-AreDescending (λ i. i) used)
            (AreOwn-order_desc (λ i. i) (λ i. i) used o)),
      sum-order_desc (worth_at f xs) used,
    )

pub AreOwn-split :
    (is js : List ℕ)
    → AreOwn (λ i. i) (is ++ js)
    → AreOwn (λ i. i) is × AreOwn (λ i. i) js × All (λ i. is_listed (λ j. j) i js ≡ false) is
AreOwn-split [] js o = (tt, o, tt)
AreOwn-split (i ∷ is) js (o, os) =
    let (p, q, r) = AreOwn-split is js os in
    let k = is_listed-append (λ j. j) i is js in
    ((ground (arith, k, o), p), q, (ground (arith, k, o), r))

pub sum-append : (g : ℕ → ℕ) (is js : List ℕ) → sum g (is ++ js) ≡ sum g is + sum g js
sum-append g is js = sum_where-append (λ _. true) g is js
