-- ===== src/Displayed/Solutions.antt =====
-- The inputs that solve_back_track (displayed_transaction_processor/processor.rs) gives to several
-- payments.
use minotari_cli.Base.{
  All, All-append, AreOwn, AreOwn-append, AreOwn-select, Bool, Bool-cases, List, Option,
  Option-cases, [], ap, arith, false, inl, inr, insert_asc, is_listed, length, none, not, order_asc,
  refl, select, some, suc, true, ℕ, ◌++◌, ◌+◌, ◌<◌, ◌==◌, ◌∙◌, ◌∷◌, ◌≡◌,
}
use minotari_cli.Displayed.Choices.{IsEntry, IsPayment, backtrack_subset-IsPayment}
use minotari_cli.Displayed.Subset.{
  backtrack_subset, contains, indices, look_up, or_empty, range_from, solve_back_track, solve_each,
}

abbrev IsAmong : List ℕ → List ℕ → Type 0
IsAmong pool is = All (λ i. contains i pool ≡ true) is

-- the indices of all solutions
abbrev pub all_used : List (ℕ × List ℕ) → List ℕ
all_used [] = []
all_used ((_, used) ∷ solutions) = used ++ all_used solutions

indices-AreOwn : (cs : List (ℕ × ℕ)) → AreOwn (λ c. c.0) cs → AreOwn (λ i. i) (indices cs)
indices-AreOwn [] _ = tt
indices-AreOwn (c ∷ cs) (o, os) = (is_listed-indices c.0 cs ∙ o, indices-AreOwn cs os)
  where
    is_listed-indices :
        (i : ℕ) (cs : List (ℕ × ℕ)) → is_listed (λ i. i) i (indices cs) ≡ is_listed (λ c. c.0) i cs
    is_listed-indices i [] = refl
    is_listed-indices i (c ∷ cs) = ground (arith, is_listed-indices i cs)

indices-IsAmong :
    (pool nums : List ℕ) (cs : List (ℕ × ℕ))
    → All (λ c. IsEntry pool nums c) cs
    → IsAmong pool (indices cs)
indices-IsAmong pool nums [] _ = tt
indices-IsAmong pool nums (c ∷ cs) ((_, h), hs) = (h, indices-IsAmong pool nums cs hs)

IsPayment-indices :
    (pool nums : List ℕ) (found : List (ℕ × ℕ)) (target : ℕ) (r : Option (List (ℕ × ℕ)))
    → IsPayment pool nums found target r
    → AreOwn (λ i. i) (or_empty r) × IsAmong pool (or_empty r)
IsPayment-indices pool nums found target none _ = (tt, tt)
IsPayment-indices pool nums found target (some cs) (_, o, h) =
    (indices-AreOwn cs o, indices-IsAmong pool nums cs h)

subset-IsAmong :
    (pool nums : List ℕ) (target : ℕ)
    → AreOwn (λ i. i) pool
    → let used = or_empty (backtrack_subset pool nums target) in
      AreOwn (λ i. i) used × IsAmong pool used
subset-IsAmong pool nums target o = elim (Option-cases (look_up pool nums)) [
  | inl e ↦ unfold backtrack_subset in rw (e, backtrack_subset) (tt, tt)
  | inr (found, e) ↦
      IsPayment-indices pool nums found target _
        (backtrack_subset-IsPayment pool nums found target o e)
]

IsAmong-select :
    (p : ℕ → Bool) (pool is : List ℕ)
    → IsAmong (select p pool) is
    → IsAmong pool is × All (λ i. p i ≡ true) is
IsAmong-select p pool [] _ = (tt, tt)
IsAmong-select p pool (i ∷ is) (h, hs) =
    let (k, q) = contains-select i pool h in
    let (ks, qs) = IsAmong-select p pool is hs in ((k, ks), (q, qs))
  where
    contains-select :
        (i : ℕ) (pool : List ℕ)
        → contains i (select p pool) ≡ true
        → (contains i pool ≡ true) × (p i ≡ true)
    contains-select i [] h = absurd (cc)
    contains-select i (j ∷ pool) h = elim (Bool-cases (p j)) [
      | inl y ↦ elim (Bool-cases (j == i)) [
        | inl e ↦ (ground (arith, e), ground (arith, e, y))
        | inr n ↦
            let (k, q) = contains-select i pool (ground (arith, h, y, n)) in (ground (arith, k), q)
      ]
      | inr m ↦ let (k, q) = contains-select i pool (ground (arith, h, m)) in (ground (arith, k), q)
    ]

first_apart :
    (u : ℕ) (used is : List ℕ)
    → All (λ i. not (contains i (u ∷ used)) ≡ true) is
    → (is_listed (λ i. i) u is ≡ false) × All (λ i. not (contains i used) ≡ true) is
first_apart u used [] _ = (refl, tt)
first_apart u used (i ∷ is) (h, hs) =
    let (n, k) = first_apart u used is hs in (ground (arith, n, h), (ground (arith, h), k))

apart :
    (used is : List ℕ)
    → All (λ i. not (contains i used) ≡ true) is
    → All (λ u. is_listed (λ i. i) u is ≡ false) used
apart [] is _ = tt
apart (u ∷ used) is h = let (n, k) = first_apart u used is h in (n, apart used is k)

solve_each-AreOwn :
    (nums : List ℕ) (targets : List (ℕ × ℕ)) (remaining : List ℕ)
    → AreOwn (λ i. i) remaining
    → let used = all_used (solve_each nums targets remaining) in
      AreOwn (λ i. i) used × IsAmong remaining used
unfolding solve_each
solve_each-AreOwn nums [] remaining o = (tt, tt)
solve_each-AreOwn nums ((target, output) ∷ targets) remaining o =
    let used = or_empty (backtrack_subset remaining nums target) in
    let left = select (λ i. not (contains i used)) remaining in
    let (p, q) = subset-IsAmong remaining nums target o in
    let (r, s) = solve_each-AreOwn nums targets left (AreOwn-select (λ i. i) _ remaining o) in
    let (t, u) = IsAmong-select (λ i. not (contains i used)) remaining _ s in
    (AreOwn-append (λ i. i) used _ p r (apart used _ u), All-append _ used _ q t)

range_from-apart : (k m : ℕ) (xs : List ℕ) → k < m → is_listed (λ i. i) k (range_from m xs) ≡ false
range_from-apart k m [] h = refl
range_from-apart k m (_ ∷ xs) h =
    ground (arith, h, range_from-apart k (m + 1) xs (omega (arith, h)))

range_from-AreOwn : (k : ℕ) (xs : List ℕ) → AreOwn (λ i. i) (range_from k xs)
range_from-AreOwn k [] = tt
range_from-AreOwn k (_ ∷ xs) =
    (range_from-apart k (k + 1) xs (omega arith), range_from-AreOwn (k + 1) xs)

range_from-below : (i k : ℕ) (xs : List ℕ) → contains i (range_from k xs) ≡ true → i < k + length xs
range_from-below i k [] h = absurd (cc)
range_from-below i k (_ ∷ xs) h = elim (Bool-cases (k == i)) [
  | inl y ↦ ground (arith, y)
  | inr n ↦ omega (arith, range_from-below i (k + 1) xs (ground (arith, n, h)))
]

All-below :
    (n : ℕ) (pool is : List ℕ)
    → ((i : ℕ) → contains i pool ≡ true → i < n)
    → IsAmong pool is
    → All (λ i. i < n) is
All-below n pool [] f _ = tt
All-below n pool (i ∷ is) f (h, hs) = (f i h, All-below n pool is f hs)

length-insert_asc : (x : ℕ) (xs : List ℕ) → length (insert_asc (λ v. v) x xs) ≡ suc (length xs)
length-insert_asc x [] = refl
length-insert_asc x (y ∷ ys) = ground (arith, length-insert_asc x ys)

length-order_asc : (xs : List ℕ) → length (order_asc (λ v. v) xs) ≡ length xs
length-order_asc [] = refl
length-order_asc (x ∷ xs) =
    length-insert_asc x (order_asc (λ v. v) xs) ∙ ap suc (length-order_asc xs)

-- Whatever the payments, every index that the search gives to one of them is that of an input, and no
-- input is given to two payments or twice to one.
pub solve_back_track-AreOwn :
    (values : List ℕ) (targets : List (ℕ × ℕ))
    → let used = all_used (solve_back_track values targets) in
      AreOwn (λ i. i) used × All (λ i. i < length values) used
unfolding solve_back_track
solve_back_track-AreOwn values targets =
    let nums = order_asc (λ v. v) values in
    let (o, h) =
      solve_each-AreOwn nums (order_asc (λ t. t.0) targets) (range_from 0 nums)
        (range_from-AreOwn 0 nums) in
    (
      o,
      All-below (length values) (range_from 0 nums) _
          (λ i c. omega (arith, range_from-below i 0 nums c, length-order_asc values)) h,
    )
