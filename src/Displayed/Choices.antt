-- ===== src/Displayed/Choices.antt =====
-- Whether backtrack_subset (displayed_transaction_processor/processor.rs) finds inputs for a payment,
-- over the pool of inputs that are left.
use minotari_cli.Base.{
  All, All-order_desc, All-select, AreOwn, AreOwn-order_desc, AreOwn-select, Bool, Bool-cases, List,
  Option, Option-cases, [], ap, arith, false, if◌then◌else◌, inl, inr, insert_desc, is_listed, leb,
  ltb, map, none, order_desc, refl, select, some, sym, transport, true, ℕ, ◌+◌, ◌∙◌, ◌∷◌, ◌≡◌, ◌≤◌,
}
use minotari_cli.Displayed.Search.{
  NoChoice, back_track-Finds, suffix_sums-total, taken_sum, taken_sum-total, total,
}
use minotari_cli.Displayed.Subset.{
  all_false, back_track, backtrack_subset, candidates_of, choose, contains, first_or, get, look_up,
  suffix_sums, taken_of,
}

abbrev pub numbers : List (ℕ × ℕ) → List ℕ
numbers cs = map (λ c. c.1) cs

-- a choice of `vals` that adds up to `s`
abbrev Choice : List ℕ → ℕ → Type 0
Choice vals s = (bs : List Bool) × taken_sum bs vals ≡ s

taken_sum-nil : (bs : List Bool) → taken_sum bs [] ≡ 0
taken_sum-nil [] = refl
taken_sum-nil (b ∷ bs) = refl

select-Choice :
    (target : ℕ) (found : List (ℕ × ℕ)) (bs : List Bool)
    → taken_sum bs (numbers found) ≤ target
    → Choice (numbers (select (λ c. leb c.1 target) found)) (taken_sum bs (numbers found))
select-Choice target [] bs h = (bs, refl)
select-Choice target (c ∷ cs) [] h = ([], refl)
select-Choice target (c ∷ cs) (b ∷ bs) h =
    let (ds, e) = select-Choice target cs bs (omega (arith, h)) in
    elim (Bool-cases (leb c.1 target)) [
      | inl y ↦ rw y (b ∷ ds, omega (arith, e))
      | inr n ↦ rw n (ds, not_taken b n h e)
    ]
  where
    not_taken :
        {r : ℕ} (b : Bool)
        → leb c.1 target ≡ false
        → (if b then c.1 else 0) + taken_sum bs (numbers cs) ≤ target
        → r ≡ taken_sum bs (numbers cs)
        → r ≡ (if b then c.1 else 0) + taken_sum bs (numbers cs)
    not_taken true n h e = ground (arith, n, h)
    not_taken false n h e = omega (arith, e)

insert_desc-Choice :
    (c : ℕ × ℕ) (cs : List (ℕ × ℕ)) (b : Bool) (bs : List Bool)
    → Choice
        (numbers (insert_desc (λ c. c.1) c cs))
        ((if b then c.1 else 0) + taken_sum bs (numbers cs))
insert_desc-Choice c [] b bs = (b ∷ [], omega (arith, taken_sum-nil bs))
insert_desc-Choice c (d ∷ ds) b [] = elim (Bool-cases (leb d.1 c.1)) [
  | inl y ↦ rw y (b ∷ [], refl)
  | inr n ↦ let (es, e) = insert_desc-Choice c ds b [] in rw n (false ∷ es, omega (arith, e))
]
insert_desc-Choice c (d ∷ ds) b (x ∷ bs) = elim (Bool-cases (leb d.1 c.1)) [
  | inl y ↦ rw y (b ∷ x ∷ bs, refl)
  | inr n ↦ let (es, e) = insert_desc-Choice c ds b bs in rw n (x ∷ es, omega (arith, e))
]

order_desc-Choice :
    (cs : List (ℕ × ℕ)) (bs : List Bool)
    → Choice (numbers (order_desc (λ c. c.1) cs)) (taken_sum bs (numbers cs))
order_desc-Choice [] bs = (bs, refl)
order_desc-Choice (c ∷ cs) [] = ([], refl)
order_desc-Choice (c ∷ cs) (b ∷ bs) =
    let (ds, e) = order_desc-Choice cs bs in
    let (es, e') = insert_desc-Choice c (order_desc (λ c. c.1) cs) b ds in
    (es, omega (arith, e, e'))

-- a choice among the pool is one among the candidates
NoChoice-candidates :
    (target : ℕ) (found : List (ℕ × ℕ))
    → NoChoice (numbers (candidates_of target found)) 0 target
    → NoChoice (numbers found) 0 target
NoChoice-candidates target found h bs = λ p.
    let (ds, e) = select-Choice target found bs (omega (arith, p)) in
    let (es, e') = order_desc-Choice (select (λ c. leb c.1 target) found) ds in
    h es (omega (arith, p, e, e'))

taken_of-numbers :
    (bs : List Bool) (cs : List (ℕ × ℕ))
    → total (numbers (taken_of bs cs)) ≡ taken_sum bs (numbers cs)
taken_of-numbers [] cs = refl
taken_of-numbers (b ∷ bs) [] = refl
taken_of-numbers (b ∷ bs) (c ∷ cs) = ground (arith, taken_of-numbers bs cs)

-- The candidates that were chosen add up to the target; or none were, and there is no choice.
abbrev IsAnswer : ℕ → List (ℕ × ℕ) → Option (List (ℕ × ℕ)) → Type 0
IsAnswer target cs (some chosen) =
    (total (numbers chosen) ≡ target) × ((bs : List Bool) × chosen ≡ taken_of bs cs)
IsAnswer target cs none = NoChoice (numbers cs) 0 target

choose-IsAnswer : (target : ℕ) (cs : List (ℕ × ℕ)) → IsAnswer target cs (choose target cs)
unfolding choose
choose-IsAnswer target cs =
    let vals = numbers cs in
    let r = back_track vals (suffix_sums vals) (all_false vals) 0 target in
    elim (Bool-cases (ltb (first_or 0 (suffix_sums vals)) target)) [
      | inl y ↦
          rw (y, choose)
            (λ bs p. ground (arith, y, p, suffix_sums-total vals, taken_sum-total bs vals))
      | inr n ↦
          rw (n, choose)
            (elim (back_track-Finds vals 0 target) [
              | inl (y, s) ↦ rw (y, choose) (omega (arith, s, taken_of-numbers r.1 cs), (r.1, refl))
              | inr (f, _, h) ↦ rw (f, choose) h
            ])
    ]

taken_of-All :
    (P : ℕ × ℕ → Type 0) (bs : List Bool) (cs : List (ℕ × ℕ)) → All P cs → All P (taken_of bs cs)
taken_of-All P [] cs _ = tt
taken_of-All P (b ∷ bs) [] _ = tt
taken_of-All P (true ∷ bs) (c ∷ cs) (h, hs) = (h, taken_of-All P bs cs hs)
taken_of-All P (false ∷ bs) (c ∷ cs) (h, hs) = taken_of-All P bs cs hs

is_listed-taken_of :
    (i : ℕ) (bs : List Bool) (cs : List (ℕ × ℕ))
    → is_listed (λ c. c.0) i cs ≡ false
    → is_listed (λ c. c.0) i (taken_of bs cs) ≡ false
is_listed-taken_of i [] cs h = refl
is_listed-taken_of i (b ∷ bs) [] h = refl
is_listed-taken_of i (b ∷ bs) (c ∷ cs) h = ground (arith, h, is_listed-taken_of i bs cs)

AreOwn-taken_of :
    (bs : List Bool) (cs : List (ℕ × ℕ)) → AreOwn (λ c. c.0) cs → AreOwn (λ c. c.0) (taken_of bs cs)
AreOwn-taken_of [] cs _ = tt
AreOwn-taken_of (b ∷ bs) [] _ = tt
AreOwn-taken_of (true ∷ bs) (c ∷ cs) (o, os) =
    (is_listed-taken_of c.0 bs cs o, AreOwn-taken_of bs cs os)
AreOwn-taken_of (false ∷ bs) (c ∷ cs) (o, os) = AreOwn-taken_of bs cs os

-- an index of the pool with its number
abbrev pub IsEntry : List ℕ → List ℕ → ℕ × ℕ → Type 0
IsEntry pool nums c = (get c.0 nums ≡ some c.1) × (contains c.0 pool ≡ true)

-- what `look_up` gives for a pool of distinct indices
record IsLookedUp (pool nums : List ℕ) (found : List (ℕ × ℕ)) : Type 0 where
  entries : All (λ c. IsEntry pool nums c) found
  own : AreOwn (λ c. c.0) found
  same : (i : ℕ) → is_listed (λ c. c.0) i found ≡ contains i pool

entries-cons :
    (i : ℕ) (pool nums : List ℕ) (found : List (ℕ × ℕ))
    → All (λ c. IsEntry pool nums c) found
    → All (λ c. IsEntry (i ∷ pool) nums c) found
entries-cons i pool nums [] _ = tt
entries-cons i pool nums (c ∷ cs) ((g, l), hs) =
    ((g, ground (arith, l)), entries-cons i pool nums cs hs)

abbrev LooksUp : List ℕ → List ℕ → Option (List (ℕ × ℕ)) → Type 0
LooksUp pool nums none = Unit
LooksUp pool nums (some found) = IsLookedUp pool nums found

look_up-LooksUp :
    (pool nums : List ℕ) → AreOwn (λ i. i) pool → LooksUp pool nums (look_up pool nums)
unfolding look_up
look_up-LooksUp [] nums o = record { entries = tt; own = tt; same = λ i. refl }
look_up-LooksUp (i ∷ pool) nums (o, os) = elim (Option-cases (get i nums)) [
  | inl e ↦ rw (e, look_up) tt
  | inr (n, e) ↦ elim (Option-cases (look_up pool nums)) [
    | inl f ↦ rw (e, look_up) (rw (f, look_up) tt)
    | inr (found, f) ↦
        let ih : IsLookedUp pool nums found =
          transport (ap (LooksUp pool nums) f) (look_up-LooksUp pool nums os) in
        rw (e, look_up)
          (rw (f, look_up)
            (record {
              entries = ((e, ground arith), entries-cons i pool nums found ih.entries);
              own = (ih.same i ∙ o, ih.own);
              same = λ j. ground (arith, ih.same j);
            }))
  ]
]

-- The answer of the search for a payment of `target` among the indices of the pool.
abbrev pub IsPayment : List ℕ → List ℕ → List (ℕ × ℕ) → ℕ → Option (List (ℕ × ℕ)) → Type 0
IsPayment pool nums found target (some chosen) =
    (total (numbers chosen) ≡ target)
    × AreOwn (λ c. c.0) chosen
    × All (λ c. IsEntry pool nums c) chosen
IsPayment pool nums found target none = NoChoice (numbers found) 0 target

IsAnswer-IsPayment :
    (pool nums : List ℕ) (found : List (ℕ × ℕ)) (target : ℕ) (r : Option (List (ℕ × ℕ)))
    → IsLookedUp pool nums found
    → IsAnswer target (candidates_of target found) r
    → IsPayment pool nums found target r
IsAnswer-IsPayment pool nums found target none l h = NoChoice-candidates target found h
IsAnswer-IsPayment pool nums found target (some chosen) l (s, (bs, e)) =
    let cs = candidates_of target found in
    let kept = select (λ c. leb c.1 target) found in
    rw e (
      ap total (ap numbers (sym e)) ∙ s,
      AreOwn-taken_of bs cs
          (AreOwn-order_desc (λ c. c.0) (λ c. c.1) kept (AreOwn-select (λ c. c.0) _ found l.own)),
      taken_of-All _ bs cs
          (All-order_desc _ (λ c. c.1) kept (All-select _ (λ c. leb c.1 target) found l.entries)),
    )

-- The search for inputs decides whether a payment can be made: where it gives indices, they are
-- distinct, each stands in the pool of inputs left and comes with its value, and the values add up to
-- the target; where it gives none, no choice among the pool adds up to the target. The pool's indices
-- are distinct, and each has a value.
pub backtrack_subset-IsPayment :
    (pool nums : List ℕ) (found : List (ℕ × ℕ)) (target : ℕ)
    → AreOwn (λ i. i) pool
    → look_up pool nums ≡ some found
    → IsPayment pool nums found target (backtrack_subset pool nums target)
unfolding backtrack_subset
backtrack_subset-IsPayment pool nums found target o e =
    rw (e, backtrack_subset)
      (IsAnswer-IsPayment pool nums found target _
        (transport (ap (LooksUp pool nums) e) (look_up-LooksUp pool nums o))
        (choose-IsAnswer target (candidates_of target found)))
