-- ===== src/Displayed/Search.antt =====
-- Whether back_track (displayed_transaction_processor/processor.rs) finds a choice of inputs.
use minotari_cli.Base.{
  Bool, Bool-cases, List, [], ap, arith, false, first, if◌then◌else◌, inl, inr, leb, ltb, refl,
  some, sum, true, ℕ, ◌+◌, ◌<◌, ◌==◌, ◌||◌, ◌∷◌, ◌≡◌, ◌≢◌, ◌≤◌, ◌⊎◌,
}
use minotari_cli.Displayed.Subset.{all_false, back_track, first_or, suffix_sums, take_or_skip}

abbrev pub total : List ℕ → ℕ
total vals = sum (λ v. v) vals

-- what a choice of the numbers adds up to
abbrev pub taken_sum : List Bool → List ℕ → ℕ
taken_sum [] vals = 0
taken_sum (b ∷ bs) [] = 0
taken_sum (b ∷ bs) (v ∷ vals) = (if b then v else 0) + taken_sum bs vals

suffix_sums-first : (vals : List ℕ) → first (suffix_sums vals) ≡ some (total vals)
suffix_sums-first [] = refl
suffix_sums-first (v ∷ vals) = ground (arith, suffix_sums-first vals)

pub suffix_sums-total : (vals : List ℕ) → first_or 0 (suffix_sums vals) ≡ total vals
suffix_sums-total [] = refl
suffix_sums-total (v ∷ vals) = ground (arith, suffix_sums-total vals)

pub taken_sum-total : (bs : List Bool) (vals : List ℕ) → taken_sum bs vals ≤ total vals
taken_sum-total [] vals = omega arith
taken_sum-total (b ∷ bs) [] = omega arith
taken_sum-total (b ∷ bs) (v ∷ vals) = ground (arith, taken_sum-total bs vals)

taken_sum-all_false : (vals : List ℕ) → taken_sum (all_false vals) vals ≡ 0
taken_sum-all_false [] = refl
taken_sum-all_false (v ∷ vals) = omega (arith, taken_sum-all_false vals)

-- no choice of the numbers leads from `current` to the target
abbrev pub NoChoice : List ℕ → ℕ → ℕ → Type 0
NoChoice vals current target = (bs : List Bool) → current + taken_sum bs vals ≢ target

-- the target is reached by the assignment; or by none, and no number is taken
abbrev pub Finds : List ℕ → ℕ → ℕ → Bool × List Bool → Type 0
Finds vals current target r =
    ((r.0 ≡ true) × (current + taken_sum r.1 vals ≡ target))
    ⊎ ((r.0 ≡ false) × (r.1 ≡ all_false vals) × NoChoice vals current target)

NoChoice-cons :
    (n current target : ℕ) (vals : List ℕ)
    → NoChoice vals (current + n) target
    → NoChoice vals current target
    → current ≢ target
    → NoChoice (n ∷ vals) current target
NoChoice-cons n current target vals h k e [] = λ p. e (omega (arith, p))
NoChoice-cons n current target vals h k e (true ∷ bs) = λ p. h bs (omega (arith, p))
NoChoice-cons n current target vals h k e (false ∷ bs) = λ p. k bs (omega (arith, p))

take_or_skip-Finds :
    (n current target : ℕ) (vals : List ℕ) (r : Bool × List Bool)
    (skip : List Bool → Bool × List Bool)
    → current ≢ target
    → Finds vals (current + n) target r
    → Finds vals current target (skip (all_false vals))
    → Finds (n ∷ vals) current target (take_or_skip r skip)
take_or_skip-Finds n current target vals (true, bs) skip e (inl (_, s)) k =
    inl (refl, omega (arith, s))
take_or_skip-Finds n current target vals (true, bs) skip e (inr (f, _, _)) k = absurd (cc)
take_or_skip-Finds n current target vals (false, bs) skip e (inl (f, _)) k = absurd (cc)
take_or_skip-Finds n current target vals (false, bs) skip e (inr (_, u, h)) k = rw u (elim k [
  | inl (y, p) ↦ inl (y, omega (arith, p))
  | inr (y, f, h') ↦ inr (y, ap (λ xs. false ∷ xs) f, NoChoice-cons n current target vals h h' e)
])

-- taking the number would exceed the target
exceeds-Finds :
    (n current target : ℕ) (vals : List ℕ)
    → target < current + n
    → Finds vals (current + n) target (false, all_false vals)
exceeds-Finds n current target vals l = inr (refl, refl, λ bs p. omega (arith, l, p))

take-Finds :
    (n current target : ℕ) (vals : List ℕ)
    → let deeper = back_track vals (suffix_sums vals) (all_false vals) (current + n) target in
      Finds vals (current + n) target deeper
      → Finds vals
          (current + n)
          target
          (elim (leb (current + n) target) as (λ _. Bool × List Bool) [
            | true ↦ deeper
            | false ↦ (false, all_false vals)
          ])
take-Finds n current target vals h = elim (Bool-cases (leb (current + n) target)) [
  | inl y ↦ rw y h
  | inr k ↦ rw k (exceeds-Finds n current target vals (ground (arith, k)))
]

pub back_track-Finds :
    (vals : List ℕ) (current target : ℕ)
    → Finds vals current target (back_track vals (suffix_sums vals) (all_false vals) current target)
unfolding back_track
back_track-Finds [] current target = elim (Bool-cases (current == target)) [
  | inl y ↦ inl (y, ground (arith, y))
  | inr n ↦ inr (n, refl, λ bs p. ground (arith, n, p, taken_sum-total bs []))
]
back_track-Finds (n ∷ vals) current target = elim (Bool-cases (current == target)) [
  | inl y ↦ rw (y, back_track) (inl (refl, ground (arith, y, taken_sum-all_false (n ∷ vals))))
  | inr k ↦
      rw (k, back_track)
        (rw (suffix_sums-first vals, back_track)
          (elim (Bool-cases (ltb (current + total vals + n) target || ltb target current)) [
            | inl y ↦
                rw (y, back_track)
                  (inr (refl, refl, λ bs p. ground (arith, y, p, taken_sum-total bs (n ∷ vals))))
            | inr z ↦
                rw (z, back_track)
                  (take_or_skip-Finds n current target vals _ _ (λ p. ground (arith, k, p))
                    (take-Finds n current target vals (back_track-Finds vals (current + n) target))
                    (back_track-Finds vals current target))
          ]))
]
