-- ===== src/Chain/Rounds.antt =====
-- The plan of a round of the scan loop, and the buffer of events (minotari/src/scan/coordinator.rs).
use minotari_cli.Base.{
  Bool-cases, List, Option-cases, [], any, ap, arith, inl, inr, length, ltb, min, refl, select,
  some, suc, true, ℕ, ◌++◌, ◌+◌, ◌-◌, ◌<◌, ◌==◌, ◌∷◌, ◌≡◌, ◌≤◌,
}
use minotari_cli.Scan.Coordinator.{
  ScanMode, Target, continuous, effective_batch_size, end_height, full, global_next_block, min_of,
  next_horizon_height, partial, pop_excess, push_events_with_limit, sat_add, starts,
}

Has : ℕ → List ℕ → Type 0
Has h ks = any (λ k. k == h) ks ≡ true

min_of-le : (h : ℕ) (ks : List ℕ) → Has h ks → (m : ℕ) × (min_of ks ≡ some m) × (m ≤ h)
unfolding Has
min_of-le h [] i = cc
min_of-le h (k ∷ ks) i = elim (Bool-cases (k == h)) [
  | inl y ↦ elim (Option-cases (min_of ks)) [
    | inl e ↦ (k, rw e refl, ground (arith, y))
    | inr (j, e) ↦ (min k j, rw e refl, ground (arith, y))
  ]
  | inr n ↦
      let (j, e, le) = min_of-le h ks (ground (arith, i, n)) in
      (min k j, rw e refl, omega (arith, le))
]

Has-waiting :
    (g h : ℕ) (ts : List Target)
    → any (λ t. t.next_block_to_scan == h) ts ≡ true
    → g < h
    → Has h (select (λ k. ltb g k) (starts ts))
unfolding Has
Has-waiting g h [] i lt = cc
Has-waiting g h (t ∷ ts) i lt = elim (Bool-cases (t.next_block_to_scan == h)) [
  | inl y ↦ let past : ltb g t.next_block_to_scan ≡ true = ground arith in rw (past, y) refl
  | inr n ↦
      let rest = Has-waiting g h ts (ground (arith, i, n)) lt in
      elim (Bool-cases (ltb g t.next_block_to_scan)) [ inl p ↦ rw (p, n) rest | inr q ↦ rw q rest ]
]

-- While an account waits at height `h` further up, a round, in any mode, ends below `h`, and its
-- batches are so small that the blocks from the round's start do not pass `h`.
pub end_height-horizon :
    (mode : ScanMode) (scanned batch_size h : ℕ) (ts : List Target)
    → any (λ t. t.next_block_to_scan == h) ts ≡ true
    → global_next_block ts < h
    → ((e : ℕ) × (end_height mode scanned ts ≡ some e) × (e < h))
      × (global_next_block ts + effective_batch_size batch_size ts ≤ h)
unfolding end_height effective_batch_size next_horizon_height
end_height-horizon mode scanned batch_size h ts i lt =
    let g = global_next_block ts in
    let (m, e, le) = min_of-le h (select (λ k. ltb g k) (starts ts)) (Has-waiting g h ts i lt) in
    let horizon : min (m - g) batch_size ≤ m - g = omega arith in
    (ends mode m e le, rw (e, effective_batch_size) (omega (arith, horizon, le, lt)))
  where
    ends :
        (mode : ScanMode) (m : ℕ)
        → min_of (select (λ k. ltb (global_next_block ts) k) (starts ts)) ≡ some m
        → m ≤ h
        → (e : ℕ) × (end_height mode scanned ts ≡ some e) × (e < h)
    ends (partial k) m e le =
        (min (m - 1) (sat_add (global_next_block ts) k - scanned), rw e refl, omega (arith, le, lt))
    ends full m e le = (m - 1, rw e refl, omega (arith, le, lt))
    ends (continuous k) m e le = (m - 1, rw e refl, omega (arith, le, lt))

module _ {ℓ} {A : Type ℓ} where
  pop_excess-length :
      (limit : ℕ) (xs : List A) → length (pop_excess limit xs) ≡ min limit (length xs)
  unfolding pop_excess
  pop_excess-length limit [] = omega arith
  pop_excess-length limit (x ∷ xs) = elim (Bool-cases (ltb limit (suc (length xs)))) [
    | inl y ↦
        let le : limit ≤ length xs = ground arith in
        rw (y, pop_excess) (omega (arith, pop_excess-length limit xs, le))
    | inr n ↦
        let le : suc (length xs) ≤ limit = ground arith in rw (n, pop_excess) (omega (arith, le))
  ]

  pop_excess-suffix : (limit : ℕ) (xs : List A) → (old : List A) × (old ++ pop_excess limit xs ≡ xs)
  unfolding pop_excess
  pop_excess-suffix limit [] = ([], refl)
  pop_excess-suffix limit (x ∷ xs) = elim (Bool-cases (ltb limit (suc (length xs)))) [
    | inl y ↦
        let (old, e) = pop_excess-suffix limit xs in
        (x ∷ old, rw (y, pop_excess) (ap (λ ys. x ∷ ys) e))
    | inr n ↦ ([], rw (n, pop_excess) refl)
  ]

  -- A buffer with a limit holds, after a push, the newest events of all, as many as the limit allows
  -- and no fewer.
  pub push_events_with_limit-newest :
      (all events : List A) (limit : ℕ)
      → (length (push_events_with_limit all events (some limit))
          ≡ min limit (length (all ++ events)))
        × ((old : List A) × (old ++ push_events_with_limit all events (some limit) ≡ all ++ events))
  unfolding push_events_with_limit
  push_events_with_limit-newest all events limit =
      (pop_excess-length limit (all ++ events), pop_excess-suffix limit (all ++ events))
