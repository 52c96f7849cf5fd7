-- ===== src/Scanner/Attempts.antt =====
-- How often a request is made, and how long the scanner sleeps in between (http/scanner.rs).
use native.Mathlib.Nat.{pow-le-pow_right, pow-le-pow_left}
use minotari_cli.Base.{
  Bool-cases, Option, arith, err, false, inl, inr, leb, ltb, min, network, none, ok, refl, some,
  suc, true, u64_limit, zero, ℕ, ◌*◌, ◌+◌, ◌-◌, ◌<◌, ◌^◌, ◌≡◌, ◌≤◌,
}
use minotari_cli.Scanner.Retry.{
  Attempt, Ending, RetryLimits, answered, backoff_secs, max_backoff_exponent, panics, refused,
  retry, retry_from, returns, times_out,
}

-- The loop returns within the fuel, and has asked to sleep no more than `most` in all.
abbrev pub EndsWithin {ℓ} : {A : Type ℓ} → ℕ → Option (Ending A × ℕ) → Type 0
EndsWithin most none = ⊥
EndsWithin most (some (panics, slept)) = ⊥
EndsWithin most (some (returns _, slept)) = slept ≤ most

-- the backoffs do not overflow
abbrev pub HasBackoff : RetryLimits → Type 0
HasBackoff l = l.error_backoff_base_secs ^ max_backoff_exponent < u64_limit

power-fits : (b n : ℕ) → b ^ 5 < u64_limit → b ^ min (n + 1) 5 < u64_limit
power-fits zero n h = omega (
  arith,
  pow-le-pow_left {n = 0} {m = 1} (omega arith) (min (n + 1) 5),
  pow-le-pow_right {n = 1} (omega arith) {i = min (n + 1) 5} {j = 5} (omega arith),
)
power-fits (suc b) n h =
    omega (
      arith,
      h,
      pow-le-pow_right {n = suc b} (omega arith) {i = min (n + 1) 5} {j = 5} (omega arith),
    )

backoff_secs-capped :
    (l : RetryLimits) (n : ℕ)
    → HasBackoff l
    → (k : ℕ) × (backoff_secs l (n + 1) ≡ some k) × (k ≤ 60)
unfolding backoff_secs
backoff_secs-capped l n h =
    let power = l.error_backoff_base_secs ^ min (n + 1) max_backoff_exponent in
    let fits : ltb power u64_limit ≡ true =
      ground (arith, power-fits l.error_backoff_base_secs n h) in
    (min power 60, rw fits refl, omega arith)

retry_from-EndsWithin {ℓ} :
    {A : Type ℓ} (l : RetryLimits) (attempts : ℕ → Attempt A) (fuel k errors timeouts slept : ℕ)
    → HasBackoff l
    → errors < l.max_error_retries
    → timeouts < l.max_error_retries
    → 2 * l.max_error_retries ≤ fuel + errors + timeouts + 1
    → slept ≤ 60 * errors + timeouts
    → EndsWithin (61 * l.max_error_retries) (retry_from l attempts fuel k errors timeouts slept)
unfolding retry_from
retry_from-EndsWithin l attempts zero k errors timeouts slept o a b f s = omega (arith, a, b, f)
retry_from-EndsWithin l attempts (suc fuel) k errors timeouts slept o a b f s =
    elim (attempts k)
      as (λ r. EndsWithin (61 * l.max_error_retries) (elim r [
        | answered a ↦ some (returns (ok a), slept)
        | refused e ↦ elim (leb l.max_error_retries (errors + 1)) [
          | true ↦ some (returns (err e), slept)
          | false ↦ elim (backoff_secs l (errors + 1)) [
            | none ↦ some (panics, slept)
            | some secs ↦ retry_from l attempts fuel (k + 1) (errors + 1) timeouts (slept + secs)
          ]
        ]
        | times_out ↦ elim (leb l.max_error_retries (timeouts + 1)) [
          | true ↦ some (returns (err network), slept)
          | false ↦ retry_from l attempts fuel (k + 1) errors (timeouts + 1) (slept + 1)
        ]
      ])) [
        | answered x ↦ omega (arith, a, b, s)
        | refused e ↦ elim (Bool-cases (leb l.max_error_retries (errors + 1))) [
          | inl y ↦ rw y (omega (arith, a, b, s))
          | inr n ↦
              let (secs, e, small) = backoff_secs-capped l errors o in
              rw (n, e)
                (retry_from-EndsWithin l attempts fuel (k + 1) (errors + 1) timeouts _ o
                  (ground (arith, n)) b (omega (arith, f)) (omega (arith, s, small)))
        ]
        | times_out ↦ elim (Bool-cases (leb l.max_error_retries (timeouts + 1))) [
          | inl y ↦ rw y (omega (arith, a, b, s))
          | inr n ↦ rw n (
              retry_from-EndsWithin l attempts fuel (k + 1) errors (timeouts + 1) _ o a
                (ground (arith, n)) (omega (arith, f)) (omega (arith, s)))
        ]
      ]

-- However the attempts at a request end, the scanner gives up or has an answer after at most one
-- attempt less than twice the limit of its retries, without a panic, and has slept 61 seconds per
-- retry at most. The limit is not 0, and the fifth power of the base of the backoff fits 64 bits.
pub retry-EndsWithin :
    {A : Type 0} (l : RetryLimits) (attempts : ℕ → Attempt A)
    → 1 ≤ l.max_error_retries
    → HasBackoff l
    → EndsWithin (61 * l.max_error_retries) (retry l attempts (2 * l.max_error_retries - 1))
retry-EndsWithin l attempts o h =
    retry_from-EndsWithin l attempts (2 * l.max_error_retries - 1) 0 0 0 0 h (omega arith)
      (omega arith) (omega arith) (omega arith)
