-- ===== src/Scanner/Retry.antt =====
-- The retries of a request (sync_utxos_by_block, get_utxos_by_block of http/scanner.rs).
use minotari_cli.Base.{
  Error, Option, Result, err, false, if◌then◌else◌, leb, ltb, min, network, none, ok, some, suc,
  true, u64_limit, zero, ℕ, ◌+◌, ◌^◌,
}

-- how one attempt ends within its time, or not
pub data Attempt {ℓ} (A : Type ℓ) : Type ℓ where
  answered : A → Attempt A
  refused : Error → Attempt A
  times_out : Attempt A

abbrev pub max_backoff_exponent : ℕ
max_backoff_exponent = 5

abbrev pub max_backoff_seconds : ℕ
max_backoff_seconds = 60

-- the fields of the scanner that bound the retries
pub record RetryLimits : Type 0 where
  pub max_error_retries : ℕ
  pub error_backoff_base_secs : ℕ

-- `u64::pow`, which panics on overflow: no seconds then
unfoldable pub backoff_secs : RetryLimits → ℕ → Option ℕ
backoff_secs l error_retries =
    let power = l.error_backoff_base_secs ^ min error_retries max_backoff_exponent in
    if ltb power u64_limit then some (min power max_backoff_seconds) else none

-- how a request ends: with its result, or in a panic
pub data Ending {ℓ} (A : Type ℓ) : Type ℓ where
  returns : Result A → Ending A
  panics : Ending A

-- The loop on fuel, from the attempt `k` on: its end and the seconds slept before it, or nothing
-- where the fuel does not suffice.
unfoldable pub retry_from {ℓ} :
    {A : Type ℓ} → RetryLimits → (ℕ → Attempt A) → ℕ → ℕ → ℕ → ℕ → ℕ → Option (Ending A × ℕ)
retry_from l attempts zero k error_retries timeout_retries slept = none
retry_from l attempts (suc fuel) k error_retries timeout_retries slept = elim (attempts k) [
  | answered a ↦ some (returns (ok a), slept)
  | refused e ↦ elim (leb l.max_error_retries (error_retries + 1)) [
    | true ↦ some (returns (err e), slept)
    | false ↦ elim (backoff_secs l (error_retries + 1)) [
      | none ↦ some (panics, slept)
      | some secs ↦
          retry_from l attempts fuel (k + 1) (error_retries + 1) timeout_retries (slept + secs)
    ]
  ]
  | times_out ↦ elim (leb l.max_error_retries (timeout_retries + 1)) [
    | true ↦ some (returns (err network), slept)
    | false ↦ retry_from l attempts fuel (k + 1) error_retries (timeout_retries + 1) (slept + 1)
  ]
]

-- the loop from its start
abbrev pub retry {ℓ} : {A : Type ℓ} → RetryLimits → (ℕ → Attempt A) → ℕ → Option (Ending A × ℕ)
retry l attempts fuel = retry_from l attempts fuel 0 0 0 0
