-- ===== src/Base/Results.antt =====
-- Fallible code: the errors of the source's Result types, and the `?` operator as a bind.
use Prim.Native.Nat.{ℕ}
use mathlib.Core.Logic.{◌⊎◌, inl, inr}
use mathlib.Core.Path.{◌≡◌, ap, refl, transport}
use mathlib.Core.Option.{Option, none, some}

-- `WalletDbError`, `UtxoSelectionError` and the `anyhow` errors, by what a caller can tell apart,
-- and the panic of an addition that overflows.
pub data Error : Type 0 where
  duplicate_entry : Error
  constraint_violation : Error
  no_rows : Error
  serialization_error : Error
  insufficient_funds : ℕ → ℕ → Error
  funds_pending : ℕ → ℕ → ℕ → Error
  service_error : Error
  decoding : Error
  invalid_input : Error
  network : Error
  missing_field : Error
  overflow : Error

pub data Result {ℓ} (A : Type ℓ) : Type ℓ where
  ok : A → Result A
  err : Error → Result A

infixl 5 ◌>>=◌
abbrev pub ◌>>=◌ {ℓ κ} : {A : Type ℓ} {B : Type κ} → Result A → (A → Result B) → Result B
ok a >>= f = f a
err e >>= f = err e

abbrev pub or_fail {ℓ} : {A : Type ℓ} → Option A → Error → Result A
or_fail none e = err e
or_fail (some a) e = ok a

-- to split on a result and keep the equation
pub Result-cases {ℓ} :
    {A : Type ℓ} (m : Result A) → ((a : A) × (m ≡ ok a)) ⊎ ((e : Error) × (m ≡ err e))
Result-cases (ok a) = inl (a, refl)
Result-cases (err e) = inr (e, refl)

-- what a result holds satisfies `P`
abbrev pub OnOk {ℓ κ} : {A : Type ℓ} → (A → Type κ) → Result A → Type κ
OnOk P (ok a) = P a
OnOk P (err e) = Unit

pub OnOk->>= {ℓ κ μ ν} :
    {A : Type ℓ} {B : Type κ} (P : A → Type μ) (Q : B → Type ν) (m : Result A) (f : A → Result B)
    → OnOk P m
    → ((a : A) → P a → OnOk Q (f a))
    → OnOk Q (m >>= f)
OnOk->>= P Q (ok a) f h k = k a h
OnOk->>= P Q (err e) f h k = tt

pub OnOk-any {ℓ κ ν} :
    {A : Type ℓ} {B : Type κ} (Q : B → Type ν) (m : Result A) (f : A → Result B)
    → ((a : A) → OnOk Q (f a))
    → OnOk Q (m >>= f)
OnOk-any Q (ok a) f k = k a
OnOk-any Q (err e) f k = tt

pub of_ok {ℓ κ} : {A : Type ℓ} (P : A → Type κ) (m : Result A) {a : A} → OnOk P m → m ≡ ok a → P a
of_ok P m h e = transport (ap (OnOk P) e) h

pub OnOk-map {ℓ κ ν} :
    {A : Type ℓ} {P : A → Type κ} {Q : A → Type ν} (m : Result A)
    → ((a : A) → P a → Q a)
    → OnOk P m
    → OnOk Q m
OnOk-map (ok a) f h = f a h
OnOk-map (err e) f h = tt

pub >>=-cong {ℓ κ} :
    {A : Type ℓ} {B : Type κ} (m : Result A) (f g : A → Result B)
    → ((a : A) → f a ≡ g a)
    → (m >>= f) ≡ (m >>= g)
>>=-cong (ok a) f g h = h a
>>=-cong (err e) f g h = refl
