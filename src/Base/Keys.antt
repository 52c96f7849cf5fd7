-- ===== src/Base/Keys.antt =====
-- The primary key of a table: what holds of rows with distinct keys under a query and an order.
use Prim.Native.Nat.{ℕ, suc, zero}
use mathlib.Core.Path.{◌≡◌, refl, ◌∙◌}
use mathlib.Core.Bool.{Bool, false, true, ◌||◌}
use mathlib.Core.Logic.{inl, inr}
use mathlib.Core.List.{List, [], ◌∷◌, ◌++◌}
use native.Mathlib.Omega.{arith}
use minotari_cli.Base.Tests.{leb, ◌==◌, Bool-cases}
use minotari_cli.Base.Rows.{All, any, insert_asc, insert_desc, order_asc, order_desc, select, take}

module _ {A : Type 0} where
  -- What holds of every row holds of the rows of a query.
  pub All-select : (P : A → Type 0) (p : A → Bool) (ts : List A) → All P ts → All P (select p ts)
  All-select P p [] _ = tt
  All-select P p (t ∷ ts) (h, hs) = elim (Bool-cases (p t)) [
    | inl y ↦ rw y (h, All-select P p ts hs)
    | inr n ↦ rw n (All-select P p ts hs)
  ]

  pub All-selected : (p : A → Bool) (ts : List A) → All (λ t. p t ≡ true) (select p ts)
  All-selected p [] = tt
  All-selected p (t ∷ ts) = elim (Bool-cases (p t)) [
    | inl y ↦ rw y (y, All-selected p ts)
    | inr n ↦ rw n (All-selected p ts)
  ]

  All-insert_asc :
      (P : A → Type 0) (by : A → ℕ) (t : A) (ts : List A)
      → P t
      → All P ts
      → All P (insert_asc by t ts)
  All-insert_asc P by t [] h _ = (h, tt)
  All-insert_asc P by t (x ∷ xs) h (k, ks) = elim (Bool-cases (leb (by t) (by x))) [
    | inl y ↦ rw y (h, (k, ks))
    | inr n ↦ rw n (k, All-insert_asc P by t xs h ks)
  ]

  pub All-order_asc :
      (P : A → Type 0) (by : A → ℕ) (ts : List A) → All P ts → All P (order_asc by ts)
  All-order_asc P by [] _ = tt
  All-order_asc P by (t ∷ ts) (h, hs) =
      All-insert_asc P by t (order_asc by ts) h (All-order_asc P by ts hs)

  All-insert_desc :
      (P : A → Type 0) (by : A → ℕ) (t : A) (ts : List A)
      → P t
      → All P ts
      → All P (insert_desc by t ts)
  All-insert_desc P by t [] h _ = (h, tt)
  All-insert_desc P by t (x ∷ xs) h (k, ks) = elim (Bool-cases (leb (by x) (by t))) [
    | inl y ↦ rw y (h, (k, ks))
    | inr n ↦ rw n (k, All-insert_desc P by t xs h ks)
  ]

  pub All-order_desc :
      (P : A → Type 0) (by : A → ℕ) (ts : List A) → All P ts → All P (order_desc by ts)
  All-order_desc P by [] _ = tt
  All-order_desc P by (t ∷ ts) (h, hs) =
      All-insert_desc P by t (order_desc by ts) h (All-order_desc P by ts hs)

  pub All-take : (P : A → Type 0) (n : ℕ) (ts : List A) → All P ts → All P (take n ts)
  All-take P zero ts _ = tt
  All-take P (suc n) [] _ = tt
  All-take P (suc n) (t ∷ ts) (h, hs) = (h, All-take P n ts hs)

  pub All-both : (P Q : A → Type 0) (ts : List A) → All P ts → All Q ts → All (λ t. P t × Q t) ts
  All-both P Q [] _ _ = tt
  All-both P Q (t ∷ ts) (h, hs) (k, ks) = ((h, k), All-both P Q ts hs ks)

  pub All-append : (P : A → Type 0) (ts us : List A) → All P ts → All P us → All P (ts ++ us)
  All-append P [] us _ k = k
  All-append P (t ∷ ts) us (h, hs) k = (h, All-append P ts us hs k)

module _ {A : Type 0} (key : A → ℕ) where
  abbrev pub is_listed : ℕ → List A → Bool
  is_listed i ts = any (λ t. key t == i) ts

  -- The row is what the table holds under its key.
  abbrev pub IsSnapshot : List A → A → Type 0
  IsSnapshot rs t = All (λ r. (key r == key t) ≡ true → r ≡ t) rs

  -- The ids of a list are distinct, as a primary key's are.
  abbrev pub AreOwn : List A → Type 0
  AreOwn [] = Unit
  AreOwn (t ∷ ts) = (is_listed (key t) ts ≡ false) × AreOwn ts

  is_listed-select :
      (i : ℕ) (p : A → Bool) (ts : List A)
      → is_listed i ts ≡ false
      → is_listed i (select p ts) ≡ false
  is_listed-select i p [] h = refl
  is_listed-select i p (t ∷ ts) h = ground (arith, is_listed-select i p ts, h)

  pub AreOwn-select : (p : A → Bool) (ts : List A) → AreOwn ts → AreOwn (select p ts)
  AreOwn-select p [] _ = tt
  AreOwn-select p (t ∷ ts) (o, os) = elim (Bool-cases (p t)) [
    | inl y ↦ rw y (is_listed-select (key t) p ts o, AreOwn-select p ts os)
    | inr n ↦ rw n (AreOwn-select p ts os)
  ]

  is_listed-insert_asc :
      (i : ℕ) (by : A → ℕ) (t : A) (ts : List A)
      → is_listed i (insert_asc by t ts) ≡ (((key t) == i) || is_listed i ts)
  is_listed-insert_asc i by t [] = refl
  is_listed-insert_asc i by t (x ∷ xs) = ground (arith, is_listed-insert_asc i by t xs)

  is_listed-order_asc :
      (i : ℕ) (by : A → ℕ) (ts : List A) → is_listed i (order_asc by ts) ≡ is_listed i ts
  is_listed-order_asc i by [] = refl
  is_listed-order_asc i by (t ∷ ts) =
      ground (arith, is_listed-insert_asc i by t (order_asc by ts), is_listed-order_asc i by ts)

  AreOwn-insert_asc :
      (by : A → ℕ) (t : A) (ts : List A)
      → is_listed (key t) ts ≡ false
      → AreOwn ts
      → AreOwn (insert_asc by t ts)
  AreOwn-insert_asc by t [] h _ = (refl, tt)
  AreOwn-insert_asc by t (x ∷ xs) h (o, os) = elim (Bool-cases (leb (by t) (by x))) [
    | inl y ↦ rw y (h, (o, os))
    | inr n ↦ rw n (
      ground (arith, is_listed-insert_asc (key x) by t xs, h, o),
      AreOwn-insert_asc by t xs (ground (arith, h)) os,
    )
  ]

  pub AreOwn-order_asc : (by : A → ℕ) (ts : List A) → AreOwn ts → AreOwn (order_asc by ts)
  AreOwn-order_asc by [] _ = tt
  AreOwn-order_asc by (t ∷ ts) (o, os) =
      AreOwn-insert_asc by t (order_asc by ts) (is_listed-order_asc (key t) by ts ∙ o)
        (AreOwn-order_asc by ts os)

  is_listed-insert_desc :
      (i : ℕ) (by : A → ℕ) (t : A) (ts : List A)
      → is_listed i (insert_desc by t ts) ≡ (((key t) == i) || is_listed i ts)
  is_listed-insert_desc i by t [] = refl
  is_listed-insert_desc i by t (x ∷ xs) = ground (arith, is_listed-insert_desc i by t xs)

  is_listed-order_desc :
      (i : ℕ) (by : A → ℕ) (ts : List A) → is_listed i (order_desc by ts) ≡ is_listed i ts
  is_listed-order_desc i by [] = refl
  is_listed-order_desc i by (t ∷ ts) =
      ground (arith, is_listed-insert_desc i by t (order_desc by ts), is_listed-order_desc i by ts)

  AreOwn-insert_desc :
      (by : A → ℕ) (t : A) (ts : List A)
      → is_listed (key t) ts ≡ false
      → AreOwn ts
      → AreOwn (insert_desc by t ts)
  AreOwn-insert_desc by t [] h _ = (refl, tt)
  AreOwn-insert_desc by t (x ∷ xs) h (o, os) = elim (Bool-cases (leb (by x) (by t))) [
    | inl y ↦ rw y (h, (o, os))
    | inr n ↦ rw n (
      ground (arith, is_listed-insert_desc (key x) by t xs, h, o),
      AreOwn-insert_desc by t xs (ground (arith, h)) os,
    )
  ]

  pub AreOwn-order_desc : (by : A → ℕ) (ts : List A) → AreOwn ts → AreOwn (order_desc by ts)
  AreOwn-order_desc by [] _ = tt
  AreOwn-order_desc by (t ∷ ts) (o, os) =
      AreOwn-insert_desc by t (order_desc by ts) (is_listed-order_desc (key t) by ts ∙ o)
        (AreOwn-order_desc by ts os)

  -- Two lists with distinct ids, and no id in common.
  pub is_listed-append :
      (i : ℕ) (ts us : List A) → is_listed i (ts ++ us) ≡ (is_listed i ts || is_listed i us)
  is_listed-append i [] us = refl
  is_listed-append i (t ∷ ts) us = ground (arith, is_listed-append i ts us)

  pub AreOwn-append :
      (ts us : List A)
      → AreOwn ts
      → AreOwn us
      → All (λ t. is_listed (key t) us ≡ false) ts
      → AreOwn (ts ++ us)
  AreOwn-append [] us _ o _ = o
  AreOwn-append (t ∷ ts) us (o, os) p (h, hs) =
      (ground (arith, is_listed-append (key t) ts us, o, h), AreOwn-append ts us os p hs)

  pub unlisted :
      (i : ℕ) (rs : List A) → is_listed i rs ≡ false → All (λ t. ((key t) == i) ≡ false) rs
  unlisted i [] h = tt
  unlisted i (r ∷ rs) h = (ground (arith, h), unlisted i rs (ground (arith, h)))

  pub unlisted-IsSnapshot : (t : A) (rs : List A) → is_listed (key t) rs ≡ false → IsSnapshot rs t
  unlisted-IsSnapshot t [] h = tt
  unlisted-IsSnapshot t (r ∷ rs) h =
      (λ e. absurd (ground (arith, h, e)), unlisted-IsSnapshot t rs (ground (arith, h)))

  -- what holds of a table's rows holds with a row before them that has an id of its own
  rows-cons :
      (r : A) (rs ts : List A)
      → All (λ t. ((key t) == (key r)) ≡ false) ts
      → All (λ t. IsSnapshot rs t × (is_listed (key t) rs ≡ true)) ts
      → All (λ t. IsSnapshot (r ∷ rs) t × (is_listed (key t) (r ∷ rs) ≡ true)) ts
  rows-cons r rs [] _ _ = tt
  rows-cons r rs (t ∷ ts) (n, ns) ((s, l), ss) =
      (((λ e. absurd (ground (arith, n, e)), s), ground (arith, l)), rows-cons r rs ts ns ss)

  pub own_rows :
      (rs : List A) → AreOwn rs → All (λ t. IsSnapshot rs t × (is_listed (key t) rs ≡ true)) rs
  own_rows [] _ = tt
  own_rows (r ∷ rs) (o, os) = (
    ((λ _. refl, unlisted-IsSnapshot r rs o), ground arith),
    rows-cons r rs rs (unlisted (key r) rs o) (own_rows rs os),
  )

  pub others_apart :
      (t : A) (us vs : List A)
      → All (λ u. ((key u) == (key t)) ≡ false) us
      → All (λ u. is_listed (key u) vs ≡ false) us
      → All (λ u. is_listed (key u) (t ∷ vs) ≡ false) us
  others_apart t [] vs _ _ = tt
  others_apart t (u ∷ us) vs (n, ns) (h, hs) = (ground (arith, n, h), others_apart t us vs ns hs)

  pub listed_in_neither :
      (ts us vs : List A)
      → All (λ u. is_listed (key u) us ≡ false) ts
      → All (λ u. is_listed (key u) vs ≡ false) ts
      → All (λ u. is_listed (key u) (us ++ vs) ≡ false) ts
  listed_in_neither [] us vs _ _ = tt
  listed_in_neither (t ∷ ts) us vs (h, hs) (k, ks) =
      (ground (arith, is_listed-append (key t) us vs, h, k), listed_in_neither ts us vs hs ks)

  is_listed-take :
      (i n : ℕ) (ts : List A) → is_listed i ts ≡ false → is_listed i (take n ts) ≡ false
  is_listed-take i zero ts h = refl
  is_listed-take i (suc n) [] h = refl
  is_listed-take i (suc n) (t ∷ ts) h = ground (arith, h, is_listed-take i n ts)

  pub AreOwn-take : (n : ℕ) (ts : List A) → AreOwn ts → AreOwn (take n ts)
  AreOwn-take zero ts _ = tt
  AreOwn-take (suc n) [] _ = tt
  AreOwn-take (suc n) (t ∷ ts) (o, os) = (is_listed-take (key t) n ts o, AreOwn-take n ts os)
