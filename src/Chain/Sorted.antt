-- ===== src/Chain/Sorted.antt =====
-- Queries with ORDER BY, and `any` of a query.
use minotari_cli.Base.{
  All, Bool, Bool-cases, List, [], any, ap, arith, delete_where, inl, inr, insert_desc, leb, leb→le,
  lt_of_leb, not, order_desc, refl, select, true, ℕ, ◌&&◌, ◌||◌, ◌∙◌, ◌∷◌, ◌≡◌, ◌≤◌,
}

module _ {ℓ} {A : Type ℓ} where
  abbrev pub AreDescending : (A → ℕ) → List A → Type 0
  AreDescending key [] = Unit
  AreDescending key (x ∷ xs) = All (λ y. key y ≤ key x) xs × AreDescending key xs

  All-insert_desc :
      (key : A → ℕ) (m : ℕ) (a : A) (xs : List A)
      → key a ≤ m
      → All (λ y. key y ≤ m) xs
      → All (λ y. key y ≤ m) (insert_desc key a xs)
  All-insert_desc key m a [] le h = (le, tt)
  All-insert_desc key m a (x ∷ xs) le (lx, h) = elim (Bool-cases (leb (key x) (key a))) [
    | inl y ↦ rw y (le, (lx, h))
    | inr n ↦ rw n (lx, All-insert_desc key m a xs le h)
  ]

  All-mono :
      (key : A → ℕ) (m n : ℕ) (xs : List A)
      → m ≤ n
      → All (λ y. key y ≤ m) xs
      → All (λ y. key y ≤ n) xs
  All-mono key m n [] le h = tt
  All-mono key m n (x ∷ xs) le (lx, h) = (omega arith, All-mono key m n xs le h)

  AreDescending-insert :
      (key : A → ℕ) (a : A) (xs : List A)
      → AreDescending key xs
      → AreDescending key (insert_desc key a xs)
  AreDescending-insert key a [] d = (tt, tt)
  AreDescending-insert key a (x ∷ xs) (h, d) = elim (Bool-cases (leb (key x) (key a))) [
    | inl y ↦
        let le = leb→le (key x) (key a) y in
        rw y ((le, All-mono key (key x) (key a) xs le h), (h, d))
    | inr n ↦
        let lt = lt_of_leb (key x) (key a) n in
        rw n (All-insert_desc key (key x) a xs (omega arith) h, AreDescending-insert key a xs d)
  ]

  pub order_desc-AreDescending : (key : A → ℕ) (xs : List A) → AreDescending key (order_desc key xs)
  order_desc-AreDescending key [] = tt
  order_desc-AreDescending key (x ∷ xs) =
      AreDescending-insert key x (order_desc key xs) (order_desc-AreDescending key xs)

  any-insert_desc :
      (p : A → Bool) (key : A → ℕ) (a : A) (xs : List A)
      → any p (insert_desc key a xs) ≡ (p a || any p xs)
  any-insert_desc p key a [] = refl
  any-insert_desc p key a (x ∷ xs) = ground (arith, any-insert_desc p key a xs)

  pub any-order_desc :
      (p : A → Bool) (key : A → ℕ) (xs : List A) → any p (order_desc key xs) ≡ any p xs
  any-order_desc p key [] = refl
  any-order_desc p key (x ∷ xs) =
      any-insert_desc p key x (order_desc key xs) ∙ ap (λ r. p x || r) (any-order_desc p key xs)

  pub any-select : (p q : A → Bool) (xs : List A) → any p (select q xs) ≡ any (λ x. q x && p x) xs
  any-select p q [] = refl
  any-select p q (x ∷ xs) = ground (arith, any-select p q xs)

  pub any-delete_where :
      (p q : A → Bool) (xs : List A) → any p (delete_where q xs) ≡ any (λ x. not (q x) && p x) xs
  any-delete_where p q [] = refl
  any-delete_where p q (x ∷ xs) = ground (arith, any-delete_where p q xs)

  pub any-imp :
      (p q : A → Bool) (xs : List A)
      → ((x : A) → p x ≡ true → q x ≡ true)
      → any p xs ≡ true
      → any q xs ≡ true
  any-imp p q [] h e = cc
  any-imp p q (x ∷ xs) h e = ground (arith, h x, any-imp p q xs h)
