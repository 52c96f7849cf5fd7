-- ===== src/Base/Rows.antt =====
-- A table as the list of its rows, oldest first, and the statements on it: SELECT .. WHERE,
-- UPDATE .. SET .. WHERE, DELETE .. WHERE, SUM and ORDER BY.
use Prim.Native.Nat.{zero, max, ℕ, suc, ◌+◌}
use mathlib.Core.Bool.{Bool, false, ◌||◌}
use mathlib.Core.Option.{Option, none, some}
use mathlib.Core.List.{List, [], ◌∷◌}
use minotari_cli.Base.Tests.{if◌then◌else◌, leb}

module _ {ℓ} {A : Type ℓ} where
  abbrev pub length : List A → ℕ
  length [] = 0
  length (x ∷ xs) = suc (length xs)

  -- SELECT * FROM xs WHERE p
  abbrev pub select : (A → Bool) → List A → List A
  select p [] = []
  select p (x ∷ xs) = if p x then x ∷ select p xs else select p xs

  -- UPDATE xs SET f WHERE p
  abbrev pub update_where : (A → Bool) → (A → A) → List A → List A
  update_where p f [] = []
  update_where p f (x ∷ xs) = (if p x then f x else x) ∷ update_where p f xs

  -- DELETE FROM xs WHERE p
  abbrev pub delete_where : (A → Bool) → List A → List A
  delete_where p [] = []
  delete_where p (x ∷ xs) = if p x then delete_where p xs else x ∷ delete_where p xs

  -- the first row of a query
  abbrev pub first : List A → Option A
  first [] = none
  first (x ∷ _) = some x

  -- the first row that passes
  abbrev pub find : (A → Bool) → List A → Option A
  find p [] = none
  find p (x ∷ xs) = if p x then some x else find p xs

  abbrev pub any : (A → Bool) → List A → Bool
  any p [] = false
  any p (x ∷ xs) = p x || any p xs

  -- SELECT COALESCE(SUM(f), 0) FROM xs WHERE p
  abbrev pub sum_where : (A → Bool) → (A → ℕ) → List A → ℕ
  sum_where p f [] = 0
  sum_where p f (x ∷ xs) = (if p x then f x else 0) + sum_where p f xs

  -- ORDER BY key DESC; rows of one key keep their order
  abbrev pub insert_desc : (A → ℕ) → A → List A → List A
  insert_desc key a [] = a ∷ []
  insert_desc key a (x ∷ xs) = if leb (key x) (key a) then a ∷ x ∷ xs else x ∷ insert_desc key a xs

  abbrev pub order_desc : (A → ℕ) → List A → List A
  order_desc key [] = []
  order_desc key (x ∷ xs) = insert_desc key x (order_desc key xs)

  -- ORDER BY key ASC; rows of one key keep their order
  abbrev pub insert_asc : (A → ℕ) → A → List A → List A
  insert_asc key a [] = a ∷ []
  insert_asc key a (x ∷ xs) = if leb (key a) (key x) then a ∷ x ∷ xs else x ∷ insert_asc key a xs

  abbrev pub order_asc : (A → ℕ) → List A → List A
  order_asc key [] = []
  order_asc key (x ∷ xs) = insert_asc key x (order_asc key xs)

  -- MAX(f) of the rows that pass; NULL where there is none
  abbrev pub max_where : (A → Bool) → (A → ℕ) → List A → Option ℕ
  max_where p f [] = none
  max_where p f (x ∷ xs) =
      let rest = max_where p f xs in
      if p x then elim rest [ none ↦ some (f x) | some m ↦ some (max (f x) m) ] else rest

  -- LIMIT
  abbrev pub take : ℕ → List A → List A
  take zero xs = []
  take (suc n) [] = []
  take (suc n) (x ∷ xs) = x ∷ take n xs

  abbrev pub drop : ℕ → List A → List A
  drop zero xs = xs
  drop (suc n) [] = []
  drop (suc n) (x ∷ xs) = drop n xs

  -- Every row satisfies `P`.
  abbrev pub All {κ} : (A → Type κ) → List A → Type κ
  All P [] = Unit
  All P (x ∷ xs) = P x × All P xs
