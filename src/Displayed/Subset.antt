-- ===== src/Displayed/Subset.antt =====
-- The search for inputs that add up to a payment: solve_back_track and backtrack_subset of
-- transactions/displayed_transaction_processor/processor.rs.
use minotari_cli.Base.{
  Bool, List, Option, [], any, drop, false, first, if◌then◌else◌, leb, ltb, map, none, not,
  order_asc, order_desc, select, some, true, ℕ, ◌+◌, ◌==◌, ◌||◌, ◌∷◌,
}

abbrev pub first_or {ℓ} : {A : Type ℓ} → A → List A → A
first_or a [] = a
first_or a (x ∷ _) = x

-- suffix[i] = vals[i] + suffix[i + 1], from a last 0
abbrev pub suffix_sums : List ℕ → List ℕ
suffix_sums [] = 0 ∷ []
suffix_sums (v ∷ vals) = let rest = suffix_sums vals in (first_or 0 rest + v) ∷ rest

-- taking an input has led to the target, or the input is skipped
abbrev pub take_or_skip : Bool × List Bool → (List Bool → Bool × List Bool) → Bool × List Bool
take_or_skip (true, rest) skip = (true, true ∷ rest)
take_or_skip (false, rest) skip = let skipped = skip rest in (skipped.0, false ∷ skipped.1)

-- `back_track`, from a step on: the lists are what is left of the source's from that step. It gives
-- whether the target was reached, and the assignment.
unfoldable pub back_track : List ℕ → List ℕ → List Bool → ℕ → ℕ → Bool × List Bool
back_track [] suffix assignment current target = (current == target, assignment)
back_track (n ∷ vals) suffix assignment current target = elim (current == target) [
  | true ↦ (true, assignment)
  | false ↦ elim (first (drop 1 suffix)) [
    | none ↦ (false, assignment)
    | some rem ↦ elim (ltb (current + rem + n) target || ltb target current) [
      | true ↦ (false, assignment)
      | false ↦ elim assignment [
        | [] ↦ (false, [])
        | _ ∷ others ↦
            let taken : Bool × List Bool = elim (leb (current + n) target) [
              | true ↦ back_track vals (drop 1 suffix) others (current + n) target
              | false ↦ (false, others)
            ] in
            take_or_skip taken (λ rest. back_track vals (drop 1 suffix) rest current target)
      ]
    ]
  ]
]

abbrev pub get {ℓ} : {A : Type ℓ} → ℕ → List A → Option A
get i xs = first (drop i xs)

-- the indices of the pool, each with its number; `none` where an index has none
unfoldable pub look_up : List ℕ → List ℕ → Option (List (ℕ × ℕ))
look_up [] nums = some []
look_up (i ∷ pool) nums = elim (get i nums) [
  | none ↦ none
  | some n ↦ elim (look_up pool nums) [ none ↦ none | some rest ↦ some ((i, n) ∷ rest) ]
]

-- the candidates: those that do not exceed the target, the largest first
abbrev pub candidates_of : ℕ → List (ℕ × ℕ) → List (ℕ × ℕ)
candidates_of target pool = order_desc (λ c. c.1) (select (λ c. leb c.1 target) pool)

-- zip and filter
abbrev pub taken_of : List Bool → List (ℕ × ℕ) → List (ℕ × ℕ)
taken_of [] cs = []
taken_of (b ∷ bs) [] = []
taken_of (b ∷ bs) (c ∷ cs) = if b then c ∷ taken_of bs cs else taken_of bs cs

abbrev pub all_false : List ℕ → List Bool
all_false vals = map (λ _. false) vals

unfoldable pub choose : ℕ → List (ℕ × ℕ) → Option (List (ℕ × ℕ))
choose target candidates =
    let vals = map (λ c. c.1) candidates in
    let suffix = suffix_sums vals in
    elim (ltb (first_or 0 suffix) target) [
      | true ↦ none
      | false ↦
          let (found, assignment) = back_track vals suffix (all_false vals) 0 target in
          if found then some (taken_of assignment candidates) else none
    ]

-- the indices that were chosen, each with its number
unfoldable pub backtrack_subset : List ℕ → List ℕ → ℕ → Option (List (ℕ × ℕ))
backtrack_subset pool nums target = elim (look_up pool nums) [
  | none ↦ none
  | some found ↦ choose target (candidates_of target found)
]

abbrev pub indices : List (ℕ × ℕ) → List ℕ
indices cs = map (λ c. c.0) cs

abbrev pub contains : ℕ → List ℕ → Bool
contains i is = any (λ j. j == i) is

abbrev pub or_empty : Option (List (ℕ × ℕ)) → List ℕ
or_empty none = []
or_empty (some cs) = indices cs

-- the loop over the targets; each takes its indices from the pool
unfoldable pub solve_each : List ℕ → List (ℕ × ℕ) → List ℕ → List (ℕ × List ℕ)
solve_each nums [] remaining = []
solve_each nums ((target, output) ∷ targets) remaining =
    let used = or_empty (backtrack_subset remaining nums target) in
    (output, used) ∷ solve_each nums targets (select (λ i. not (contains i used)) remaining)

abbrev pub range_from : ℕ → List ℕ → List ℕ
range_from k [] = []
range_from k (_ ∷ xs) = k ∷ range_from (k + 1) xs

-- `values` are the inputs' values; an output's index comes with what the inputs of its payment add
-- up to
unfoldable pub solve_back_track : List ℕ → List (ℕ × ℕ) → List (ℕ × List ℕ)
solve_back_track values targets =
    let nums = order_asc (λ v. v) values in
    solve_each nums (order_asc (λ t. t.0) targets) (range_from 0 nums)
