-- ===== src/Chain/Fork.antt =====
-- The loop of handle_reorgs (minotari/src/scan/reorg.rs) over the stored blocks.
use minotari_cli.Base.{
  ==_refl, All, Bool, Bool-cases, List, OnOk, OnOk-map, Option, Result, Result-cases, [], any, ap,
  arith, err, false, find, inl, inr, is_value, leb, none, not, ok, refl, some, sym, true, ℕ, ◌&&◌,
  ◌+◌, ◌==◌, ◌||◌, ◌∙◌, ◌∷◌, ◌≡◌, ◌≤◌, ◌⊎◌,
}
use minotari_cli.Chain.Sorted.{AreDescending}
use minotari_cli.Db.Tables.{ScannedTipBlock}
use minotari_cli.Scan.Reorg.{scan_tips}

-- the node has the stored block at its height
abbrev pub agrees : (ℕ → Result (Option ℕ)) → ScannedTipBlock → Bool
agrees header b = elim (header b.height) [ ok chain ↦ is_value chain b.hash | err _ ↦ false ]

abbrev fork_of : Option ScannedTipBlock → ℕ
fork_of none = 0
fork_of (some b) = b.height + 1

abbrev pub fork : (ℕ → Result (Option ℕ)) → List ScannedTipBlock → ℕ
fork header bs = fork_of (find (agrees header) bs)

abbrev starts_agreed : (ℕ → Result (Option ℕ)) → List ScannedTipBlock → Bool
starts_agreed header [] = true
starts_agreed header (b ∷ bs) = agrees header b

or_false : (d : Bool) → d ≡ (d || false)
or_false true = refl
or_false false = refl

or_true : (d : Bool) → (d || true) ≡ true
or_true true = refl
or_true false = refl

pub fork-agrees :
    (header : ℕ → Result (Option ℕ)) (b : ScannedTipBlock) (bs : List ScannedTipBlock)
    → agrees header b ≡ true
    → fork header (b ∷ bs) ≡ b.height + 1
fork-agrees header b bs e = rw e refl

fork-disagrees :
    (header : ℕ → Result (Option ℕ)) (b : ScannedTipBlock) (bs : List ScannedTipBlock)
    → agrees header b ≡ false
    → fork header (b ∷ bs) ≡ fork header bs
fork-disagrees header b bs e = rw e refl

-- what the loop returns: the fork, and whether the first block disagreed or any had before
unfoldable pub IsSearch : (ℕ → Result (Option ℕ)) → List ScannedTipBlock → Bool → ℕ × Bool → Type 0
IsSearch header bs d r = (r.0 ≡ fork header bs) × (r.1 ≡ (d || not (starts_agreed header bs)))

scan_step :
    (header : ℕ → Result (Option ℕ)) (b : ScannedTipBlock) (bs : List ScannedTipBlock) (d : Bool)
    → OnOk (IsSearch header bs true) (scan_tips header bs true)
    → (v : Bool) → agrees header b ≡ v
    → OnOk
        (IsSearch header (b ∷ bs) d)
        (elim v [ true ↦ ok (b.height + 1, d) | false ↦ scan_tips header bs true ])
unfolding IsSearch
scan_step header b bs d h true e = (sym (fork-agrees header b bs e), rw e (or_false d))
scan_step header b bs d h false e =
    OnOk-map (scan_tips header bs true)
      (λ r q. (q.0 ∙ sym (fork-disagrees header b bs e), rw e (q.1 ∙ sym (or_true d)))) h

pub scan_tips_lem :
    (header : ℕ → Result (Option ℕ)) (bs : List ScannedTipBlock) (d : Bool)
    → OnOk (IsSearch header bs d) (scan_tips header bs d)
unfolding scan_tips IsSearch
scan_tips_lem header [] d = (refl, or_false d)
scan_tips_lem header (b ∷ bs) d = elim (Result-cases (header b.height)) [
  | inr (e, h) ↦ rw (h, scan_tips) tt
  | inl (c, h) ↦
      let go =
        scan_step header b bs d (scan_tips_lem header bs true) (is_value c b.hash)
          (rw (h, agrees) refl) in
      rw (h, scan_tips) go
]

leb_suc : (m : ℕ) → leb (m + 1) m ≡ false
leb_suc m = ground arith

and_false : (c : Bool) → (c && false) ≡ false
and_false true = refl
and_false false = refl

-- a block of the list at height `s` or above, or right below `s`, that the node has
abbrev agrees_from : (ℕ → Result (Option ℕ)) → List ScannedTipBlock → ℕ → Bool
agrees_from header bs s = any (λ b. leb s b.height && agrees header b) bs

abbrev agrees_below : (ℕ → Result (Option ℕ)) → List ScannedTipBlock → ℕ → Bool
agrees_below header bs s = any (λ b. ((b.height + 1) == s) && agrees header b) bs

-- nothing in a descending list is above its bound
none_from :
    (header : ℕ → Result (Option ℕ)) (m : ℕ) (bs : List ScannedTipBlock)
    → All (λ b. b.height ≤ m) bs
    → agrees_from header bs (m + 1) ≡ false
none_from header m [] h = refl
none_from header m (b ∷ bs) (le, h) = ground (arith, none_from header m bs h)

pub fork-none_above :
    (header : ℕ → Result (Option ℕ)) (bs : List ScannedTipBlock)
    → AreDescending (λ b. b.height) bs
    → agrees_from header bs (fork header bs) ≡ false
fork-none_above header [] d = refl
fork-none_above header (b ∷ bs) (h, d) = elim (Bool-cases (agrees header b)) [
  | inl y ↦
      ap (agrees_from header (b ∷ bs)) (fork-agrees header b bs y)
      ∙ rw (leb_suc b.height) (none_from header b.height bs h)
  | inr n ↦
      ap (agrees_from header (b ∷ bs)) (fork-disagrees header b bs n)
      ∙ rw (n, and_false (leb (fork header bs) b.height)) (fork-none_above header bs d)
]

pub fork-reached :
    (header : ℕ → Result (Option ℕ)) (bs : List ScannedTipBlock)
    → (fork header bs ≡ 0) ⊎ (agrees_below header bs (fork header bs) ≡ true)
fork-reached header [] = inl refl
fork-reached header (b ∷ bs) = elim (Bool-cases (agrees header b)) [
  | inl y ↦ inr (
      ap (agrees_below header (b ∷ bs)) (fork-agrees header b bs y)
      ∙ rw (==_refl (b.height + 1), y) refl)
  | inr n ↦ elim (fork-reached header bs) [
    | inl z ↦ inl (fork-disagrees header b bs n ∙ z)
    | inr e ↦ inr (
        ap (agrees_below header (b ∷ bs)) (fork-disagrees header b bs n)
        ∙ rw (n, and_false ((b.height + 1) == fork header bs)) e)
  ]
]
