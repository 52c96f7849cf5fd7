-- ===== src/Scanner/Progress.antt =====
-- What a page of the download (fetch_block_range of http/scanner.rs) leaves for the next.
use minotari_cli.Base.{
  All, Bool, Bool-cases, List, OnOk, OnOk-any, Option, Option-cases, [], ap, arith, false, inl, inr,
  is_none, is_value, network, none, not, of_ok, ok, or_fail, refl, some, sym, transport, true, ℕ,
  ◌&&◌, ◌+◌, ◌==◌, ◌∙◌, ◌∷◌, ◌≡◌, ◌⊎◌,
}
use minotari_cli.Scanner.Download.{
  BlockUtxoInfo, Downloads, InProgressScan, SyncResponse, after_page, cleared, end_of,
  fetch_block_range, increment_page, is_past, next_header, next_request, option_or, passes_end,
}

-- the next request: the next page of a header, or the first page of another header
abbrev pub IsNext : ℕ → ℕ → InProgressScan → Type 0
IsNext header page s =
    ((s.header ≡ some header) × (s.current_page ≡ page + 1))
    ⊎ ((h : ℕ) × (s.header ≡ some h) × ((header == h) ≡ false) × (s.current_page ≡ 0))

next_request-known :
    (d : Downloads) (s : InProgressScan)
    → OnOk (λ r. (r.1.header ≡ some r.0) × (r.1.config ≡ s.config)) (next_request d s)
unfolding next_request
next_request-known d s = elim (Option-cases s.header) [
  | inr (h, e) ↦ rw (e, next_request) (e, refl)
  | inl e ↦
      rw (e, next_request)
        (OnOk-any _ (d.get_header_by_height _) _
          (λ found. OnOk-any _ (or_fail found network) _ (λ hash. (refl, refl))))
]

passes_end-cleared : (blocks : List BlockUtxoInfo) → (passes_end blocks cleared).1 ≡ cleared
unfolding passes_end
passes_end-cleared [] = refl
passes_end-cleared (b ∷ blocks) = passes_end-cleared blocks

-- a block past the end has ended the scan, or there is none and the scan goes on as it was
IsWithin : InProgressScan → List BlockUtxoInfo → Bool × InProgressScan → Type 0
IsWithin s blocks r =
    ((r.0 ≡ true) × (r.1 ≡ cleared))
    ⊎ ((r.0 ≡ false) × (r.1 ≡ s) × All (λ b. is_past (end_of s) b.height ≡ false) blocks)

passes_end-IsWithin :
    (blocks : List BlockUtxoInfo) (s : InProgressScan) → IsWithin s blocks (passes_end blocks s)
unfolding passes_end IsWithin
passes_end-IsWithin [] s = inr (refl, refl, tt)
passes_end-IsWithin (b ∷ blocks) s = elim (Bool-cases (is_past (end_of s) b.height)) [
  | inl y ↦ rw (y, passes_end) (inl (refl, passes_end-cleared blocks))
  | inr n ↦
      rw (n, passes_end)
        (elim (passes_end-IsWithin blocks s) [
          | inl (e, c) ↦ inl (e, c)
          | inr (e, c, h) ↦ inr (e, c, (refl, h))
        ])
]

after_page-cleared : (r : SyncResponse) → (after_page r true cleared).0 ≡ false
after_page-cleared r = ground arith

-- The scan ends with this page, or goes on with the next request.
GoesOn : ℕ → InProgressScan → Bool × InProgressScan → Type 0
GoesOn header s r =
    (r.0 ≡ false) ⊎ ((r.0 ≡ true) × (r.1.config ≡ s.config) × IsNext header s.current_page r.1)

next_header-GoesOn :
    (next : Option ℕ) (header : ℕ) (s : InProgressScan)
    → s.header ≡ some header
    → GoesOn header s (next_header next (increment_page s))
unfolding GoesOn
next_header-GoesOn none header s e = inl refl
next_header-GoesOn (some h) header s e = elim (Bool-cases (is_value s.header h)) [
  | inl y ↦ rw (y, next_header) (inl refl)
  | inr k ↦
      rw (k, next_header)
        (inr (refl, refl, inr (h, refl, ap (λ o. is_value o h) (sym e) ∙ k, refl)))
]

after_page-GoesOn :
    (r : SyncResponse) (header : ℕ) (s : InProgressScan)
    → s.header ≡ some header
    → GoesOn header s (after_page r false s)
unfolding GoesOn
after_page-GoesOn r header s e =
    elim (Bool-cases (not (r.has_next_page && not false) && not (is_none s.config))) [
      | inl y ↦ rw (y, after_page) (next_header-GoesOn r.next_header_to_scan header s e)
      | inr n ↦ rw (n, after_page) (inr (refl, refl, inl (e, refl)))
    ]

-- what a page gives: whether there is more, and the state
IsPage : ℕ → InProgressScan → List BlockUtxoInfo × Bool × InProgressScan → Type 0
IsPage header s r =
    (r.1 ≡ false)
    ⊎ ((r.2.config ≡ s.config)
        × IsNext header s.current_page r.2
        × All (λ b. is_past (end_of s) b.height ≡ false) r.0)

blocks-IsPage :
    (response : SyncResponse) (header : ℕ) (s : InProgressScan) (blocks : List BlockUtxoInfo)
    → s.header ≡ some header
    → let (passed, s₂) = passes_end blocks s in
      let (more, s₃) = after_page response passed s₂ in IsPage header s (blocks, more, s₃)
unfolding IsPage IsWithin GoesOn
blocks-IsPage response header s blocks e = elim (passes_end-IsWithin blocks s) [
  | inl (p, c) ↦ rw (p, c) (inl (after_page-cleared response))
  | inr (p, c, h) ↦
      rw (p, c)
        (elim (after_page-GoesOn response header s e) [
          | inl f ↦ inl f
          | inr (m, k, n) ↦ inr (k, n, h)
        ])
]

fetched-IsPage :
    (d : Downloads) (s s₁ : InProgressScan) (header : ℕ)
    → next_request d s ≡ ok (header, s₁)
    → s₁.header ≡ some header
    → OnOk (IsPage header s₁) (fetch_block_range d s)
unfolding fetch_block_range IsPage
fetched-IsPage d s s₁ header e known =
    rw (e, fetch_block_range)
      (OnOk-any (IsPage header s₁) (d.sync_utxos_by_block header _ s₁.current_page _) _ (λ response.
        elim response.blocks
          as (λ bs. OnOk (IsPage header s₁) (elim bs [
            | [] ↦ ok ([], false, s₁)
            | b ∷ blocks ↦
                let (passed, s₂) = passes_end (b ∷ blocks) s₁ in
                let (more, s₃) = after_page response passed s₂ in ok (b ∷ blocks, more, s₃)
          ])) [ [] ↦ inl refl | b ∷ blocks ↦ blocks-IsPage response header s₁ (b ∷ blocks) known ]))

going_on :
    (d : Downloads) (s s₁ s' : InProgressScan) (header : ℕ) (blocks : List BlockUtxoInfo)
    → s₁.config ≡ s.config
    → IsPage header s₁ (blocks, true, s')
    → (s'.config ≡ s.config)
      × IsNext header s₁.current_page s'
      × All (λ b. is_past (end_of s) b.height ≡ false) blocks
unfolding IsPage
going_on d s s₁ s' header blocks c (inl f) = absurd (cc)
going_on d s s₁ s' header blocks c (inr (k, n, h)) = (
  k ∙ c,
  n,
  transport
      (ap
        (λ config.
          All (λ b. is_past (option_or none (λ c. c.end_height) config) b.height ≡ false) blocks)
        c)
      h,
)

-- Where a page of the download says that there are more blocks, the scan goes on under its
-- configuration, none of the page's blocks is past the end height, and the next request is another
-- than this one: the next page of the header, or the first page of a header that is not the same.
pub fetch_block_range-IsNext :
    (d : Downloads) (s s₁ s' : InProgressScan) (header : ℕ) (blocks : List BlockUtxoInfo)
    → next_request d s ≡ ok (header, s₁)
    → fetch_block_range d s ≡ ok (blocks, true, s')
    → (s'.config ≡ s.config)
      × IsNext header s₁.current_page s'
      × All (λ b. is_past (end_of s) b.height ≡ false) blocks
unfolding fetch_block_range
fetch_block_range-IsNext d s s₁ s' header blocks e f =
    let (known, kept) =
      of_ok (λ r. (r.1.header ≡ some r.0) × (r.1.config ≡ s.config)) _ (next_request-known d s) e in
    let page = of_ok (IsPage header s₁) _ (fetched-IsPage d s s₁ header e known) f in
    going_on d s s₁ s' header blocks kept page
