-- ===== src/Scanner/Download.antt =====
-- The download of blocks, page by page (fetch_block_range of http/scanner.rs, with `InProgressScan`
-- and the loop of scan_blocks).
use minotari_cli.Base.{
  Bool, List, Option, Result, [], false, is_none, is_value, ltb, network, none, not, ok, or_fail,
  some, true, ℕ, ◌&&◌, ◌+◌, ◌>>=◌, ◌∷◌,
}

pub record ScanConfig : Type 0 where
  pub start_height : ℕ
  pub end_height : Option ℕ
  pub batch_size : Option ℕ
  pub exclude_spent : Bool

pub record InProgressScan : Type 0 where
  pub config : Option ScanConfig
  pub header : Option ℕ
  pub current_page : ℕ

-- `new`
abbrev pub new_scan : ScanConfig → InProgressScan
new_scan config = record { config = some config; header = none; current_page = 0 }

-- `clear`, which is `new_empty` too
abbrev pub cleared : InProgressScan
cleared = record { config = none; header = none; current_page = 0 }

abbrev pub increment_page : InProgressScan → InProgressScan
increment_page s = record s { current_page = s.current_page + 1 }

abbrev pub set_next_request : ℕ → InProgressScan → InProgressScan
set_next_request header s = record s { header = some header; current_page = 0 }

abbrev pub page_limit : ℕ
page_limit = 50

-- the part of a block that the download reads, and an answer to sync_utxos_by_block; an empty next
-- header is none
pub record BlockUtxoInfo : Type 0 where
  pub height : ℕ
  pub contents : ℕ

pub record SyncResponse : Type 0 where
  pub blocks : List BlockUtxoInfo
  pub has_next_page : Bool
  pub next_header_to_scan : Option ℕ

-- `get_header_by_height` (the hash) and `sync_utxos_by_block` (header, limit, page, exclude_spent)
pub record Downloads : Type 0 where
  pub get_header_by_height : ℕ → Result (Option ℕ)
  pub sync_utxos_by_block : ℕ → ℕ → ℕ → Bool → Result SyncResponse

abbrev pub option_or {ℓ κ} : {A : Type ℓ} {B : Type κ} → B → (A → B) → Option A → B
option_or b f none = b
option_or b f (some a) = f a

-- `and_then`
abbrev pub end_of : InProgressScan → Option ℕ
end_of s = option_or none (λ c. c.end_height) s.config

abbrev pub is_past : Option ℕ → ℕ → Bool
is_past none height = false
is_past (some e) height = ltb e height

-- the header to ask for, once it is known
unfoldable pub next_request : Downloads → InProgressScan → Result (ℕ × InProgressScan)
next_request d s = elim s.header [
  | some h ↦ ok (h, s)
  | none ↦ do
    found ← d.get_header_by_height (option_or 0 (λ c. c.start_height) s.config)
    hash ← or_fail found network
    ok (hash, set_next_request hash s)
]

-- the loop over the blocks: whether one of them is past the end, which ends the scan
unfoldable pub passes_end : List BlockUtxoInfo → InProgressScan → Bool × InProgressScan
passes_end [] s = (false, s)
passes_end (b ∷ blocks) s = elim (is_past (end_of s) b.height) [
  | true ↦ let (_, s') = passes_end blocks cleared in (true, s')
  | false ↦ passes_end blocks s
]

-- after the last page of a header: the next header, unless there is none or it is the same again
abbrev pub next_header : Option ℕ → InProgressScan → Bool × InProgressScan
next_header next s = elim next [
  | none ↦ (false, cleared)
  | some h ↦ elim (is_value s.header h) [
    | true ↦ (false, cleared)
    | false ↦ (true, set_next_request h s)
  ]
]

abbrev pub after_page : SyncResponse → Bool → InProgressScan → Bool × InProgressScan
after_page r passed s =
    let s' = increment_page s in
    elim (not (r.has_next_page && not passed) && not (is_none s'.config)) [
      | true ↦ next_header r.next_header_to_scan s'
      | false ↦ (not passed, s')
    ]

-- the blocks of the page, whether there are more, and the state
unfoldable pub fetch_block_range :
    Downloads → InProgressScan → Result (List BlockUtxoInfo × Bool × InProgressScan)
fetch_block_range d s = do
  request ← next_request d s
  let s₁ = request.1
  let limit = option_or page_limit (λ n. n) (option_or none (λ c. c.batch_size) s₁.config)
  response ←
      d.sync_utxos_by_block request.0 limit s₁.current_page
        (option_or false (λ c. c.exclude_spent) s₁.config)
  elim response.blocks [
    | [] ↦ ok ([], false, s₁)
    | b ∷ blocks ↦
        let (passed, s₂) = passes_end (b ∷ blocks) s₁ in
        let (more, s₃) = after_page response passed s₂ in ok (b ∷ blocks, more, s₃)
  ]
