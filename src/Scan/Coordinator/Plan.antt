-- ===== src/Scan/Coordinator/Plan.antt =====
-- What a round of `unified_scan_loop` asks the scanner for, and the buffer of events.
use minotari_cli.Base.{
  Bool, List, Option, [], if◌then◌else◌, length, ltb, map, min, none, select, some, ℕ, ◌++◌, ◌+◌,
  ◌-◌, ◌==◌, ◌^◌, ◌∷◌,
}

-- `ScanMode` of scan/config.rs
pub data ScanMode : Type 0 where
  partial : ℕ → ScanMode
  full : ScanMode
  continuous : ℕ → ScanMode

-- `AccountSyncTarget`, with the flag of its transaction monitor
pub record Target : Type 0 where
  pub account_id : ℕ
  pub next_block_to_scan : ℕ
  pub has_pending_outbound : Bool

abbrev max_continuous_buffered_events : ℕ
max_continuous_buffered_events = 10000

-- `max_buffered_events`
unfoldable buffer_limit : ScanMode → Option ℕ
buffer_limit (partial _) = none
buffer_limit full = none
buffer_limit (continuous _) = some max_continuous_buffered_events

abbrev pub min_of : List ℕ → Option ℕ
min_of [] = none
min_of (x ∷ xs) = elim (min_of xs) [ none ↦ some x | some m ↦ some (min x m) ]

abbrev pub starts : List Target → List ℕ
starts ts = map (λ t. t.next_block_to_scan) ts

unfoldable pub global_next_block : List Target → ℕ
global_next_block ts = elim (min_of (starts ts)) [ none ↦ 0 | some m ↦ m ]

unfoldable active_account_ids : List Target → List ℕ
active_account_ids ts =
    map (λ t. t.account_id) (select (λ t. t.next_block_to_scan == global_next_block ts) ts)

unfoldable pub next_horizon_height : List Target → Option ℕ
next_horizon_height ts = min_of (select (λ h. ltb (global_next_block ts) h) (starts ts))

abbrev before_horizon : Option ℕ → Option ℕ
before_horizon none = none
before_horizon (some h) = some (h - 1)

-- u64 addition that saturates
abbrev pub sat_add : ℕ → ℕ → ℕ
sat_add a b = min (a + b) (2 ^ 64 - 1)

abbrev limit_to : ℕ → Option ℕ → Option ℕ
limit_to most none = some most
limit_to most (some h) = some (min h most)

unfoldable pub end_height : ScanMode → ℕ → List Target → Option ℕ
end_height (partial max_blocks) scanned ts =
    limit_to (sat_add (global_next_block ts) max_blocks - scanned)
      (before_horizon (next_horizon_height ts))
end_height full scanned ts = before_horizon (next_horizon_height ts)
end_height (continuous _) scanned ts = before_horizon (next_horizon_height ts)

unfoldable pub effective_batch_size : ℕ → List Target → ℕ
effective_batch_size batch_size ts = elim (next_horizon_height ts) [
  | none ↦ batch_size
  | some h ↦ min (h - global_next_block ts) batch_size
]

-- `while all_events.len() > limit { pop_front }`
unfoldable pub pop_excess {ℓ} : {A : Type ℓ} → ℕ → List A → List A
pop_excess limit [] = []
pop_excess limit (x ∷ xs) =
    let rest = pop_excess limit xs in if ltb limit (length (x ∷ xs)) then rest else x ∷ xs

unfoldable pub push_events_with_limit {ℓ} : {A : Type ℓ} → List A → List A → Option ℕ → List A
push_events_with_limit all events none = all ++ events
push_events_with_limit all events (some limit) = pop_excess limit (all ++ events)
