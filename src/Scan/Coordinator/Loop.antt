-- ===== src/Scan/Coordinator/Loop.antt =====
-- The accounts' turn at a batch, the check for reorgs, and the wait for the next poll.
use minotari_cli.Base.{
  Bool, List, Option, Result, [], err, false, find, if◌then◌else◌, invalid_input, leb, map, none,
  ok, some, true, update_where, ℕ, ◌+◌, ◌-◌, ◌==◌, ◌>>=◌, ◌∷◌,
}
use minotari_cli.Db.Tables.{Db}
use minotari_cli.Db.Webhooks.{WebhookTriggerConfig}
use minotari_cli.Models.{WalletEvent}
use minotari_cli.Scan.BlockProcessor.Steps.{Env}
use minotari_cli.Scan.Blocks.{BlockScanResult}
use minotari_cli.Scan.Coordinator.Plan.{Target, push_events_with_limit}
use minotari_cli.Scan.DbHandler.{Handler, process_blocks, prune_tips}
use minotari_cli.Scan.Reorg.{ReorgResult, handle_reorgs}

-- The transaction monitor: from the account's target, a height and the database, the events it
-- found, the target with its flag, and the database.
abbrev pub Monitor : Type 0
Monitor = Target → ℕ → Db → Result (List WalletEvent × Target × Db)

pub record LoopState : Type 0 where
  pub targets : List Target
  pub all_events : List WalletEvent
  pub handler : Handler
  pub db : Db

abbrev pub get_last {ℓ} : {A : Type ℓ} → List A → Option A
get_last [] = none
get_last (x ∷ xs) = elim (get_last xs) [ none ↦ some x | some y ↦ some y ]

abbrev put_target : Target → List Target → List Target
put_target t ts = update_where (λ u. u.account_id == t.account_id) (λ _. t) ts

-- What follows the new blocks of an account: `next_block_to_scan` moves past the last block, and
-- then the monitor and the pruning wait for a last block at or above it.
unfoldable pub after_blocks :
    Monitor → Option ℕ → Option BlockScanResult → Target → LoopState → Result LoopState
after_blocks monitor limit none t s = ok s
after_blocks monitor limit (some last) t s =
    let t' : Target = record t { next_block_to_scan = last.height + 1 } in
    let s' : LoopState = record s { targets = put_target t' s.targets } in
    let monitored : Result LoopState = monitor t' last.height s'.db >>= λ r. ok (record s' {
      targets = put_target r.1 s'.targets;
      all_events = push_events_with_limit s'.all_events r.0 limit;
      db = prune_tips t.account_id last.height r.2;
    }) in
    if leb t'.next_block_to_scan last.height then monitored else ok s'

-- one account's turn at a batch of blocks
unfoldable pub account_step :
    Env
    → Monitor
    → Option ℕ
    → Option WebhookTriggerConfig
    → List BlockScanResult
    → ℕ
    → LoopState
    → Result LoopState
unfolding after_blocks
account_step env monitor limit webhook blocks account s =
    elim (find (λ t. t.account_id == account) s.targets) [
      | none ↦ err invalid_input
      | some t ↦
          let (r, h, db) =
            process_blocks env blocks account t.has_pending_outbound webhook t.next_block_to_scan
              s.handler s.db in
          r >>= λ events. after_blocks monitor limit (get_last blocks) t (record s {
            all_events = push_events_with_limit s.all_events events limit;
            handler = h;
            db = db;
          })
    ]

unfoldable batch_loop :
    Env
    → Monitor
    → Option ℕ
    → Option WebhookTriggerConfig
    → List BlockScanResult
    → List ℕ
    → LoopState
    → Result LoopState
batch_loop env monitor limit webhook blocks [] s = ok s
batch_loop env monitor limit webhook blocks (a ∷ rest) s =
    account_step env monitor limit webhook blocks a s >>= λ s'.
    batch_loop env monitor limit webhook blocks rest s'

-- A reorg sends the account back to the fork; without one its start stays.
abbrev resumed : Target → ReorgResult → Target
resumed t r = elim r.reorg_information [
  | none ↦ t
  | some _ ↦ record t { next_block_to_scan = r.resume_height }
]

unfoldable check_global_reorgs :
    (ℕ → Result (Option ℕ))
    → ℕ
    → Option WebhookTriggerConfig
    → List Target
    → Db
    → Result (List Target × Db)
check_global_reorgs header now webhook [] db = ok ([], db)
check_global_reorgs header now webhook (t ∷ ts) db =
    handle_reorgs header now t.account_id webhook db >>= λ r.
    check_global_reorgs header now webhook ts r.1 >>= λ rest. ok (resumed t r.0 ∷ rest.0, rest.1)

abbrev step_back : Target → Target
step_back t = record t { next_block_to_scan = t.next_block_to_scan - 1 }

-- Every account steps back by one block; a cancellation during the wait skips the check.
unfoldable wait_for_next_poll_cycle :
    (ℕ → Result (Option ℕ))
    → ℕ
    → Option WebhookTriggerConfig
    → Bool
    → List Target
    → Db
    → Result (List Target × Db)
wait_for_next_poll_cycle header now webhook true ts db = ok (map step_back ts, db)
wait_for_next_poll_cycle header now webhook false ts db =
    check_global_reorgs header now webhook (map step_back ts) db
