-- ===== src/Chain/Batches.antt =====
-- A batch of blocks for an account (minotari/src/scan/scan_db_handler.rs and coordinator.rs).
use minotari_cli.Base.{
  >>=-cong, List, Option, Option-cases, arith, false, find, inl, inr, leb, none, refl, some, ℕ, ◌+◌,
  ◌==◌, ◌≡◌,
}
use minotari_cli.Db.Tables.{Db}
use minotari_cli.Db.Webhooks.{WebhookTriggerConfig}
use minotari_cli.Scan.BlockProcessor.Steps.{Env}
use minotari_cli.Scan.Blocks.{BlockScanResult}
use minotari_cli.Scan.Coordinator.{
  LoopState, Monitor, Target, account_step, after_blocks, get_last, push_events_with_limit,
}
use minotari_cli.Scan.DbHandler.{process_blocks}

-- An account's turn at a batch does the same whatever the transaction monitor would do, errors and
-- changes of the database included: the next block is moved past the last one before the test that
-- leads to the monitor and to the pruning of scanned blocks, and so the test never holds.
pub account_step-no_monitor :
    (env : Env) (m m' : Monitor) (limit : Option ℕ) (webhook : Option WebhookTriggerConfig)
    (blocks : List BlockScanResult) (a : ℕ) (s : LoopState)
    → account_step env m limit webhook blocks a s ≡ account_step env m' limit webhook blocks a s
unfolding account_step after_blocks
account_step-no_monitor env m m' limit webhook blocks a s =
    elim (Option-cases (find (λ (t : Target). t.account_id == a) s.targets)) [
      | inl e ↦ rw (e, account_step) refl
      | inr (t, e) ↦
          let r =
            process_blocks env blocks a t.has_pending_outbound webhook t.next_block_to_scan
              s.handler s.db in
          rw (e, account_step)
            (>>=-cong r.0 _ _ (λ events. no_monitor (get_last blocks) t (record s {
              all_events = push_events_with_limit s.all_events events limit;
              handler = r.1;
              db = r.2;
            })))
    ]
  where
    no_monitor :
        (last : Option BlockScanResult) (t : Target) (u : LoopState)
        → after_blocks m limit last t u ≡ after_blocks m' limit last t u
    no_monitor none t u = refl
    no_monitor (some b) t u =
        let never : leb (b.height + 1) b.height ≡ false = ground arith in
        rw (never, after_blocks) refl
