-- ===== src/Scan/DbHandler.antt =====
-- scan/scan_db_handler.rs: the blocks of a batch are processed in one database transaction, so a
-- failure leaves the database as it was. The processor is taken out of the handler for that time.
use minotari_cli.Base.{
  Bool, List, Option, Result, [], err, false, invalid_input, ltb, none, ok, some, true, ℕ, ◌>>=◌,
  ◌∷◌,
}
use minotari_cli.Db.ScannedTipBlocks.{prune_scanned_tip_blocks}
use minotari_cli.Db.Tables.{Db}
use minotari_cli.Db.Webhooks.{WebhookTriggerConfig}
use minotari_cli.Models.{WalletEvent}
use minotari_cli.Scan.BlockProcessor.{
  Processor, set_has_pending_outbound, set_webhook_config, take_wallet_events,
}
use minotari_cli.Scan.BlockProcessor.Steps.{Env, process_block}
use minotari_cli.Scan.Blocks.{BlockScanResult}

pub record Handler : Type 0 where
  pub block_processor : Option Processor

-- Blocks below `next_block` are skipped.
unfoldable pub process_each :
    Env → ℕ → ℕ → List BlockScanResult → Processor → Db → Result (Processor × Db)
process_each env account next_block [] p db = ok (p, db)
process_each env account next_block (b ∷ bs) p db = elim (ltb b.height next_block) [
  | true ↦ process_each env account next_block bs p db
  | false ↦ process_block env b account p db >>= λ r. process_each env account next_block bs r.0 r.1
]

-- What `?` leaves behind on an error: no processor, and the database of before the transaction.
unfoldable pub after_batch :
    Handler → Db → Result (Processor × Db) → Result (List WalletEvent) × Handler × Db
after_batch h db (err e) = (err e, record { block_processor = none }, db)
after_batch h db (ok (p, db')) =
    let (events, p') = take_wallet_events p in
    (ok events, record { block_processor = some p' }, db')

unfoldable pub process_blocks :
    Env
    → List BlockScanResult
    → ℕ
    → Bool
    → Option WebhookTriggerConfig
    → ℕ
    → Handler
    → Db
    → Result (List WalletEvent) × Handler × Db
unfolding process_each after_batch
process_blocks env [] account pending_outbound webhook next_block h db = (ok [], h, db)
process_blocks env (b ∷ bs) account pending_outbound webhook next_block h db =
    elim h.block_processor [
      | none ↦ (err invalid_input, h, db)
      | some p ↦ after_batch h db (
          process_each env account next_block (b ∷ bs)
            (set_webhook_config webhook (set_has_pending_outbound pending_outbound p)) db)
    ]

unfoldable pub prune_tips : ℕ → ℕ → Db → Db
prune_tips account height db = prune_scanned_tip_blocks account height db
