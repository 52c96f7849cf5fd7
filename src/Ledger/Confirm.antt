-- ===== src/Ledger/Confirm.antt =====
-- The confirmation of outputs (process_confirmations of minotari/src/scan/block_processor.rs).
use minotari_cli.Base.{
  ==_refl, Bool, Bool-cases, List, [], any, ap, arith, false, inl, inr, not, refl, select,
  update_where, ℕ, ◌&&◌, ◌-◌, ◌==◌, ◌∙◌, ◌∷◌, ◌≡◌,
}
use minotari_cli.Db.Events.{insert_wallet_event}
use minotari_cli.Db.Outputs.{
  confirm, get_unconfirmed_outputs, is_unconfirmed_at, mark_output_confirmed,
}
use minotari_cli.Db.Tables.{Db, OutputRow}
use minotari_cli.Ledger.Frames.{trigger_all-SameBooks}
use minotari_cli.Scan.BlockProcessor.{Processor}
use minotari_cli.Scan.BlockProcessor.Steps.{confirmation_loop, process_confirmations}
use minotari_cli.Scan.Blocks.{BlockScanResult}

-- the row is listed by its hash
abbrev is_listed : List OutputRow → OutputRow → Bool
is_listed os o = any (λ q. o.output_hash == q.output_hash) os

confirm-left :
    (a m h b : ℕ) (o : OutputRow) (os rows : List OutputRow)
    → any (λ r. is_unconfirmed_at a m r && not (is_listed (o ∷ os) r)) rows ≡ false
    → any
        (λ r. is_unconfirmed_at a m r && not (is_listed os r))
        (update_where (λ x. x.output_hash == o.output_hash) (confirm h b) rows)
      ≡ false
unfolding confirm
confirm-left a m h b o os [] n = refl
confirm-left a m h b o os (r ∷ rows) n = elim (Bool-cases (r.output_hash == o.output_hash)) [
  | inl y ↦ rw y (ground (arith, y, n, confirm-left a m h b o os rows))
  | inr y ↦ rw y (ground (arith, y, n, confirm-left a m h b o os rows))
]

confirmation_loop_complete :
    (a m : ℕ) (block : BlockScanResult) (os : List OutputRow) (p : Processor) (db : Db)
    → any (λ r. is_unconfirmed_at a m r && not (is_listed os r)) db.outputs ≡ false
    → any
        (λ r. is_unconfirmed_at a m r && not (is_listed [] r))
        (confirmation_loop block a os p db).2.outputs
      ≡ false
unfolding confirmation_loop mark_output_confirmed insert_wallet_event
confirmation_loop_complete a m block [] p db n = n
confirmation_loop_complete a m block (o ∷ os) p db n =
    confirmation_loop_complete a m block os _ _
      (confirm-left a m block.height block.block_hash o os db.outputs n)

-- a row that is to be confirmed and not listed
abbrev is_missed : ℕ → ℕ → List OutputRow → List OutputRow → Bool
is_missed a m rows os = any (λ r. is_unconfirmed_at a m r && not (is_listed os r)) rows

select-listed :
    (a m : ℕ) (o : OutputRow) (os rows : List OutputRow)
    → is_missed a m rows os ≡ false
    → is_missed a m rows (o ∷ os) ≡ false
select-listed a m o os [] n = refl
select-listed a m o os (r ∷ rows) n = ground (arith, n, select-listed a m o os rows)

all_listed :
    (a m : ℕ) (rows : List OutputRow)
    → is_missed a m rows (select (is_unconfirmed_at a m) rows) ≡ false
all_listed a m [] = refl
all_listed a m (r ∷ rows) = elim (Bool-cases (is_unconfirmed_at a m r)) [
  | inl y ↦
      let found : select (is_unconfirmed_at a m) (r ∷ rows)
          ≡ r ∷ select (is_unconfirmed_at a m) rows =
        rw y refl in
      let rest =
        select-listed a m r (select (is_unconfirmed_at a m) rows) rows (all_listed a m rows) in
      ap (is_missed a m (r ∷ rows)) found ∙ rw (y, ==_refl r.output_hash) rest
  | inr n ↦
      let skipped : select (is_unconfirmed_at a m) (r ∷ rows)
          ≡ select (is_unconfirmed_at a m) rows =
        rw n refl in
      ap (is_missed a m (r ∷ rows)) skipped ∙ rw n (all_listed a m rows)
]

unlisted :
    (a m : ℕ) (rows : List OutputRow)
    → any (λ r. is_unconfirmed_at a m r && not (is_listed [] r)) rows ≡ false
    → any (is_unconfirmed_at a m) rows ≡ false
unlisted a m [] n = refl
unlisted a m (r ∷ rows) n = ground (arith, unlisted a m rows)

-- Confirming at a block leaves no live output of the account unconfirmed that was mined the required
-- number of blocks below it, or deeper.
pub process_confirmations_complete :
    (block : BlockScanResult) (a : ℕ) (p : Processor) (db : Db)
    → any
        (is_unconfirmed_at a (block.height - p.required_confirmations))
        (process_confirmations block a p db).1.outputs
      ≡ false
unfolding process_confirmations get_unconfirmed_outputs
process_confirmations_complete block a p db =
    let m : ℕ = block.height - p.required_confirmations in
    let os = select (is_unconfirmed_at a m) db.outputs in
    let r = confirmation_loop block a os p db in
    let outs = (trigger_all-SameBooks a p.webhook_config r.0 r.2).outs in
    ap (any (is_unconfirmed_at a m)) outs
    ∙ unlisted a m r.2.outputs
        (confirmation_loop_complete a m block os p db (all_listed a m db.outputs))
