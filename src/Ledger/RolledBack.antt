-- ===== src/Ledger/RolledBack.antt =====
-- rollback_from_height of minotari/src/scan/reorg.rs: the rows of the tables.
use minotari_cli.Base.{
  Bool, Bool-cases, List, Option, [], ap, delete_where, inl, inr, leb, map, refl, select,
  update_where, ℕ, ◌++◌, ◌∙◌, ◌∷◌, ◌≡◌,
}
use minotari_cli.Db.CompletedTransactions.{
  is_mined_from, reset_mined_completed_transactions_from_height, reverted,
}
use minotari_cli.Db.DisplayedTransactions.{mark_displayed_transactions_reorganized_and_return}
use minotari_cli.Db.Inputs.{
  delete_input, input_from_height, join_outputs, soft_delete_inputs_from_height,
}
use minotari_cli.Db.Outputs.{
  delete_output, get_active_outputs_from_height, output_from_height,
  soft_delete_outputs_from_height,
}
use minotari_cli.Db.PayrefHistory.{
  save_completed_transaction_payrefs_before_reorg, save_displayed_transaction_payrefs_before_reorg,
}
use minotari_cli.Db.ScannedTipBlocks.{
  delete_scanned_tip_blocks_from_height, get_scanned_tip_blocks_by_account, tip_from_height,
}
use minotari_cli.Db.Tables.{Db, OutputRow, ScannedTipBlock}
use minotari_cli.Db.Webhooks.{WebhookTriggerConfig}
use minotari_cli.Ledger.Frames.{
  SameBooks-trans, cancel_requests-SameBooks, log_events-SameBooks, mark_reorganized-SameBooks,
  save_completed-SameBooks, save_displayed-SameBooks, trigger_all-SameBooks,
}
use minotari_cli.Ledger.Reversals.{reverse_inputs-OnlyLedger, reverse_outputs-OnlyLedger}
use minotari_cli.Models.OutputStatus.{OutputStatus}
use minotari_cli.Scan.Reorg.{
  block_event, cancel_requests, lock_requests, log_events, output_event, rollback_from_height,
}

soft_delete_outputs-rows :
    (a h now : ℕ) (db : Db)
    → let db' = soft_delete_outputs_from_height a h now db in
      (db'.outputs ≡ update_where (output_from_height a h) (delete_output h now) db.outputs)
      × (db'.inputs ≡ db.inputs)
      × (db'.scanned_tip_blocks ≡ db.scanned_tip_blocks)
      × (db'.completed_transactions ≡ db.completed_transactions)
      × (db'.next_output_id ≡ db.next_output_id)
unfolding soft_delete_outputs_from_height
soft_delete_outputs-rows a h now db =
    let frame =
      reverse_outputs-OnlyLedger a h now (select (output_from_height a h) db.outputs) db in
    (
      ap (λ (d : Db). update_where (output_from_height a h) (delete_output h now) d.outputs) frame,
      ap (λ (d : Db). d.inputs) frame,
      ap (λ (d : Db). d.scanned_tip_blocks) frame,
      ap (λ (d : Db). d.completed_transactions) frame,
      ap (λ (d : Db). d.next_output_id) frame,
    )

soft_delete_inputs-rows :
    (a h now : ℕ) (db : Db)
    → let db' = soft_delete_inputs_from_height a h now db in
      (db'.inputs ≡ update_where (input_from_height a h) (delete_input h now) db.inputs)
      × (db'.outputs ≡ db.outputs)
      × (db'.scanned_tip_blocks ≡ db.scanned_tip_blocks)
      × (db'.completed_transactions ≡ db.completed_transactions)
      × (db'.next_output_id ≡ db.next_output_id)
unfolding soft_delete_inputs_from_height
soft_delete_inputs-rows a h now db =
    let frame =
      reverse_inputs-OnlyLedger a h now
        (join_outputs db.outputs (select (input_from_height a h) db.inputs)) db in
    (
      ap (λ (d : Db). update_where (input_from_height a h) (delete_input h now) d.inputs) frame,
      ap (λ (d : Db). d.outputs) frame,
      ap (λ (d : Db). d.scanned_tip_blocks) frame,
      ap (λ (d : Db). d.completed_transactions) frame,
      ap (λ (d : Db). d.next_output_id) frame,
    )

-- Rolling back account `a` from a height soft-deletes exactly its live outputs and inputs mined at
-- or above the height, removes exactly its scanned blocks from there on, and turns exactly its
-- transactions mined there back to completed. Every other row of these tables stays as it is.
pub rollback_from_height-rows :
    (now a h : ℕ) (webhook : Option WebhookTriggerConfig) (db : Db)
    → let db' = (rollback_from_height now a h webhook db).1 in
      (db'.outputs ≡ update_where (output_from_height a h) (delete_output h now) db.outputs)
      × (db'.inputs ≡ update_where (input_from_height a h) (delete_input h now) db.inputs)
      × (db'.scanned_tip_blocks ≡ delete_where (tip_from_height a h) db.scanned_tip_blocks)
      × (db'.completed_transactions
          ≡ update_where (is_mined_from a h) (reverted now) db.completed_transactions)
      × (db'.next_output_id ≡ db.next_output_id)
unfolding rollback_from_height delete_scanned_tip_blocks_from_height
    reset_mined_completed_transactions_from_height
rollback_from_height-rows now a h webhook db =
    let blocks =
      select (λ (x : ScannedTipBlock). leb h x.height) (get_scanned_tip_blocks_by_account a db) in
    let r₁ = log_events a (map block_event blocks) db in
    let affected = get_active_outputs_from_height a h r₁.1 in
    let r₂ = log_events a (map (output_event h) affected) r₁.1 in
    let r₃ = cancel_requests a (lock_requests affected) r₂.1 in
    let db₄ = soft_delete_inputs_from_height a h now r₃.1 in
    let db₆ =
      delete_scanned_tip_blocks_from_height a h (soft_delete_outputs_from_height a h now db₄) in
    let r₇ = save_displayed_transaction_payrefs_before_reorg a h db₆ in
    let r₈ = mark_displayed_transactions_reorganized_and_return a h r₇.1 in
    let r₉ = save_completed_transaction_payrefs_before_reorg a h r₈.1 in
    let r₁₀ = reset_mined_completed_transactions_from_height a h now r₉.1 in
    let before = SameBooks-trans (log_events-SameBooks a (map block_event blocks) db) (
      SameBooks-trans (log_events-SameBooks a (map (output_event h) affected) r₁.1)
        (cancel_requests-SameBooks a (lock_requests affected) r₂.1)) in
    let after =
      SameBooks-trans (save_displayed-SameBooks a h db₆) (
        SameBooks-trans (mark_reorganized-SameBooks a h r₇.1)
          (save_completed-SameBooks a h r₈.1)) in
    let last = trigger_all-SameBooks a webhook (r₁.0 ++ r₂.0 ++ r₃.0) r₁₀.1 in
    let (o₄, i₄, t₄, c₄, n₄) = soft_delete_outputs-rows a h now db₄ in
    let (i₃, o₃, t₃, c₃, n₃) = soft_delete_inputs-rows a h now r₃.1 in
    (
      last.outs
          ∙ after.outs
          ∙ o₄
          ∙ ap (update_where (output_from_height a h) (delete_output h now)) (o₃ ∙ before.outs),
      last.ins
          ∙ after.ins
          ∙ i₄
          ∙ i₃
          ∙ ap (update_where (input_from_height a h) (delete_input h now)) before.ins,
      last.tips ∙ after.tips ∙ ap (delete_where (tip_from_height a h)) (t₄ ∙ t₃ ∙ before.tips),
      last.completed
          ∙ ap (update_where (is_mined_from a h) (reverted now))
              (after.completed ∙ c₄ ∙ c₃ ∙ before.completed),
      last.next ∙ after.next ∙ n₄ ∙ n₃ ∙ before.next,
    )

-- what the rest of the wallet decides by: whether an output may be spent, and who holds it
abbrev pub hold : OutputRow → ℕ × OutputStatus × Option ℕ
hold o = (o.id, o.status, o.locked_by_request_id)

hold-delete :
    (h now : ℕ) (p : OutputRow → Bool) (os : List OutputRow)
    → map hold (update_where p (delete_output h now) os) ≡ map hold os
unfolding delete_output
hold-delete h now p [] = refl
hold-delete h now p (o ∷ os) = elim (Bool-cases (p o)) [
  | inl y ↦ rw (y, hold-delete h now p os) refl
  | inr n ↦ rw (n, hold-delete h now p os) refl
]

-- A rollback changes the status and the lock of no output, deleted or not: one that is spent or
-- locked is so afterwards, whatever becomes of the input or the request that made it so.
pub rollback_from_height-hold :
    (now a h : ℕ) (webhook : Option WebhookTriggerConfig) (db : Db)
    → map hold (rollback_from_height now a h webhook db).1.outputs ≡ map hold db.outputs
rollback_from_height-hold now a h webhook db =
    ap (map hold) (rollback_from_height-rows now a h webhook db).0
    ∙ hold-delete h now (output_from_height a h) db.outputs
