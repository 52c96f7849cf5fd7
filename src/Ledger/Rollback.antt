-- ===== src/Ledger/Rollback.antt =====
-- rollback_from_height of minotari/src/scan/reorg.rs: the sums of the books.
use minotari_cli.Base.{Option, ap, arith, leb, map, select, sum-select, update_where, ℕ, ◌++◌}
use minotari_cli.Db.CompletedTransactions.{reset_mined_completed_transactions_from_height}
use minotari_cli.Db.DisplayedTransactions.{mark_displayed_transactions_reorganized_and_return}
use minotari_cli.Db.Inputs.{input_from_height, join_outputs, soft_delete_inputs_from_height}
use minotari_cli.Db.Outputs.{
  delete_output, get_active_outputs_from_height, output_from_height,
  soft_delete_outputs_from_height,
}
use minotari_cli.Db.PayrefHistory.{
  save_completed_transaction_payrefs_before_reorg, save_displayed_transaction_payrefs_before_reorg,
}
use minotari_cli.Db.ScannedTipBlocks.{
  delete_scanned_tip_blocks_from_height, get_scanned_tip_blocks_by_account,
}
use minotari_cli.Db.Tables.{Db, InputRow, OutputRow, ScannedTipBlock}
use minotari_cli.Db.Webhooks.{WebhookTriggerConfig}
use minotari_cli.Ledger.Frames.{
  IsBalanced-same, SameBooks-trans, cancel_requests-SameBooks, log_events-SameBooks,
  mark_reorganized-SameBooks, save_completed-SameBooks, save_displayed-SameBooks,
  trigger_all-SameBooks,
}
use minotari_cli.Ledger.Reversals.{
  credits-reverse_inputs, credits-reverse_outputs, debits-reverse_inputs, debits-reverse_outputs,
  received-delete, reverse_inputs-OnlyLedger, reverse_outputs-OnlyLedger, share, spent_value-delete,
  spent_value-outputs, sum-join_outputs, value_of-delete,
}
use minotari_cli.Ledger.Totals.{IsBalanced, value_of}
use minotari_cli.Scan.Reorg.{
  block_event, cancel_requests, lock_requests, log_events, output_event, rollback_from_height,
}

soft_delete_outputs-IsBalanced :
    (b a h now : ℕ) (db : Db)
    → IsBalanced b db
    → IsBalanced b (soft_delete_outputs_from_height a h now db)
unfolding soft_delete_outputs_from_height
soft_delete_outputs-IsBalanced b a h now db bal =
    let rows = select (output_from_height a h) db.outputs in
    let frame = reverse_outputs-OnlyLedger a h now rows db in
    let outs = ap (λ (d : Db). d.outputs) frame in
    let ins = ap (λ (d : Db). d.inputs) frame in
    rw (outs, ins)
      (omega (
        arith,
        bal,
        credits-reverse_outputs b a h now rows db,
        debits-reverse_outputs b a h now rows db,
        received-delete b a h now db.outputs,
        ap (share a b)
            (sum-select (output_from_height a h) (λ (o : OutputRow). o.value) db.outputs),
        spent_value-outputs b db.outputs
            (update_where (output_from_height a h) (delete_output h now) db.outputs) db.inputs
            (λ k. value_of-delete a h now k db.outputs),
      ))

soft_delete_inputs-IsBalanced :
    (b a h now : ℕ) (db : Db)
    → IsBalanced b db
    → IsBalanced b (soft_delete_inputs_from_height a h now db)
unfolding soft_delete_inputs_from_height
soft_delete_inputs-IsBalanced b a h now db bal =
    let selected = select (input_from_height a h) db.inputs in
    let rows = join_outputs db.outputs selected in
    let frame = reverse_inputs-OnlyLedger a h now rows db in
    let outs = ap (λ (d : Db). d.outputs) frame in
    let ins = ap (λ (d : Db). d.inputs) frame in
    rw (outs, ins)
      (omega (
        arith,
        bal,
        credits-reverse_inputs b a h now rows db,
        debits-reverse_inputs b a h now rows db,
        spent_value-delete b a h now db.outputs db.inputs,
        ap (share a b) (sum-join_outputs db.outputs selected),
        ap (share a b) (
            sum-select (input_from_height a h) (λ (i : InputRow). value_of db.outputs i.output_id)
              db.inputs),
      ))

pub rollback_from_height-IsBalanced :
    (b now a h : ℕ) (webhook : Option WebhookTriggerConfig) (db : Db)
    → IsBalanced b db
    → IsBalanced b (rollback_from_height now a h webhook db).1
unfolding rollback_from_height delete_scanned_tip_blocks_from_height
    reset_mined_completed_transactions_from_height
rollback_from_height-IsBalanced b now a h webhook db bal =
    let blocks =
      select (λ (x : ScannedTipBlock). leb h x.height) (get_scanned_tip_blocks_by_account a db) in
    let r₁ = log_events a (map block_event blocks) db in
    let affected = get_active_outputs_from_height a h r₁.1 in
    let r₂ = log_events a (map (output_event h) affected) r₁.1 in
    let r₃ = cancel_requests a (lock_requests affected) r₂.1 in
    let db₄ = soft_delete_inputs_from_height a h now r₃.1 in
    let db₆ =
      delete_scanned_tip_blocks_from_height a h (soft_delete_outputs_from_height a h now db₄) in
    let r₇ = save_displayed_transaction_payrefs_before_reorg a h db₆ in
    let r₈ = mark_displayed_transactions_reorganized_and_return a h r₇.1 in
    let r₉ = save_completed_transaction_payrefs_before_reorg a h r₈.1 in
    let r₁₀ = reset_mined_completed_transactions_from_height a h now r₉.1 in
    let before = SameBooks-trans (log_events-SameBooks a (map block_event blocks) db) (
      SameBooks-trans (log_events-SameBooks a (map (output_event h) affected) r₁.1)
        (cancel_requests-SameBooks a (lock_requests affected) r₂.1)) in
    let after =
      SameBooks-trans (save_displayed-SameBooks a h db₆) (
        SameBooks-trans (mark_reorganized-SameBooks a h r₇.1)
          (save_completed-SameBooks a h r₈.1)) in
    IsBalanced-same b (trigger_all-SameBooks a webhook (r₁.0 ++ r₂.0 ++ r₃.0) r₁₀.1) (
      IsBalanced-same b after (
        soft_delete_outputs-IsBalanced b a h now db₄
          (soft_delete_inputs-IsBalanced b a h now r₃.1 (IsBalanced-same b before bal))))
