-- ===== src/Examples/Scanning.antt =====
-- The theorems on the scan, applied.
use minotari_cli.Base.{
  List, Result, [], delete_where, err, map, network, none, ok, refl, some, true, update_where, ◌∷◌,
  ◌≡◌, ◌⊎◌,
}
use minotari_cli.Chain.Batches.{account_step-no_monitor}
use minotari_cli.Chain.Resume.{IsFork, handle_reorgs-IsFork}
use minotari_cli.Chain.Stable.{handle_reorgs-stable}
use minotari_cli.Db.BalanceChanges.{
  get_balance_change_id_by_output, insert_balance_change, mark_original,
}
use minotari_cli.Db.CompletedTransactions.{
  is_mined_from, reset_mined_completed_transactions_from_height, reverted,
}
use minotari_cli.Db.DisplayedTransactions.{mark_displayed_transactions_reorganized_and_return}
use minotari_cli.Db.Events.{insert_wallet_event}
use minotari_cli.Db.Inputs.{
  delete_input, input_from_height, insert_input, soft_delete_inputs_from_height,
}
use minotari_cli.Db.Outputs.{
  delete_output, get_active_outputs_from_height, get_output_info_by_hash_for_account,
  get_unconfirmed_outputs, insert_output, output_from_height, soft_delete_outputs_from_height,
  update_output_status,
}
use minotari_cli.Db.PayrefHistory.{
  save_completed_transaction_payrefs_before_reorg, save_displayed_transaction_payrefs_before_reorg,
}
use minotari_cli.Db.ScannedTipBlocks.{
  delete_scanned_tip_blocks_from_height, get_scanned_tip_blocks_by_account,
  insert_scanned_tip_block, tip_from_height,
}
use minotari_cli.Db.Tables.{Db}
use minotari_cli.Db.Webhooks.{trigger_all}
use minotari_cli.Examples.Wallets.{block, env, node, processor, wallet, wallet-IsConsistent}
use minotari_cli.Ledger.Process.{process_block-IsConsistent}
use minotari_cli.Ledger.RollbackSound.{rollback_from_height-IsConsistent}
use minotari_cli.Ledger.RolledBack.{hold, rollback_from_height-hold, rollback_from_height-rows}
use minotari_cli.Ledger.Sound.{IsConsistent}
use minotari_cli.Scan.BlockProcessor.{Processor, account_view_key}
use minotari_cli.Scan.BlockProcessor.Steps.{
  confirmation_loop, finish_block, input_loop, output_loop, process_block, process_confirmations,
  process_inputs, process_output, process_outputs, process_spent, record_scanned_block,
  save_and_emit_displayed_transactions,
}
use minotari_cli.Scan.Blocks.{add_credit_change, add_debit_change, is_empty, new_accumulator}
use minotari_cli.Scan.Coordinator.{LoopState, Monitor, Target, account_step}
use minotari_cli.Scan.Reorg.{ReorgResult, handle_reorgs, rollback_from_height, scan_tips, settle}

abbrev value_or {ℓ} : {A : Type ℓ} → A → Result A → A
value_or a (ok b) = b
value_or a (err e) = a

abbrev processed : Processor × Db
processed = value_or (processor, wallet) (process_block env block 1 processor wallet)

process_block-IsConsistent_example : IsConsistent 1 processed.1
unfolding process_block process_outputs output_loop process_output insert_output insert_wallet_event
    insert_balance_change process_inputs input_loop process_spent insert_input update_output_status
    get_output_info_by_hash_for_account account_view_key record_scanned_block
    insert_scanned_tip_block process_confirmations confirmation_loop get_unconfirmed_outputs
    finish_block save_and_emit_displayed_transactions is_empty trigger_all add_debit_change
    add_credit_change new_accumulator
process_block-IsConsistent_example =
    process_block-IsConsistent 1 env block 1 processor processed.0 wallet processed.1
      wallet-IsConsistent (refl, tt) (refl, tt) refl

rollback_from_height-IsConsistent_example :
    IsConsistent 1 (rollback_from_height 3000 1 10 none wallet).1
rollback_from_height-IsConsistent_example =
    rollback_from_height-IsConsistent 1 3000 1 10 none wallet wallet-IsConsistent

abbrev rolled_back : Db
rolled_back = (rollback_from_height 3000 1 10 none wallet).1

rollback_from_height-rows_example :
    (rolled_back.outputs
      ≡ update_where (output_from_height 1 10) (delete_output 10 3000) wallet.outputs)
    × (rolled_back.inputs
        ≡ update_where (input_from_height 1 10) (delete_input 10 3000) wallet.inputs)
    × (rolled_back.scanned_tip_blocks
        ≡ delete_where (tip_from_height 1 10) wallet.scanned_tip_blocks)
    × (rolled_back.completed_transactions
        ≡ update_where (is_mined_from 1 10) (reverted 3000) wallet.completed_transactions)
    × (rolled_back.next_output_id ≡ 1)
rollback_from_height-rows_example = rollback_from_height-rows 3000 1 10 none wallet

rollback_from_height-hold_example : map hold rolled_back.outputs ≡ map hold wallet.outputs
rollback_from_height-hold_example = rollback_from_height-hold 3000 1 10 none wallet

abbrev no_result : ReorgResult × Db
no_result = (record { resume_height = 0; reorg_information = none }, wallet)

abbrev checked : ReorgResult × Db
checked = value_or no_result (handle_reorgs node 3000 1 none wallet)

handle_reorgs-IsFork_example :
    IsFork node 1 wallet checked.0.resume_height
    × (((checked.0.reorg_information ≡ none) × (checked.1 ≡ wallet))
        ⊎ (checked.1 ≡ (rollback_from_height 3000 1 checked.0.resume_height none wallet).1))
unfolding handle_reorgs get_scanned_tip_blocks_by_account scan_tips settle
handle_reorgs-IsFork_example = handle_reorgs-IsFork node 3000 1 none wallet checked.1 checked.0 refl

abbrev checked_again : ReorgResult × Db
checked_again = value_or no_result (handle_reorgs node 3500 1 none checked.1)

handle_reorgs-stable_example : checked_again.0.resume_height ≡ checked.0.resume_height
unfolding handle_reorgs get_scanned_tip_blocks_by_account scan_tips settle rollback_from_height
    trigger_all reset_mined_completed_transactions_from_height
    save_completed_transaction_payrefs_before_reorg
    mark_displayed_transactions_reorganized_and_return
    save_displayed_transaction_payrefs_before_reorg delete_scanned_tip_blocks_from_height
    soft_delete_outputs_from_height soft_delete_inputs_from_height get_active_outputs_from_height
    insert_wallet_event insert_balance_change mark_original get_balance_change_id_by_output
handle_reorgs-stable_example =
    handle_reorgs-stable node 3000 3500 1 none wallet checked.1 checked_again.1 checked.0
      checked_again.0 refl refl

abbrev targets : List Target
targets = record { account_id = 1; next_block_to_scan = 12; has_pending_outbound = true } ∷ []

abbrev loop_state : LoopState
loop_state = record {
  targets = targets;
  all_events = [];
  handler = record { block_processor = some processor };
  db = wallet;
}

abbrev quiet : Monitor
quiet t h db = ok ([], t, db)

abbrev failing : Monitor
failing t h db = err network

account_step-no_monitor_example :
    account_step env quiet none none (block ∷ []) 1 loop_state
    ≡ account_step env failing none none (block ∷ []) 1 loop_state
account_step-no_monitor_example =
    account_step-no_monitor env quiet failing none none (block ∷ []) 1 loop_state
