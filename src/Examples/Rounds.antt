-- ===== src/Examples/Rounds.antt =====
-- The theorems on rounds, confirmations, the reported balance and repeated inputs, applied.
use minotari_cli.Base.{
  List, [], any, arith, err, false, length, none, ok, refl, sum, some, ℕ, ◌++◌, ◌+◌, ◌-◌, ◌<◌, ◌∷◌,
  ◌≡◌, ◌≤◌,
}
use minotari_cli.Chain.Rounds.{end_height-horizon, push_events_with_limit-newest}
use minotari_cli.Db.Balance.{get_balance}
use minotari_cli.Db.BalanceChanges.{insert_balance_change}
use minotari_cli.Db.Events.{insert_wallet_event}
use minotari_cli.Db.Inputs.{insert_input}
use minotari_cli.Db.Outputs.{
  get_output_info_by_hash_for_account, get_unconfirmed_outputs, insert_output, is_unconfirmed_at,
  update_output_status,
}
use minotari_cli.Db.ScannedTipBlocks.{insert_scanned_tip_block}
use minotari_cli.Db.Tables.{Db}
use minotari_cli.Db.Webhooks.{trigger_all}
use minotari_cli.Examples.Wallets.{block, env, processor, wallet}
use minotari_cli.Ledger.Again.{process_inputs-again, value_named}
use minotari_cli.Ledger.Confirm.{process_confirmations_complete}
use minotari_cli.Ledger.Totals.{debits, received, spent_value}
use minotari_cli.Scan.BlockProcessor.{Processor, account_view_key}
use minotari_cli.Scan.BlockProcessor.Steps.{
  confirmation_loop, finish_block, input_loop, output_loop, process_block, process_confirmations,
  process_inputs, process_output, process_outputs, process_spent, record_scanned_block,
  save_and_emit_displayed_transactions,
}
use minotari_cli.Scan.Blocks.{BlockScanResult, add_credit_change, is_empty, new_accumulator}
use minotari_cli.Scan.Coordinator.{
  Target, effective_batch_size, end_height, global_next_block, partial, push_events_with_limit,
}
use minotari_cli.Wallet.Reachable.{after, start, Reachable-get_balance, initial, scans}

process_confirmations_complete_example :
    any (is_unconfirmed_at 1 9) (process_confirmations block 1 processor wallet).1.outputs ≡ false
process_confirmations_complete_example = process_confirmations_complete block 1 processor wallet

abbrev at_height : ℕ → ℕ → Target
at_height account h = record {
  account_id = account;
  next_block_to_scan = h;
  has_pending_outbound = false;
}

-- one account at 10, one waiting at 30
abbrev two_accounts : List Target
two_accounts = at_height 1 10 ∷ at_height 2 30 ∷ []

end_height-horizon_example :
    ((e : ℕ) × (end_height (partial 500) 0 two_accounts ≡ some e) × (e < 30))
    × (global_next_block two_accounts + effective_batch_size 100 two_accounts ≤ 30)
unfolding global_next_block
end_height-horizon_example =
    end_height-horizon (partial 500) 0 100 30 two_accounts refl (omega arith)

abbrev seen : List ℕ
seen = 1 ∷ 2 ∷ []

abbrev more : List ℕ
more = 3 ∷ []

push_events_with_limit-newest_example :
    (length (push_events_with_limit seen more (some 2)) ≡ 2)
    × ((old : List ℕ) × (old ++ push_events_with_limit seen more (some 2) ≡ seen ++ more))
push_events_with_limit-newest_example = push_events_with_limit-newest seen more 2

-- the first block pays 20 to the account
abbrev first_block : BlockScanResult
first_block = record block { inputs = [] }

abbrev first_outcome : Processor × Db
first_outcome = elim (process_block env first_block 1 processor initial) [
  | ok r ↦ r
  | err e ↦ (processor, initial)
]

Reachable-get_balance_example :
    (get_balance 1 first_outcome.1).total
    ≡ received 1 first_outcome.1.outputs
      - spent_value 1 first_outcome.1.outputs first_outcome.1.inputs
unfolding process_block process_outputs output_loop process_output insert_output insert_wallet_event
    insert_balance_change process_inputs input_loop account_view_key record_scanned_block
    insert_scanned_tip_block process_confirmations confirmation_loop get_unconfirmed_outputs
    finish_block save_and_emit_displayed_transactions is_empty trigger_all add_credit_change
    new_accumulator
Reachable-get_balance_example = Reachable-get_balance 1 first_outcome.1 (
    after initial first_outcome.1 start
      (scans env first_block 1 processor first_outcome.0 initial first_outcome.1 tt tt refl))

-- the wallet after its first output was spent by the block at height 12, and that block again
abbrev spent_wallet : Db
spent_wallet = record wallet {
  inputs =
      record {
        id = 0;
        account_id = 1;
        output_id = 0;
        mined_in_block_hash = 112;
        mined_in_block_height = 12;
        mined_timestamp = 1200;
        deleted_at = none;
        deleted_in_block_height = none;
      }
      ∷ [];
}

abbrev spending_block : BlockScanResult
spending_block = record block { wallet_outputs = [] }

abbrev again_outcome : Processor × Db
again_outcome = elim (process_inputs env spending_block 1 processor spent_wallet) [
  | ok r ↦ r
  | err e ↦ (processor, spent_wallet)
]

process_inputs-again_example :
    (again_outcome.1.inputs ≡ spent_wallet.inputs)
    × (debits 1 again_outcome.1.balance_changes
        ≡ debits 1 spent_wallet.balance_changes + sum (value_named 1 spent_wallet) (7 ∷ []))
unfolding process_inputs input_loop get_output_info_by_hash_for_account process_spent insert_input
    insert_balance_change update_output_status
process_inputs-again_example =
    process_inputs-again env spending_block 1 processor again_outcome.0 spent_wallet again_outcome.1
      (refl, tt) refl

named : value_named 1 spent_wallet 7 ≡ 50
unfolding get_output_info_by_hash_for_account
named = refl
