-- ===== src/Examples/Display.antt =====
-- Payments and the inputs that may have made them.
use minotari_cli.Base.{
  All, AreOwn, OnOk, [], arith, if◌then◌else◌, none, refl, some, true, ℕ, ◌<◌, ◌==◌, ◌∷◌, ◌≡◌,
}
use minotari_cli.Displayed.Balanced.{
  ShowsNew, create_new_updated_display_transactions-Shows, is_hash,
}
use minotari_cli.Displayed.Choices.{IsPayment, backtrack_subset-IsPayment}
use minotari_cli.Displayed.Measures.{hashes, totals}
use minotari_cli.Displayed.Processor.{create_new_updated_display_transactions}
use minotari_cli.Displayed.Solutions.{all_used, solve_back_track-AreOwn}
use minotari_cli.Displayed.Subset.{backtrack_subset, look_up, solve_back_track}
use minotari_cli.Displayed.Total.{is_ok}
use minotari_cli.Displayed.Transactions.{DisplayedTransactionProcessor}
use minotari_cli.Examples.Wallets.{env, first_credit, wallet_output}
use minotari_cli.Models.{BalanceChange}
use minotari_cli.Scan.Blocks.{BlockEventAccumulator}

backtrack_subset-IsPayment_example :
    IsPayment
      (0 ∷ 1 ∷ 2 ∷ [])
      (3 ∷ 5 ∷ 7 ∷ [])
      ((0, 3) ∷ (1, 5) ∷ (2, 7) ∷ [])
      10
      (backtrack_subset (0 ∷ 1 ∷ 2 ∷ []) (3 ∷ 5 ∷ 7 ∷ []) 10)
unfolding look_up
backtrack_subset-IsPayment_example =
    backtrack_subset-IsPayment (0 ∷ 1 ∷ 2 ∷ []) (3 ∷ 5 ∷ 7 ∷ []) ((0, 3) ∷ (1, 5) ∷ (2, 7) ∷ []) 10
      (refl, (refl, (refl, tt))) refl

-- 8 is paid with 3 and 5, and 7 with itself
solve_back_track-AreOwn_example :
    let used = all_used (solve_back_track (5 ∷ 3 ∷ 7 ∷ []) ((8, 0) ∷ (7, 1) ∷ [])) in
    AreOwn (λ i. i) used × All (λ i. i < 3) used
solve_back_track-AreOwn_example = solve_back_track-AreOwn (5 ∷ 3 ∷ 7 ∷ []) ((8, 0) ∷ (7, 1) ∷ [])

abbrev display : DisplayedTransactionProcessor
display = record {
  current_tip_height = 20;
  req_confirmations = 3;
  view_key = 5;
  ext = env.ext;
  get_transaction_info_details = λ o. if o.value == 20 then some (9, 25) else none;
  get_sent_hashes = λ o. [];
  coinbase_extra = λ o. 0;
}

abbrev changed : ℕ → ℕ → BalanceChange
changed credit debit = record (first_credit.change) {
  balance_credit = credit;
  balance_debit = debit;
}

-- a block in which the wallet spends 50 and 45, and gets 20 as the change of a payment of 25
abbrev spending : BlockEventAccumulator
spending = record {
  account_id = 1;
  height = 18;
  block_hash = 118;
  debit_balance_changes =
      (
        changed 0 50,
        record {
          mined_in_block = 118;
          mined_in_block_height = 18;
          output_id = 0;
          output = wallet_output 50 7;
        },
      )
      ∷ (
        changed 0 45,
        record {
          mined_in_block = 118;
          mined_in_block_height = 18;
          output_id = 1;
          output = wallet_output 45 8;
        },
      )
      ∷ [];
  credit_balance_changes =
      (changed 20 0, record { height = 18; mined_in_block_hash = 118; output = wallet_output 20 9 })
      ∷ [];
}

create_new_updated_display_transactions-Shows_example :
    let made = create_new_updated_display_transactions display spending [] in
    (is_ok made ≡ true)
    × OnOk
        (λ r.
          ShowsNew spending [] totals r.1
          × ((h : ℕ) → ShowsNew spending [] (hashes (is_hash h)) r.1))
        made
create_new_updated_display_transactions-Shows_example =
    create_new_updated_display_transactions-Shows display spending [] (refl, (refl, tt))
      (omega arith, tt)
