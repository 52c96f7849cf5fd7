-- ===== src/Funds/Selector.antt =====
-- transactions/input_selector.rs: which outputs a transaction spends. The fees and the
-- branch-and-bound search come from tari_transaction_components.
use minotari_cli.Base.{
  Bool, List, Option, Result, err, funds_pending, if◌then◌else◌, insufficient_funds, leb, none, ok,
  or_fail, some, ℕ, ◌&&◌, ◌+◌, ◌-◌, ◌>>=◌,
}
use minotari_cli.Db.Outputs.{
  DbWalletOutput, fetch_unspent_outputs, get_output_totals_for_account, get_total_unspent_balance,
}
use minotari_cli.Db.ScannedTipBlocks.{get_latest_scanned_tip_block_by_account}
use minotari_cli.Db.Tables.{Db}

-- `Fee::calculate` at the weights in force: fee per gram, kernels, inputs, outputs, bytes of
-- features and scripts.
abbrev FeeCalc : Type 0
FeeCalc = ℕ → ℕ → ℕ → ℕ → ℕ → ℕ

-- the result of the search
pub record BnbSelection : Type 0 where
  pub current_value : ℕ
  pub has_change : Bool
  pub final_fee : ℕ
  pub selected_utxos : List DbWalletOutput

-- what the builder is given
pub record BnbRequest : Type 0 where
  pub utxos : List DbWalletOutput
  pub target_amount : ℕ
  pub fee_per_input : ℕ
  pub total_output_fee : ℕ
  pub change_fee : ℕ

-- The services of other crates: fees, `build()` with `search()`, and
-- `get_default_features_and_scripts_size`, which may fail to serialise.
pub record Wallet : Type 0 where
  pub calculate : FeeCalc
  pub search : BnbRequest → Result (Option BnbSelection)
  pub default_size : Result ℕ

pub record UtxoSelection : Type 0 where
  pub utxos : List DbWalletOutput
  pub requires_change_output : Bool
  pub total_value : ℕ
  pub fee_without_change : ℕ
  pub fee_with_change : ℕ

-- `UtxoSelection::fee`
unfoldable pub fee : UtxoSelection → ℕ
fee s = if s.requires_change_output then s.fee_with_change else s.fee_without_change

-- `InputSelector`
pub record InputSelector : Type 0 where
  pub account_id : ℕ
  pub confirmation_window : ℕ

-- The lowest block that is deep enough: an output is spendable at this height or below.
unfoldable min_spend_height : InputSelector → Db → ℕ
min_spend_height sel db = elim (get_latest_scanned_tip_block_by_account sel.account_id db) [
  | none ↦ 0 - sel.confirmation_window
  | some b ↦ b.height - sel.confirmation_window
]

-- The branch on funds that are there but locked.
unfoldable check_pending : ℕ → ℕ → ℕ → Result (Unit {0})
check_pending available locked_amount amount =
    if leb available amount && leb amount (available + locked_amount)
    then err (funds_pending available locked_amount amount)
    else ok tt

unfoldable pub selection_of : ℕ → ℕ → BnbSelection → UtxoSelection
selection_of kernel_fee default_output_fee s =
    let final_fee : ℕ = s.final_fee + kernel_fee in
    record {
      utxos = s.selected_utxos;
      requires_change_output = s.has_change;
      total_value = s.current_value;
      fee_without_change = if s.has_change then final_fee - default_output_fee else final_fee;
      fee_with_change = if s.has_change then final_fee else final_fee + default_output_fee;
    }

abbrev size_or_default : Wallet → Option ℕ → Result ℕ
size_or_default w none = w.default_size
size_or_default w (some sz) = ok sz

unfoldable pub fetch_unspent :
    Wallet → InputSelector → ℕ → ℕ → ℕ → Option ℕ → Db → Result UtxoSelection
unfolding check_pending selection_of min_spend_height
fetch_unspent w sel amount num_outputs fee_per_gram output_size db = do
  let (locked_amount, _, _) = get_output_totals_for_account sel.account_id db
  let available = get_total_unspent_balance sel.account_id db
  _ ← check_pending available locked_amount amount
  let uo = fetch_unspent_outputs sel.account_id (min_spend_height sel db) db
  size ← size_or_default w output_size
  let kernel_fee = w.calculate fee_per_gram 1 0 0 0
  let default_output_fee = w.calculate fee_per_gram 0 0 1 size
  let request : BnbRequest = record {
    utxos = uo;
    target_amount = amount + kernel_fee;
    fee_per_input = w.calculate fee_per_gram 0 1 0 0;
    total_output_fee = w.calculate fee_per_gram 0 0 num_outputs size;
    change_fee = default_output_fee;
  }
  found ← w.search request
  selection ← or_fail found (insufficient_funds available (amount + 1))
  ok (selection_of kernel_fee default_output_fee selection)
