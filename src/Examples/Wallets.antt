-- ===== src/Examples/Wallets.antt =====
-- A small wallet: account 1 has one output, spendable, mined at height 10, and three scanned blocks.
use minotari_cli.Base.{
  Option, Result, [], arith, false, if◌then◌else◌, leb, none, ok, refl, some, true, ℕ, ◌+◌, ◌∷◌,
}
use minotari_cli.Db.Outputs.{DbWalletOutput, External}
use minotari_cli.Db.Tables.{BalanceChangeRow, Db, OutputRow, ScannedTipBlock, WalletOutput}
use minotari_cli.Ledger.Sound.{IsConsistent}
use minotari_cli.Models.{output_found}
use minotari_cli.Models.OutputStatus.{OutputStatus}
use minotari_cli.Scan.BlockProcessor.{Processor}
use minotari_cli.Scan.BlockProcessor.Steps.{Env}
use minotari_cli.Scan.Blocks.{BlockScanResult}

abbrev pub wallet_output : ℕ → ℕ → WalletOutput
wallet_output value hash = record {
  value = value;
  output_hash = hash;
  is_coinbase = false;
  is_burned = false;
  memo_is_empty = true;
  memo_text = 0;
  memo_hex = 0;
  fee = none;
  amount = none;
  recipient = none;
  sender = none;
}

abbrev pub first_output : OutputRow
first_output = record {
  id = 0;
  account_id = 1;
  tx_id = 7;
  output_hash = 7;
  mined_in_block_hash = 110;
  mined_in_block_height = 10;
  value = 50;
  wallet_output = wallet_output 50 7;
  mined_timestamp = 1000;
  confirmed_height = none;
  confirmed_hash = none;
  memo_parsed = none;
  memo_hex = none;
  status = OutputStatus.unspent;
  locked_at = none;
  locked_by_request_id = none;
  deleted_at = none;
  deleted_in_block_height = none;
  payment_reference = some 3;
  is_burn = false;
}

abbrev pub first_credit : BalanceChangeRow
first_credit = record {
  id = 0;
  change = record {
    account_id = 1;
    caused_by_output_id = some 0;
    caused_by_input_id = none;
    description = output_found;
    balance_credit = 50;
    balance_debit = 0;
    effective_date = 1000;
    effective_height = 10;
    claimed_recipient_address = none;
    claimed_sender_address = none;
    memo_parsed = none;
    memo_hex = none;
    claimed_fee = none;
    claimed_amount = none;
    is_reversal = false;
    reversal_of_balance_change_id = none;
    is_reversed = false;
  };
}

abbrev tip : ℕ → ScannedTipBlock
tip n = record { id = n; account_id = 1; height = n; hash = 100 + n }

abbrev empty_wallet : Db
empty_wallet = record {
  outputs = [];
  next_output_id = 0;
  inputs = [];
  next_input_id = 0;
  balance_changes = [];
  next_balance_change_id = 0;
  pending_transactions = [];
  completed_transactions = [];
  scanned_tip_blocks = [];
  next_tip_block_id = 0;
  events = [];
  next_event_id = 0;
  displayed_transactions = [];
  payref_history = [];
  next_payref_id = 0;
  webhook_queue = [];
  next_webhook_id = 0;
}

abbrev pub wallet : Db
wallet = record empty_wallet {
  outputs = first_output ∷ [];
  next_output_id = 1;
  balance_changes = first_credit ∷ [];
  next_balance_change_id = 1;
  scanned_tip_blocks = tip 9 ∷ tip 10 ∷ tip 11 ∷ [];
  next_tip_block_id = 12;
}

pub wallet-IsConsistent : IsConsistent 1 wallet
wallet-IsConsistent = record { sound = ((omega arith, refl, refl, tt), tt); balanced = refl }

abbrev external : External
external = record {
  new_deterministic = λ key hash. hash;
  generate_payment_reference = λ block hash. block + hash;
  from_timestamp = λ t. some t;
}

abbrev pub env : Env
env = record { ext = external; now = 2000; displayed = λ p acc db. ok ([], []) }

-- a block that pays 20 to the account and spends its first output
abbrev pub block : BlockScanResult
block = record {
  height = 12;
  block_hash = 112;
  wallet_outputs = (8, wallet_output 20 8, 0) ∷ [];
  inputs = 7 ∷ [];
  mined_timestamp = 1200;
}

abbrev pub processor : Processor
processor = record {
  wallet_index_to_account_id = 1 ∷ [];
  account_view_keys = (1, 5) ∷ [];
  wallet_events = [];
  sent = [];
  current_block = none;
  current_tip_height = 0;
  has_pending_outbound = false;
  required_confirmations = 3;
  webhook_config = none;
}

-- a node that has the blocks of the wallet up to height 9 only
abbrev pub node : ℕ → Result (Option ℕ)
node h = ok (if leb h 9 then some (100 + h) else none)

abbrev pub first_locks : DbWalletOutput
first_locks = record { id = 0; tx_id = 7; output = wallet_output 50 7 }
