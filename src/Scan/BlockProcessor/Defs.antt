-- ===== src/Scan/BlockProcessor/Defs.antt =====
-- The state of the block processor, and the rows and events that it builds for an output.
use minotari_cli.Base.{
  Bool, List, Option, Result, [], false, if◌then◌else◌, invalid_input, map, none, or_fail, some,
  suc, zero, ℕ, ◌==◌, ◌∷◌,
}
use minotari_cli.Db.Outputs.{External}
use minotari_cli.Db.Tables.{WalletOutput}
use minotari_cli.Db.Webhooks.{WebhookTriggerConfig}
use minotari_cli.Models.{
  BalanceChange, DisplayedTransaction, WalletEvent, coinbase_found, output_confirmed,
  output_detected, output_found, output_spent,
}
use minotari_cli.Scan.Blocks.{BlockEventAccumulator, BlockProcessedEvent, BlockScanResult}

-- the `ProcessingEvent`s that the processor sends
pub data ProcessingEvent : Type 0 where
  block_processed : BlockProcessedEvent → ProcessingEvent
  transactions_ready : ℕ → List DisplayedTransaction → ℕ → ProcessingEvent

pub record Processor : Type 0 where
  pub wallet_index_to_account_id : List ℕ
  pub account_view_keys : List (ℕ × ℕ)
  pub wallet_events : List WalletEvent
  pub sent : List ProcessingEvent
  pub current_block : Option BlockEventAccumulator
  pub current_tip_height : ℕ
  pub has_pending_outbound : Bool
  pub required_confirmations : ℕ
  pub webhook_config : Option WebhookTriggerConfig

-- `build_account_mappings` and `with_event_sender`. A later key of an account replaces an earlier
-- one, so the pairs are looked up from the end.
unfoldable with_event_sender : List (ℕ × ℕ) → Bool → ℕ → Processor
with_event_sender accounts pending_outbound confirmations = record {
  wallet_index_to_account_id = map (λ a. a.0) accounts;
  account_view_keys = accounts;
  wallet_events = [];
  sent = [];
  current_block = none;
  current_tip_height = 0;
  has_pending_outbound = pending_outbound;
  required_confirmations = confirmations;
  webhook_config = none;
}

abbrev last_key : ℕ → List (ℕ × ℕ) → Option ℕ
last_key account [] = none
last_key account ((a, k) ∷ rest) =
    let later = last_key account rest in
    elim later [ some j ↦ some j | none ↦ if a == account then some k else none ]

unfoldable pub account_view_key : ℕ → Processor → Result ℕ
account_view_key account p = or_fail (last_key account p.account_view_keys) invalid_input

unfoldable pub set_has_pending_outbound : Bool → Processor → Processor
set_has_pending_outbound v p = record p { has_pending_outbound = v }

unfoldable pub set_webhook_config : Option WebhookTriggerConfig → Processor → Processor
set_webhook_config c p = record p { webhook_config = c }

unfoldable pub take_wallet_events : Processor → List WalletEvent × Processor
take_wallet_events p = (p.wallet_events, record p { wallet_events = [] })

abbrev pub get_elem? {ℓ} : {A : Type ℓ} → List A → ℕ → Option A
get_elem? [] i = none
get_elem? (x ∷ xs) zero = some x
get_elem? (x ∷ xs) (suc i) = get_elem? xs i

-- `MemoInfo::from_output`: the memo as text and as hex, nothing for an empty memo.
pub record MemoInfo : Type 0 where
  pub parsed : Option ℕ
  pub hex : Option ℕ

unfoldable pub memo_from_output : WalletOutput → MemoInfo
memo_from_output o =
    if o.memo_is_empty
    then record { parsed = none; hex = none }
    else record { parsed = some o.memo_text; hex = some o.memo_hex }

unfoldable pub output_detected_event : ℕ → ℕ → BlockScanResult → MemoInfo → WalletEvent
output_detected_event account hash block memo = record {
  id = 0;
  account_id = account;
  event_type = output_detected hash block.height block.block_hash memo.parsed memo.hex;
}

unfoldable pub confirmation_event : ℕ → ℕ → ℕ → ℕ → Option ℕ → Option ℕ → WalletEvent
confirmation_event account hash original_height confirmation_height memo_parsed memo_hex = record {
  id = 0;
  account_id = account;
  event_type = output_confirmed hash original_height confirmation_height memo_parsed memo_hex;
}

abbrev or_now : Option ℕ → ℕ → ℕ
or_now none now = now
or_now (some t) now = t

-- `make_balance_change_for_output`: a coinbase names no addresses.
unfoldable pub make_balance_change_for_output :
    External → ℕ → ℕ → ℕ → ℕ → ℕ → WalletOutput → BalanceChange
make_balance_change_for_output ext now account output_id timestamp height o = record {
  account_id = account;
  caused_by_output_id = some output_id;
  caused_by_input_id = none;
  description = if o.is_coinbase then coinbase_found else output_found;
  balance_credit = o.value;
  balance_debit = 0;
  effective_date = or_now (ext.from_timestamp timestamp) now;
  effective_height = height;
  claimed_recipient_address = if o.is_coinbase then none else o.recipient;
  claimed_sender_address = if o.is_coinbase then none else o.sender;
  memo_parsed = some o.memo_text;
  memo_hex = some o.memo_hex;
  claimed_fee = o.fee;
  claimed_amount = o.amount;
  is_reversal = false;
  reversal_of_balance_change_id = none;
  is_reversed = false;
}

-- the change of `record_input_balance_change`
unfoldable pub make_balance_change_for_input :
    External → ℕ → ℕ → ℕ → ℕ → BlockScanResult → BalanceChange
make_balance_change_for_input ext now account input_id value block = record {
  account_id = account;
  caused_by_output_id = none;
  caused_by_input_id = some input_id;
  description = output_spent;
  balance_credit = 0;
  balance_debit = value;
  effective_date = or_now (ext.from_timestamp block.mined_timestamp) now;
  effective_height = block.height;
  claimed_recipient_address = none;
  claimed_sender_address = none;
  memo_parsed = none;
  memo_hex = none;
  claimed_fee = none;
  claimed_amount = none;
  is_reversal = false;
  reversal_of_balance_change_id = none;
  is_reversed = false;
}
