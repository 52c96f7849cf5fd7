-- ===== src/Scan/Blocks.antt =====
-- What a scanner hands over (`BlockScanResult` of minotari-scanning/src/scanning/mod.rs), and what
-- is gathered of one block (scan/block_event_accumulator.rs, with the types of scan/events.rs).
use minotari_cli.Base.{Bool, List, [], false, length, map, true, ℕ, ◌&&◌, ◌++◌, ◌+◌, ◌∷◌}
use minotari_cli.Db.Tables.{WalletOutput}
use minotari_cli.Models.{BalanceChange, Description}

-- a wallet output comes with its hash and the index of the key that recovered it
pub record BlockScanResult : Type 0 where
  pub height : ℕ
  pub block_hash : ℕ
  pub wallet_outputs : List (ℕ × WalletOutput × ℕ)
  pub inputs : List ℕ
  pub mined_timestamp : ℕ

pub record DetectedOutput : Type 0 where
  pub height : ℕ
  pub mined_in_block_hash : ℕ
  pub output : WalletOutput

pub record SpentInput : Type 0 where
  pub mined_in_block : ℕ
  pub mined_in_block_height : ℕ
  pub output_id : ℕ
  pub output : WalletOutput

pub record BalanceChangeSummary : Type 0 where
  pub credit : ℕ
  pub debit : ℕ
  pub description : Description

pub record BlockProcessedEvent : Type 0 where
  pub account_id : ℕ
  pub height : ℕ
  pub block_hash : ℕ
  pub outputs_detected : List DetectedOutput
  pub inputs_spent : List SpentInput
  pub balance_changes : List BalanceChangeSummary

pub record BlockEventAccumulator : Type 0 where
  pub account_id : ℕ
  pub height : ℕ
  pub block_hash : ℕ
  pub debit_balance_changes : List (BalanceChange × SpentInput)
  pub credit_balance_changes : List (BalanceChange × DetectedOutput)

-- `BlockEventAccumulator::new`
unfoldable pub new_accumulator : ℕ → ℕ → ℕ → BlockEventAccumulator
new_accumulator account height block_hash = record {
  account_id = account;
  height = height;
  block_hash = block_hash;
  debit_balance_changes = [];
  credit_balance_changes = [];
}

unfoldable pub add_debit_change :
    BalanceChange → SpentInput → BlockEventAccumulator → BlockEventAccumulator
add_debit_change change input acc = record acc {
  debit_balance_changes = acc.debit_balance_changes ++ (change, input) ∷ [];
}

unfoldable pub add_credit_change :
    BalanceChange → DetectedOutput → BlockEventAccumulator → BlockEventAccumulator
add_credit_change change output acc = record acc {
  credit_balance_changes = acc.credit_balance_changes ++ (change, output) ∷ [];
}

unfoldable total_changes : BlockEventAccumulator → ℕ
total_changes acc = length acc.debit_balance_changes + length acc.credit_balance_changes

abbrev is_nil {ℓ} : {A : Type ℓ} → List A → Bool
is_nil [] = true
is_nil (_ ∷ _) = false

unfoldable pub is_empty : BlockEventAccumulator → Bool
is_empty acc = is_nil acc.debit_balance_changes && is_nil acc.credit_balance_changes

abbrev summary : BalanceChange → BalanceChangeSummary
summary c = record {
  credit = c.balance_credit;
  debit = c.balance_debit;
  description = c.description;
}

unfoldable pub into_event : BlockEventAccumulator → BlockProcessedEvent
into_event acc = record {
  account_id = acc.account_id;
  height = acc.height;
  block_hash = acc.block_hash;
  outputs_detected = map (λ c. c.1) acc.credit_balance_changes;
  inputs_spent = map (λ c. c.1) acc.debit_balance_changes;
  balance_changes =
      map (λ c. summary c.0) acc.credit_balance_changes
      ++ map (λ c. summary c.0) acc.debit_balance_changes;
}
