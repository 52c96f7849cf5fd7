-- ===== src/Scan/BlockProcessor/Steps.antt =====
-- The steps of `process_block`, on the processor and the database.
use mathlib.Core.Option
use minotari_cli.Base.{List, Result, [], false, is_value, none, ok, some, true, ℕ, ◌++◌, ◌>>=◌, ◌∷◌}
use minotari_cli.Db.BalanceChanges.{insert_balance_change}
use minotari_cli.Db.DisplayedTransactions.{
  insert_displayed_transaction, update_displayed_transaction_mined,
}
use minotari_cli.Db.Events.{insert_wallet_event}
use minotari_cli.Db.Inputs.{insert_input}
use minotari_cli.Db.Outputs.{
  External, get_output_info_by_hash_for_account, get_unconfirmed_outputs, insert_output,
  mark_output_confirmed, update_output_status,
}
use minotari_cli.Db.ScannedTipBlocks.{insert_scanned_tip_block}
use minotari_cli.Db.Tables.{Db, OutputRow, WalletOutput}
use minotari_cli.Db.Webhooks.{trigger_all}
use minotari_cli.Models.{DisplayedTransaction, WalletEvent}
use minotari_cli.Models.OutputStatus.{OutputStatus}
use minotari_cli.Scan.BlockProcessor.{
  Processor, account_view_key, block_processed, confirmation_event, get_elem?,
  make_balance_change_for_input, make_balance_change_for_output, memo_from_output,
  output_detected_event, transactions_ready,
}
use minotari_cli.Scan.Blocks.{
  BlockEventAccumulator, BlockScanResult, add_credit_change, add_debit_change, into_event, is_empty,
  new_accumulator,
}

-- The environment of the processor: other crates, the clock, and the displayed transactions of a
-- block, those to update and those that are new.
pub record Env : Type 0 where
  pub ext : External
  pub now : ℕ
  pub displayed :
      Processor
      → BlockEventAccumulator
      → Db
      → Result (List DisplayedTransaction × List DisplayedTransaction)

-- `if let Some(ref mut acc) = self.current_block`
abbrev on_block : (BlockEventAccumulator → BlockEventAccumulator) → Processor → Processor
on_block f p = record p { current_block = Option.map f p.current_block }

-- one output that belongs to the account
unfoldable pub process_output :
    Env
    → BlockScanResult
    → ℕ
    → ℕ
    → ℕ
    → WalletOutput
    → Processor
    → Db
    → Result ((ℕ × WalletEvent) × Processor × Db)
process_output env block account view_key hash o p db = do
  let memo = memo_from_output o
  let event = output_detected_event account hash block memo
  let payref = env.ext.generate_payment_reference block.block_hash hash
  (output_id, db₁) ←
      insert_output env.ext account view_key hash o block.height block.block_hash
        block.mined_timestamp memo.parsed memo.hex payref o.is_burned db
  let (event_id, db₂) = insert_wallet_event account event db₁
  let change =
      make_balance_change_for_output env.ext env.now account output_id block.mined_timestamp
        block.height o
  let (_, db₃) = insert_balance_change change db₂
  let p' =
      on_block
        (add_credit_change change
          (record { height = block.height; mined_in_block_hash = block.block_hash; output = o }))
        (record p { wallet_events = p.wallet_events ++ event ∷ [] })
  ok ((event_id, event), p', db₃)

-- The loop: an output of another account, or of no known one, is skipped.
unfoldable pub output_loop :
    Env
    → BlockScanResult
    → ℕ
    → ℕ
    → List (ℕ × WalletOutput × ℕ)
    → Processor
    → Db
    → Result (List (ℕ × WalletEvent) × Processor × Db)
output_loop env block account view_key [] p db = ok ([], p, db)
output_loop env block account view_key ((hash, o, idx) ∷ outs) p db =
    elim (is_value (get_elem? p.wallet_index_to_account_id idx) account) [
      | false ↦ output_loop env block account view_key outs p db
      | true ↦ process_output env block account view_key hash o p db >>= λ r.
          output_loop env block account view_key outs r.1 r.2 >>= λ s. ok (r.0 ∷ s.0, s.1, s.2)
    ]

unfoldable pub process_outputs :
    Env → BlockScanResult → ℕ → ℕ → Processor → Db → Result (Processor × Db)
unfolding output_loop
process_outputs env block account view_key p db =
    output_loop env block account view_key block.wallet_outputs p db >>= λ r.
    ok (r.1, trigger_all account p.webhook_config r.0 r.2)

-- one input that spends an output of the account
unfoldable pub process_spent :
    Env → BlockScanResult → ℕ → ℕ → WalletOutput → Processor → Db → Result (Processor × Db)
process_spent env block account output_id o p db = do
  (input_id, db₁) ←
      insert_input env.ext.from_timestamp account output_id block.height block.block_hash
        block.mined_timestamp db
  let change = make_balance_change_for_input env.ext env.now account input_id o.value block
  let (_, db₂) = insert_balance_change change db₁
  let db₃ = update_output_status output_id OutputStatus.spent db₂
  ok (
    on_block
        (add_debit_change change (record {
          mined_in_block = block.block_hash;
          mined_in_block_height = block.height;
          output_id = output_id;
          output = o;
        }))
        p,
    db₃,
  )

unfoldable pub input_loop :
    Env → BlockScanResult → ℕ → List ℕ → Processor → Db → Result (Processor × Db)
input_loop env block account [] p db = ok (p, db)
input_loop env block account (hash ∷ hashes) p db =
    elim (get_output_info_by_hash_for_account account hash db) [
      | none ↦ input_loop env block account hashes p db
      | some (output_id, _, o) ↦ process_spent env block account output_id o p db >>= λ r.
          input_loop env block account hashes r.0 r.1
    ]

unfoldable pub process_inputs : Env → BlockScanResult → ℕ → Processor → Db → Result (Processor × Db)
unfolding input_loop
process_inputs env block account p db = input_loop env block account block.inputs p db

unfoldable pub record_scanned_block : BlockScanResult → ℕ → Db → Db
record_scanned_block block account db =
    insert_scanned_tip_block account block.height block.block_hash db

-- The loop over the outputs that have matured. A burn output only adds a line to the log.
unfoldable pub confirmation_loop :
    BlockScanResult → ℕ → List OutputRow → Processor → Db → List (ℕ × WalletEvent) × Processor × Db
confirmation_loop block account [] p db = ([], p, db)
confirmation_loop block account (o ∷ os) p db =
    let event =
      confirmation_event account o.output_hash o.mined_in_block_height block.height o.memo_parsed
        o.memo_hex in
    let (event_id, db₁) = insert_wallet_event account event db in
    let db₂ = mark_output_confirmed o.output_hash block.height block.block_hash db₁ in
    let (events, p', db') =
      confirmation_loop block account os
        (record p { wallet_events = p.wallet_events ++ event ∷ [] }) db₂ in
    ((event_id, event) ∷ events, p', db')

unfoldable pub process_confirmations : BlockScanResult → ℕ → Processor → Db → Processor × Db
unfolding confirmation_loop
process_confirmations block account p db =
    let os = get_unconfirmed_outputs account block.height p.required_confirmations db in
    let (events, p', db') = confirmation_loop block account os p db in
    (p', trigger_all account p.webhook_config events db')

unfoldable pub update_all_mined : List DisplayedTransaction → Db → Db
update_all_mined [] db = db
update_all_mined (t ∷ ts) db = update_all_mined ts (update_displayed_transaction_mined t db).1

unfoldable pub insert_all_displayed : List DisplayedTransaction → Db → Db
insert_all_displayed [] db = db
insert_all_displayed (t ∷ ts) db = insert_all_displayed ts (insert_displayed_transaction t db)

unfoldable pub save_and_emit_displayed_transactions :
    Env → ℕ → ℕ → BlockEventAccumulator → Processor → Db → Result (Processor × Db)
unfolding update_all_mined insert_all_displayed
save_and_emit_displayed_transactions env height account acc p db = elim (is_empty acc) [
  | true ↦ ok (p, db)
  | false ↦ env.displayed p acc db >>= λ r. ok (
    record p { sent = p.sent ++ transactions_ready account (r.0 ++ r.1) height ∷ [] },
    insert_all_displayed r.1 (update_all_mined r.0 db),
  )
]

-- what follows the four passes: the accumulator is taken, saved if it holds anything, and sent
unfoldable pub finish_block : Env → BlockScanResult → ℕ → Processor → Db → Result (Processor × Db)
unfolding save_and_emit_displayed_transactions
finish_block env block account p db = elim p.current_block [
  | none ↦ ok (p, db)
  | some acc ↦
      save_and_emit_displayed_transactions env block.height account acc
        (record p { current_block = none }) db
      >>= λ r. ok (record (r.0) { sent = r.0.sent ++ block_processed (into_event acc) ∷ [] }, r.1)
]

unfoldable pub process_block : Env → BlockScanResult → ℕ → Processor → Db → Result (Processor × Db)
process_block env block account p db = do
  view_key ← account_view_key account p
  let p₀ : Processor = record p {
    current_tip_height = block.height;
    current_block = some (new_accumulator account block.height block.block_hash);
  }
  (p₁, db₁) ← process_outputs env block account view_key p₀ db
  (p₂, db₂) ← process_inputs env block account p₁ db₁
  let db₃ = record_scanned_block block account db₂
  let (p₃, db₄) = process_confirmations block account p₂ db₃
  finish_block env block account p₃ db₄
