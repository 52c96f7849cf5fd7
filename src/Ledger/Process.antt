-- ===== src/Ledger/Process.antt =====
-- process_block of minotari/src/scan/block_processor.rs, seen from the ledger.
use minotari_cli.Base.{
  Bool-cases, List, OnOk, OnOk->>=, OnOk-any, Option-cases, [], any, inl, inr, none, of_ok, ok,
  refl, ℕ, ◌==◌, ◌∙◌, ◌∷◌, ◌≡◌,
}
use minotari_cli.Db.DisplayedTransactions.{
  insert_displayed_transaction, update_displayed_transaction_mined,
}
use minotari_cli.Db.Events.{insert_wallet_event}
use minotari_cli.Db.Outputs.{confirm, get_unconfirmed_outputs, mark_output_confirmed}
use minotari_cli.Db.ScannedTipBlocks.{insert_scanned_tip_block, same_block}
use minotari_cli.Db.Tables.{Db, InputRow, OutputRow}
use minotari_cli.Ledger.Frames.{insert_wallet_event-SameBooks, trigger_all-SameBooks}
use minotari_cli.Ledger.Receive.{IsReceiving, process_outputs-IsReceiving}
use minotari_cli.Ledger.Rows.{IsConsistent-same, IsConsistent-update, KeepsBooks}
use minotari_cli.Ledger.Sound.{IsConsistent}
use minotari_cli.Ledger.Spend.{AreDistinct, AreUnspent, is_spent}
use minotari_cli.Ledger.SpendLoop.{input_loop-IsConsistent}
use minotari_cli.Models.{DisplayedTransaction}
use minotari_cli.Scan.BlockProcessor.{Processor, account_view_key, confirmation_event}
use minotari_cli.Scan.BlockProcessor.Steps.{
  Env, confirmation_loop, finish_block, insert_all_displayed, process_block, process_confirmations,
  process_inputs, record_scanned_block, save_and_emit_displayed_transactions, update_all_mined,
}
use minotari_cli.Scan.Blocks.{BlockEventAccumulator, BlockScanResult, is_empty}

confirm-KeepsBooks : (height hash : ℕ) → KeepsBooks (confirm height hash)
unfolding confirm
confirm-KeepsBooks height hash = record {
  ids = λ o. refl;
  accounts = λ o. refl;
  hashes = λ o. refl;
  values = λ o. refl;
  wallet_outputs = λ o. refl;
  deletions = λ o. refl;
}

confirmation_loop-IsConsistent :
    (b : ℕ) (block : BlockScanResult) (a : ℕ) (os : List OutputRow) (p : Processor) (db : Db)
    → IsConsistent b db
    → IsConsistent b (confirmation_loop block a os p db).2
unfolding confirmation_loop mark_output_confirmed
confirmation_loop-IsConsistent b block a [] p db c = c
confirmation_loop-IsConsistent b block a (o ∷ os) p db c =
    let event =
      confirmation_event a o.output_hash o.mined_in_block_height block.height o.memo_parsed
        o.memo_hex in
    let db₁ = (insert_wallet_event a event db).1 in
    confirmation_loop-IsConsistent b block a os _ _ (
      IsConsistent-update b (λ x. x.output_hash == o.output_hash)
        (confirm block.height block.block_hash) db₁
        (confirm-KeepsBooks block.height block.block_hash)
        (IsConsistent-same b (insert_wallet_event-SameBooks a event db) c))

process_confirmations-IsConsistent :
    (b : ℕ) (block : BlockScanResult) (a : ℕ) (p : Processor) (db : Db)
    → IsConsistent b db
    → IsConsistent b (process_confirmations block a p db).1
unfolding process_confirmations
process_confirmations-IsConsistent b block a p db c =
    let r =
      confirmation_loop block a (get_unconfirmed_outputs a block.height p.required_confirmations db)
        p db in
    IsConsistent-same b (trigger_all-SameBooks a p.webhook_config r.0 r.2) (
      confirmation_loop-IsConsistent b block a
        (get_unconfirmed_outputs a block.height p.required_confirmations db) p db c)

record_scanned_block-IsConsistent :
    (b : ℕ) (block : BlockScanResult) (a : ℕ) (db : Db)
    → IsConsistent b db
    → IsConsistent b (record_scanned_block block a db)
unfolding record_scanned_block insert_scanned_tip_block
record_scanned_block-IsConsistent b block a db c =
    elim (Bool-cases (any (same_block a block.height block.block_hash) db.scanned_tip_blocks)) [
      | inl y ↦ rw y c
      | inr n ↦ rw n (record { sound = c.sound; balanced = c.balanced })
    ]

update_all_mined-IsConsistent :
    (b : ℕ) (ts : List DisplayedTransaction) (db : Db)
    → IsConsistent b db
    → IsConsistent b (update_all_mined ts db)
unfolding update_all_mined update_displayed_transaction_mined
update_all_mined-IsConsistent b [] db c = c
update_all_mined-IsConsistent b (t ∷ ts) db c =
    update_all_mined-IsConsistent b ts _ (record { sound = c.sound; balanced = c.balanced })

insert_displayed-IsConsistent :
    (b : ℕ) (t : DisplayedTransaction) (db : Db)
    → IsConsistent b db
    → IsConsistent b (insert_displayed_transaction t db)
unfolding insert_displayed_transaction
insert_displayed-IsConsistent b t db c =
    elim (Bool-cases (any (λ r. r.id == t.id) db.displayed_transactions)) [
      | inl y ↦ rw y (record { sound = c.sound; balanced = c.balanced })
      | inr n ↦ rw n (record { sound = c.sound; balanced = c.balanced })
    ]

insert_all_displayed-IsConsistent :
    (b : ℕ) (ts : List DisplayedTransaction) (db : Db)
    → IsConsistent b db
    → IsConsistent b (insert_all_displayed ts db)
unfolding insert_all_displayed
insert_all_displayed-IsConsistent b [] db c = c
insert_all_displayed-IsConsistent b (t ∷ ts) db c =
    insert_all_displayed-IsConsistent b ts _ (insert_displayed-IsConsistent b t db c)

save_and_emit-IsConsistent :
    (b : ℕ) (env : Env) (h a : ℕ) (acc : BlockEventAccumulator) (p : Processor) (db : Db)
    → IsConsistent b db
    → OnOk (λ r. IsConsistent b r.1) (save_and_emit_displayed_transactions env h a acc p db)
unfolding save_and_emit_displayed_transactions
save_and_emit-IsConsistent b env h a acc p db c = elim (Bool-cases (is_empty acc)) [
  | inl y ↦ rw (y, save_and_emit_displayed_transactions) c
  | inr n ↦
      rw (n, save_and_emit_displayed_transactions)
        (OnOk-any (λ (r : Processor × Db). IsConsistent b r.1) (env.displayed p acc db) _
          (λ r.
            insert_all_displayed-IsConsistent b r.1 _ (update_all_mined-IsConsistent b r.0 db c)))
]

finish_block-IsConsistent :
    (b : ℕ) (env : Env) (block : BlockScanResult) (a : ℕ) (p : Processor) (db : Db)
    → IsConsistent b db
    → OnOk (λ r. IsConsistent b r.1) (finish_block env block a p db)
unfolding finish_block
finish_block-IsConsistent b env block a p db c = elim (Option-cases p.current_block) [
  | inl e ↦ rw e c
  | inr (acc, e) ↦ rw e (
      OnOk->>= (λ r. IsConsistent b r.1) (λ r. IsConsistent b r.1) _ _
        (save_and_emit-IsConsistent b env block.height a acc (record p { current_block = none }) db
          c)
        (λ r c'. c'))
]

AreUnspent-same :
    (a : ℕ) (hs : List ℕ) (os os' : List OutputRow) (is is' : List InputRow)
    → ((j : ℕ) → is_spent a j os' is' ≡ is_spent a j os is)
    → AreUnspent a hs os is
    → AreUnspent a hs os' is'
AreUnspent-same a [] os os' is is' h u = tt
AreUnspent-same a (j ∷ js) os os' is is' h (u, us) =
    (h j ∙ u, AreUnspent-same a js os os' is is' h us)

process_block-OnOk :
    (b : ℕ) (env : Env) (block : BlockScanResult) (a : ℕ) (p : Processor) (db : Db)
    → IsConsistent b db
    → AreDistinct block.inputs
    → AreUnspent a block.inputs db.outputs db.inputs
    → OnOk (λ r. IsConsistent b r.1) (process_block env block a p db)
unfolding process_block process_inputs
process_block-OnOk b env block a p db c d u =
    OnOk-any (λ r. IsConsistent b r.1) (account_view_key a p) _
      (λ k.
        OnOk->>= (λ r. IsReceiving b db r.1) (λ r. IsConsistent b r.1) _ _
          (process_outputs-IsReceiving b env block a k _ db c)
          (λ r q.
            OnOk->>= (λ s. IsConsistent b s.1) (λ s. IsConsistent b s.1) _ _
              (input_loop-IsConsistent b env block a block.inputs r.0 r.1 q.consistent d (
                AreUnspent-same a block.inputs db.outputs r.1.outputs db.inputs r.1.inputs
                  (q.spent_same a) u))
              (λ s c'. finish_block-IsConsistent b env block a _ _ (
                process_confirmations-IsConsistent b block a s.0 _
                  (record_scanned_block-IsConsistent b block a s.1 c')))))

-- Processing a block of account `a` keeps the database consistent: the ids, values and references
-- of its tables stay sound and the books of every account `b` balance, if the hashes that the
-- block spends are distinct and none of them names a live output that is already spent.
pub process_block-IsConsistent :
    (b : ℕ) (env : Env) (block : BlockScanResult) (a : ℕ) (p p' : Processor) (db db' : Db)
    → IsConsistent b db
    → AreDistinct block.inputs
    → AreUnspent a block.inputs db.outputs db.inputs
    → process_block env block a p db ≡ ok (p', db')
    → IsConsistent b db'
process_block-IsConsistent b env block a p p' db db' c d u e =
    of_ok (λ r. IsConsistent b r.1) _ (process_block-OnOk b env block a p db c d u) e
