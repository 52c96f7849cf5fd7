-- ===== src/Ledger/Receive.antt =====
-- process_outputs of minotari/src/scan/block_processor.rs, seen from the ledger.
use minotari_cli.Base.{
  Bool-cases, List, OnOk, OnOk->>=, Option-cases, [], any, arith, inl, inr, is_value, none, refl,
  suc, sum_where-append, ℕ, ◌++◌, ◌∙◌, ◌∷◌, ◌≡◌,
}
use minotari_cli.Db.BalanceChanges.{insert_balance_change}
use minotari_cli.Db.Events.{insert_wallet_event}
use minotari_cli.Db.Outputs.{clashes, insert_output}
use minotari_cli.Db.Tables.{BalanceChangeRow, Db, InputRow, OutputRow, WalletOutput}
use minotari_cli.Ledger.Frames.{trigger_all-SameBooks}
use minotari_cli.Ledger.Rows.{
  AreBelow-mono, IsConsistent-same, any-spends-below, spent_value-append_output,
}
use minotari_cli.Ledger.Sound.{AreBelow, AreSound, AreSound-append, IsConsistent}
use minotari_cli.Ledger.Spend.{is_spent}
use minotari_cli.Ledger.Totals.{is_live_output, of_account}
use minotari_cli.Scan.BlockProcessor.{Processor, get_elem?, make_balance_change_for_output}
use minotari_cli.Scan.BlockProcessor.Steps.{Env, output_loop, process_output, process_outputs}
use minotari_cli.Scan.Blocks.{BlockScanResult}

-- an output and its credit
credit-IsConsistent :
    (b : ℕ) (db : Db) (row : OutputRow) (c : BalanceChangeRow) (db' : Db)
    → IsConsistent b db
    → row.id ≡ db.next_output_id
    → row.value ≡ row.wallet_output.value
    → row.deleted_at ≡ none
    → c.account_id ≡ row.account_id
    → c.balance_credit ≡ row.value
    → c.balance_debit ≡ 0
    → db'.outputs ≡ db.outputs ++ row ∷ []
    → db'.inputs ≡ db.inputs
    → db'.next_output_id ≡ suc row.id
    → db'.balance_changes ≡ db.balance_changes ++ c ∷ []
    → IsConsistent b db'
credit-IsConsistent b db row c db' h id v live acc cr de outs ins next ledger =
    let s : AreSound row.id db.outputs = rw id h.sound.0 in
    let below : AreBelow row.id db.inputs = rw id h.sound.1 in
    record {
      sound =
          rw (outs, ins, next)
            (
              AreSound-append db.outputs row s v,
              AreBelow-mono row.id (suc row.id) db.inputs (omega arith) below,
            );
      balanced =
          rw (outs, ins, ledger)
            (ground (
              arith,
              h.balanced,
              sum_where-append (of_account b) (λ x. x.balance_credit) db.balance_changes (c ∷ []),
              sum_where-append (of_account b) (λ x. x.balance_debit) db.balance_changes (c ∷ []),
              sum_where-append (is_live_output b) (λ o. o.value) db.outputs (row ∷ []),
              spent_value-append_output b db.outputs row db.inputs below,
            ));
    }

is_spent-append_output :
    (a j : ℕ) (os : List OutputRow) (row : OutputRow) (is : List InputRow)
    → AreBelow row.id is
    → is_spent a j (os ++ row ∷ []) is ≡ is_spent a j os is
is_spent-append_output a j [] row is h = ground (arith, any-spends-below row.id row.id is h)
is_spent-append_output a j (o ∷ os) row is h =
    ground (arith, is_spent-append_output a j os row is h)

-- The new outputs are unspent, and leave the others as they are.
pub record IsReceiving (b : ℕ) (db db' : Db) : Type 0 where
  pub consistent : IsConsistent b db'
  pub spent_same :
      (a j : ℕ) → is_spent a j db'.outputs db'.inputs ≡ is_spent a j db.outputs db.inputs

process_output-IsReceiving :
    (b : ℕ) (env : Env) (block : BlockScanResult) (a k h : ℕ) (o : WalletOutput) (p : Processor)
    (db : Db)
    → IsConsistent b db
    → OnOk (λ r. IsReceiving b db r.2) (process_output env block a k h o p db)
unfolding process_output insert_output insert_wallet_event insert_balance_change
    make_balance_change_for_output
process_output-IsReceiving b env block a k h o p db c =
    elim (Option-cases (env.ext.from_timestamp block.mined_timestamp)) [
      | inl e ↦ rw e tt
      | inr (t, e) ↦
          elim (Bool-cases
            (any (clashes h (env.ext.new_deterministic k o.output_hash)) db.outputs)) [
              | inl y ↦ rw (e, y) tt
              | inr n ↦
                  rw (e, n)
                    (record {
                      consistent =
                          credit-IsConsistent b db _ _ _ c refl refl refl refl refl refl refl refl
                            refl refl;
                      spent_same =
                          λ x j. is_spent-append_output x j db.outputs _ db.inputs c.sound.1;
                    })
            ]
    ]

output_loop-IsReceiving :
    (b : ℕ) (env : Env) (block : BlockScanResult) (a k : ℕ) (outs : List (ℕ × WalletOutput × ℕ))
    (p : Processor) (db : Db)
    → IsConsistent b db
    → OnOk (λ r. IsReceiving b db r.2) (output_loop env block a k outs p db)
unfolding output_loop
output_loop-IsReceiving b env block a k [] p db c = record {
  consistent = c;
  spent_same = λ x j. refl;
}
output_loop-IsReceiving b env block a k ((h, o, idx) ∷ outs) p db c =
    elim (Bool-cases (is_value (get_elem? p.wallet_index_to_account_id idx) a)) [
      | inr n ↦ rw (n, output_loop) (output_loop-IsReceiving b env block a k outs p db c)
      | inl y ↦
          rw (y, output_loop)
            (OnOk->>= (λ r. IsReceiving b db r.2) (λ r. IsReceiving b db r.2) _ _
              (process_output-IsReceiving b env block a k h o p db c)
              (λ r q.
                OnOk->>= (λ s. IsReceiving b r.2 s.2) (λ s. IsReceiving b db s.2) _ _
                  (output_loop-IsReceiving b env block a k outs r.1 r.2 q.consistent)
                  (λ s q'. record {
                    consistent = q'.consistent;
                    spent_same = λ x j. q'.spent_same x j ∙ q.spent_same x j;
                  })))
    ]

pub process_outputs-IsReceiving :
    (b : ℕ) (env : Env) (block : BlockScanResult) (a k : ℕ) (p : Processor) (db : Db)
    → IsConsistent b db
    → OnOk (λ r. IsReceiving b db r.1) (process_outputs env block a k p db)
unfolding process_outputs
process_outputs-IsReceiving b env block a k p db c =
    OnOk->>= (λ r. IsReceiving b db r.2) (λ r. IsReceiving b db r.1) _ _
      (output_loop-IsReceiving b env block a k block.wallet_outputs p db c)
      (λ r q.
        let same = trigger_all-SameBooks a p.webhook_config r.0 r.2 in
        record {
          consistent = IsConsistent-same b same q.consistent;
          spent_same = λ x j. rw (same.outs, same.ins) (q.spent_same x j);
        })
