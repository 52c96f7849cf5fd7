-- ===== src/Ledger/SpendLoop.antt =====
-- The loop of process_inputs (minotari/src/scan/block_processor.rs) over a block's inputs.
use minotari_cli.Base.{
  Bool, List, OnOk, OnOk->>=, Option-cases, [], any, arith, false, find, inl, inr, none, refl, some,
  sym, true, update_where, ℕ, ◌++◌, ◌<◌, ◌==◌, ◌∙◌, ◌∷◌, ◌≡◌,
}
use minotari_cli.Db.BalanceChanges.{insert_balance_change}
use minotari_cli.Db.Inputs.{insert_input, spends}
use minotari_cli.Db.Outputs.{get_output_info_by_hash_for_account, set_status, update_output_status}
use minotari_cli.Db.PendingTransactions.{member}
use minotari_cli.Db.Tables.{Db, InputRow, OutputRow, WalletOutput}
use minotari_cli.Ledger.Rows.{IsConsistent-update, KeepsBooks}
use minotari_cli.Ledger.Sound.{AreSound, IsConsistent, find-has_id, find-ne, find-value, has_id}
use minotari_cli.Ledger.Spend.{
  AreDistinct, AreUnspent, any-append, debit-IsConsistent, find-append, find-is_spent, has_hash,
  is_spent, set_status-KeepsBooks,
}
use minotari_cli.Ledger.Totals.{value_of}
use minotari_cli.Models.OutputStatus.{OutputStatus}
use minotari_cli.Scan.BlockProcessor.{Processor, make_balance_change_for_input}
use minotari_cli.Scan.BlockProcessor.Steps.{Env, input_loop, process_spent}
use minotari_cli.Scan.Blocks.{BlockScanResult}

-- What spending the output with id `k` does to the tables, next to keeping them consistent.
record IsSpending (b k : ℕ) (db db' : Db) : Type 0 where
  input : InputRow
  names : input.output_id ≡ k
  outs : db'.outputs ≡ update_where (λ o. o.id == k) (set_status OutputStatus.spent) db.outputs
  ins : db'.inputs ≡ db.inputs ++ input ∷ []
  consistent : IsConsistent b db'

process_spent-IsSpending :
    (b : ℕ) (env : Env) (block : BlockScanResult) (a k : ℕ) (o : WalletOutput) (p : Processor)
    (db : Db)
    → IsConsistent b db
    → k < db.next_output_id
    → o.value ≡ value_of db.outputs k
    → any (spends k) db.inputs ≡ false
    → OnOk (λ r. IsSpending b k db r.1) (process_spent env block a k o p db)
unfolding process_spent insert_input insert_balance_change make_balance_change_for_input
    update_output_status
process_spent-IsSpending b env block a k o p db c lt v n =
    elim (Option-cases (env.ext.from_timestamp block.mined_timestamp)) [
      | inl e ↦ rw e tt
      | inr (t, e) ↦
          let i : InputRow = record {
            id = db.next_input_id;
            account_id = a;
            output_id = k;
            mined_in_block_hash = block.block_hash;
            mined_in_block_height = block.height;
            mined_timestamp = t;
            deleted_at = none;
            deleted_in_block_height = none;
          } in
          let mine : spends k i ≡ true = ground arith in
          rw (e, n, find-append k db.inputs i n mine)
            (record {
              input = i;
              names = refl;
              outs = refl;
              ins = refl;
              consistent =
                  IsConsistent-update b (λ x. x.id == k) (set_status OutputStatus.spent) _
                    (set_status-KeepsBooks OutputStatus.spent)
                    (debit-IsConsistent b db i _ _ c lt refl refl v refl refl refl refl refl);
            })
    ]

-- A row of another hash than the spent one's is not the spent row.
is_spent-elsewhere :
    (n a h j : ℕ) (os : List OutputRow) (is : List InputRow) (i : InputRow)
    → any (has_id i.output_id) os ≡ false
    → is_spent a j os (is ++ i ∷ []) ≡ is_spent a j os is
is_spent-elsewhere n a h j [] is i e = refl
is_spent-elsewhere n a h j (x ∷ xs) is i e =
    ground (arith, any-append x.id is i, is_spent-elsewhere n a h j xs is i)

is_spent-append :
    (n a h j : ℕ) (os : List OutputRow) (is : List InputRow) (i : InputRow) (o : OutputRow)
    → AreSound n os
    → find (has_hash a h) os ≡ some o
    → i.output_id ≡ o.id
    → (j == h) ≡ false
    → is_spent a j os is ≡ false
    → is_spent a j os (is ++ i ∷ []) ≡ false
is_spent-append n a h j [] is i o s e id ne u = refl
is_spent-append n a h j (x ∷ xs) is i o (lt, ve, nx, s) e id ne u = ground (
  arith,
  any-append x.id is i,
  is_spent-elsewhere n a h j xs is i,
  is_spent-append n a h j xs is i o s,
  find-ne x.id (has_hash a h) xs o,
)

is_spent-update :
    (a j : ℕ) (q : OutputRow → Bool) (g : OutputRow → OutputRow) (os : List OutputRow)
    (is : List InputRow)
    → KeepsBooks g
    → is_spent a j (update_where q g os) is ≡ is_spent a j os is
is_spent-update a j q g [] is k = refl
is_spent-update a j q g (x ∷ xs) is k =
    ground
      (arith, k.ids x, k.accounts x, k.hashes x, k.deletions x, is_spent-update a j q g xs is k)

AreUnspent-spending :
    (b a h : ℕ) (hs : List ℕ) (o : OutputRow) (db db' : Db)
    → AreSound db.next_output_id db.outputs
    → find (has_hash a h) db.outputs ≡ some o
    → IsSpending b o.id db db'
    → member h hs ≡ false
    → AreUnspent a hs db.outputs db.inputs
    → AreUnspent a hs db'.outputs db'.inputs
AreUnspent-spending b a h [] o db db' s e sp m u = tt
AreUnspent-spending b a h (j ∷ js) o db db' s e sp m (u, us) = (
  rw (sp.outs, sp.ins)
      (is_spent-update a j (λ x. x.id == o.id) (set_status OutputStatus.spent) db.outputs _
          (set_status-KeepsBooks OutputStatus.spent)
        ∙ is_spent-append db.next_output_id a h j db.outputs db.inputs sp.input o s e sp.names
            (ground arith) u),
  AreUnspent-spending b a h js o db db' s e sp (ground arith) us,
)

pub input_loop-IsConsistent :
    (b : ℕ) (env : Env) (block : BlockScanResult) (a : ℕ) (hs : List ℕ) (p : Processor) (db : Db)
    → IsConsistent b db
    → AreDistinct hs
    → AreUnspent a hs db.outputs db.inputs
    → OnOk (λ r. IsConsistent b r.1) (input_loop env block a hs p db)
unfolding input_loop get_output_info_by_hash_for_account
input_loop-IsConsistent b env block a [] p db c d u = c
input_loop-IsConsistent b env block a (h ∷ hs) p db c (m, d) (u, us) =
    elim (Option-cases (find (has_hash a h) db.outputs)) [
      | inl e ↦ rw (e, input_loop) (input_loop-IsConsistent b env block a hs p db c d us)
      | inr (o, e) ↦
          let n = db.next_output_id in
          let (v, lt) = find-value n (has_hash a h) db.outputs o c.sound.0 e in
          let same = find-has_id n (has_hash a h) db.outputs o c.sound.0 e in
          let worth : o.wallet_output.value ≡ value_of db.outputs o.id = rw same (sym v) in
          rw (e, input_loop)
            (OnOk->>= (λ r. IsSpending b o.id db r.1) (λ r. IsConsistent b r.1) _ _
              (process_spent-IsSpending b env block a o.id o.wallet_output p db c lt worth
                (find-is_spent a h db.outputs db.inputs o e u))
              (λ r sp.
                input_loop-IsConsistent b env block a hs r.0 r.1 sp.consistent d
                  (AreUnspent-spending b a h hs o db r.1 c.sound.0 e sp m us)))
    ]
