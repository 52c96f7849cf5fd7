-- ===== src/Ledger/Spend.antt =====
-- The inputs of a block that spend an account's outputs (process_inputs of
-- minotari/src/scan/block_processor.rs), seen from the ledger.
use minotari_cli.Base.{
  All, Bool, List, [], any, arith, false, find, is_none, none, refl, some, sum_where-append, true,
  ℕ, ◌&&◌, ◌++◌, ◌<◌, ◌==◌, ◌||◌, ◌∷◌, ◌≡◌,
}
use minotari_cli.Db.Inputs.{spends}
use minotari_cli.Db.Outputs.{set_status}
use minotari_cli.Db.PendingTransactions.{member}
use minotari_cli.Db.Tables.{BalanceChangeRow, Db, InputRow, OutputRow}
use minotari_cli.Ledger.Rows.{AreBelow-append, KeepsBooks}
use minotari_cli.Ledger.Sound.{IsConsistent}
use minotari_cli.Ledger.Totals.{is_live_input, of_account, value_of}
use minotari_cli.Models.OutputStatus.{OutputStatus}

-- the live outputs of account `a` with a hash
abbrev pub has_hash : ℕ → ℕ → OutputRow → Bool
has_hash a h o = (o.account_id == a) && (o.output_hash == h) && is_none o.deleted_at

-- Some live input spends such an output already.
abbrev pub is_spent : ℕ → ℕ → List OutputRow → List InputRow → Bool
is_spent a h os is = any (λ o. has_hash a h o && any (spends o.id) is) os

abbrev pub AreUnspent : ℕ → List ℕ → List OutputRow → List InputRow → Type 0
AreUnspent a hs os is = All (λ h. is_spent a h os is ≡ false) hs

abbrev pub AreDistinct : List ℕ → Type 0
AreDistinct [] = Unit
AreDistinct (h ∷ hs) = (member h hs ≡ false) × AreDistinct hs

-- An input and its debit: the output with id `i.output_id` has the value of the debit.
pub debit-IsConsistent :
    (b : ℕ) (db : Db) (i : InputRow) (c : BalanceChangeRow) (db' : Db)
    → IsConsistent b db
    → i.output_id < db.next_output_id
    → i.deleted_at ≡ none
    → c.account_id ≡ i.account_id
    → c.balance_debit ≡ value_of db.outputs i.output_id
    → c.balance_credit ≡ 0
    → db'.outputs ≡ db.outputs
    → db'.inputs ≡ db.inputs ++ i ∷ []
    → db'.next_output_id ≡ db.next_output_id
    → db'.balance_changes ≡ db.balance_changes ++ c ∷ []
    → IsConsistent b db'
debit-IsConsistent b db i c db' h lt live acc de cr outs ins next ledger = record {
  sound =
      rw (outs, ins, next) (h.sound.0, AreBelow-append db.next_output_id db.inputs i h.sound.1 lt);
  balanced =
      rw (outs, ins, ledger)
        (ground (
          arith,
          h.balanced,
          sum_where-append (of_account b) (λ x. x.balance_credit) db.balance_changes (c ∷ []),
          sum_where-append (of_account b) (λ x. x.balance_debit) db.balance_changes (c ∷ []),
          sum_where-append (is_live_input b) (λ j. value_of db.outputs j.output_id) db.inputs
              (i ∷ []),
        ));
}

pub any-append :
    (k : ℕ) (is : List InputRow) (i : InputRow)
    → any (spends k) (is ++ i ∷ []) ≡ (any (spends k) is || spends k i)
any-append k [] i = ground arith
any-append k (j ∷ js) i = ground (arith, any-append k js i)

pub find-append :
    (k : ℕ) (is : List InputRow) (i : InputRow)
    → any (spends k) is ≡ false
    → spends k i ≡ true
    → find (spends k) (is ++ i ∷ []) ≡ some i
find-append k [] i n y = ground arith
find-append k (j ∷ js) i n y = ground (arith, find-append k js i)

-- what is found by its hash is not spent
pub find-is_spent :
    (a h : ℕ) (os : List OutputRow) (is : List InputRow) (o : OutputRow)
    → find (has_hash a h) os ≡ some o
    → is_spent a h os is ≡ false
    → any (spends o.id) is ≡ false
find-is_spent a h [] is o e n = cc
find-is_spent a h (x ∷ xs) is o e n = ground (arith, find-is_spent a h xs is o)

pub set_status-KeepsBooks : (s : OutputStatus) → KeepsBooks (set_status s)
unfolding set_status
set_status-KeepsBooks s = record {
  ids = λ o. refl;
  accounts = λ o. refl;
  hashes = λ o. refl;
  values = λ o. refl;
  wallet_outputs = λ o. refl;
  deletions = λ o. refl;
}
