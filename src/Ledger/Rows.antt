-- ===== src/Ledger/Rows.antt =====
-- The books of a database whose tables get a new row or an update (minotari/src/db).
use minotari_cli.Base.{
  Bool, List, [], any, arith, false, find-update_where, refl, sum_where-update_where, update_where,
  ℕ, ◌++◌, ◌<◌, ◌==◌, ◌∷◌, ◌≡◌, ◌≤◌,
}
use minotari_cli.Db.Inputs.{spends}
use minotari_cli.Db.Tables.{Db, InputRow, OutputRow}
use minotari_cli.Ledger.Frames.{IsBalanced-same, SameBooks}
use minotari_cli.Ledger.Reversals.{spent_value-outputs}
use minotari_cli.Ledger.Sound.{AreBelow, AreSound-update, IsConsistent}
use minotari_cli.Ledger.Totals.{is_live_output, received, spent_value, value_of, value_or_zero}

pub value_of-append :
    (k : ℕ) (os : List OutputRow) (row : OutputRow)
    → k < row.id
    → value_of (os ++ row ∷ []) k ≡ value_of os k
value_of-append k [] row h = ground arith
value_of-append k (o ∷ os) row h = ground (arith, value_of-append k os row h)

pub spent_value-append_output :
    (b : ℕ) (os : List OutputRow) (row : OutputRow) (is : List InputRow)
    → AreBelow row.id is
    → spent_value b (os ++ row ∷ []) is ≡ spent_value b os is
spent_value-append_output b os row [] h = refl
spent_value-append_output b os row (i ∷ is) (lt, h) =
    ground (arith, value_of-append i.output_id os row lt, spent_value-append_output b os row is h)

pub AreBelow-mono : (n m : ℕ) (is : List InputRow) → n ≤ m → AreBelow n is → AreBelow m is
AreBelow-mono n m [] le h = tt
AreBelow-mono n m (i ∷ is) le (lt, h) = (omega arith, AreBelow-mono n m is le h)

pub AreBelow-append :
    (n : ℕ) (is : List InputRow) (i : InputRow)
    → AreBelow n is
    → i.output_id < n
    → AreBelow n (is ++ i ∷ [])
AreBelow-append n [] i h lt = (lt, tt)
AreBelow-append n (j ∷ js) i (l, h) lt = (l, AreBelow-append n js i h lt)

-- no input spends an output of an id that is not given yet
pub any-spends-below :
    (n k : ℕ) (is : List InputRow) → AreBelow n is → n ≤ k → any (spends k) is ≡ false
any-spends-below n k [] h le = refl
any-spends-below n k (i ∷ is) (lt, h) le = ground (arith, any-spends-below n k is h le)

-- A change of columns that the books do not read: the rows keep their account, id, values and
-- deletion.
pub record KeepsBooks (g : OutputRow → OutputRow) : Type 0 where
  pub ids : (o : OutputRow) → (g o).id ≡ o.id
  pub accounts : (o : OutputRow) → (g o).account_id ≡ o.account_id
  pub hashes : (o : OutputRow) → (g o).output_hash ≡ o.output_hash
  pub values : (o : OutputRow) → (g o).value ≡ o.value
  pub wallet_outputs : (o : OutputRow) → (g o).wallet_output ≡ o.wallet_output
  pub deletions : (o : OutputRow) → (g o).deleted_at ≡ o.deleted_at

pub received-update :
    (b : ℕ) (q : OutputRow → Bool) (g : OutputRow → OutputRow) (os : List OutputRow)
    → KeepsBooks g
    → received b (update_where q g os) ≡ received b os
received-update b q g os k =
    sum_where-update_where (is_live_output b) (λ o. o.value) q g os
      (λ o. rw (k.accounts o, k.deletions o) refl) k.values

pub value_of-update :
    (j : ℕ) (q : OutputRow → Bool) (g : OutputRow → OutputRow) (os : List OutputRow)
    → KeepsBooks g
    → value_of (update_where q g os) j ≡ value_of os j
value_of-update j q g os k =
    find-update_where (λ o. o.id == j) q g value_or_zero os (λ o. rw (k.ids o) refl) k.values

pub IsConsistent-update :
    (b : ℕ) (q : OutputRow → Bool) (g : OutputRow → OutputRow) (db : Db)
    → KeepsBooks g
    → IsConsistent b db
    → IsConsistent b (record db { outputs = update_where q g db.outputs })
IsConsistent-update b q g db k c = record {
  sound = (
    AreSound-update db.next_output_id q g db.outputs
        (λ o. (k.ids o, k.values o, k.wallet_outputs o)) c.sound.0,
    c.sound.1,
  );
  balanced = omega (
    arith,
    c.balanced,
    received-update b q g db.outputs k,
    spent_value-outputs b db.outputs (update_where q g db.outputs) db.inputs
        (λ j. value_of-update j q g db.outputs k),
  );
}

pub IsConsistent-same :
    (b : ℕ) {db db' : Db} → SameBooks db db' → IsConsistent b db → IsConsistent b db'
IsConsistent-same b s c = record {
  sound = rw (s.outs, s.ins, s.next) c.sound;
  balanced = IsBalanced-same b s c.balanced;
}
