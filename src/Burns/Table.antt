-- ===== src/Burns/Table.antt =====
-- db/burn_proofs.rs: the table of burn proofs. Byte strings stand for themselves as numbers, and an
-- amount for its 64 bits, which the casts between u64 and i64 keep.
use minotari_cli.Base.{
  Bool, List, Option, Result, [], any, constraint_violation, err, false, find, if◌then◌else◌, ok,
  order_asc, select, true, update_where, ℕ, ◌++◌, ◌+◌, ◌==◌, ◌∷◌,
}

pub data BurnProofStatus : Type 0 where
  pending_merkle : BurnProofStatus
  complete : BurnProofStatus

abbrev pub is_pending_merkle : BurnProofStatus → Bool
is_pending_merkle BurnProofStatus.pending_merkle = true
is_pending_merkle BurnProofStatus.complete = false

-- what is stored of a burn when its transaction is broadcast
pub record NewBurnProof : Type 0 where
  pub account_id : ℕ
  pub output_hash : ℕ
  pub commitment : ℕ
  pub claim_public_key : ℕ
  pub ownership_proof_nonce : ℕ
  pub ownership_proof_sig : ℕ
  pub kernel_excess : ℕ
  pub kernel_excess_nonce : ℕ
  pub kernel_excess_sig : ℕ
  pub sender_offset_public_key : ℕ
  pub encrypted_data : ℕ
  pub value : ℕ
  pub kernel_fee : ℕ
  pub kernel_lock_height : ℕ

-- `DbBurnProof`, with the column by which the pending ones are ordered
pub record DbBurnProof : Type 0 where
  pub id : ℕ
  pub burn : NewBurnProof
  pub status : BurnProofStatus
  pub created_at : ℕ

-- the rows, with the next id of AUTOINCREMENT
pub record BurnTable : Type 0 where
  pub rows : List DbBurnProof
  pub next_id : ℕ

abbrev pub inserted : ℕ → ℕ → NewBurnProof → DbBurnProof
inserted id now burn = record {
  id = id;
  burn = burn;
  status = BurnProofStatus.pending_merkle;
  created_at = now;
}

abbrev pub of_hash : ℕ → DbBurnProof → Bool
of_hash output_hash r = r.burn.output_hash == output_hash

-- The row gets the next id; the index on `output_hash` is unique. The account exists, as the foreign
-- key asks.
unfoldable pub insert_burn_proof : ℕ → NewBurnProof → BurnTable → Result (ℕ × BurnTable)
insert_burn_proof now burn t =
    if any (of_hash burn.output_hash) t.rows
    then err constraint_violation
    else ok (
      t.next_id,
      record { rows = t.rows ++ (inserted t.next_id now burn ∷ []); next_id = t.next_id + 1 },
    )

unfoldable pub get_burn_proof_by_output_hash : ℕ → List DbBurnProof → Option DbBurnProof
get_burn_proof_by_output_hash output_hash rows = find (of_hash output_hash) rows

unfoldable pub get_pending_burn_proofs : List DbBurnProof → List DbBurnProof
get_pending_burn_proofs rows =
    order_asc (λ r. r.created_at) (select (λ r. is_pending_merkle r.status) rows)

abbrev pub completed_row : DbBurnProof → DbBurnProof
completed_row r = record r { status = BurnProofStatus.complete }

unfoldable pub mark_burn_proof_complete : ℕ → List DbBurnProof → List DbBurnProof
mark_burn_proof_complete id rows = update_where (λ (r : DbBurnProof). r.id == id) completed_row rows
