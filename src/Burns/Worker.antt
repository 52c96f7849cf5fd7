-- ===== src/Burns/Worker.antt =====
-- tasks/burn_proof_worker.rs: the worker that fetches the merkle proofs of burns and writes the
-- claims. The node, the file system and the decoding of keys come from elsewhere.
use minotari_cli.Base.{List, Result, [], err, ok, ℕ, ◌>>=◌, ◌∷◌}
use minotari_cli.Burns.Table.{
  DbBurnProof, NewBurnProof, get_pending_burn_proofs, mark_burn_proof_complete,
}

-- `EncodedMerkleProof`, which is also the node's answer
pub record EncodedMerkleProof : Type 0 where
  pub block_hash : ℕ
  pub encoded_merkle_proof : ℕ
  pub leaf_index : ℕ

-- a signature of a public nonce and a scalar
pub record Signature : Type 0 where
  pub public_nonce : ℕ
  pub scalar : ℕ

pub record AbridgedTransactionKernel : Type 0 where
  pub version : ℕ
  pub kernel_fee : ℕ
  pub lock_height : ℕ
  pub excess : ℕ
  pub excess_sig : Signature

pub record BurnClaimProof : Type 0 where
  pub burn_public_key : ℕ
  pub claim_commitment : ℕ
  pub ownership_proof : Signature
  pub merkle_proof : EncodedMerkleProof
  pub kernel : AbridgedTransactionKernel
  pub burnt_value : ℕ
  pub sender_public_key : ℕ

pub record CompleteClaimBurnProof : Type 0 where
  pub claim_proof : BurnClaimProof
  pub claim_data : ℕ

-- `from_canonical_bytes` of public keys, commitments and scalars, and `hex::decode`
pub record Decoding : Type 0 where
  pub public_key : ℕ → Result ℕ
  pub commitment_of : ℕ → Result ℕ
  pub private_key : ℕ → Result ℕ
  pub hex_decode : ℕ → Result ℕ

-- a file of the directory, by the two parts of its name
pub record ProofFile : Type 0 where
  pub name_key : ℕ
  pub name_commitment : ℕ
  pub content : CompleteClaimBurnProof

-- `BurnProofWorker`, and whether the directory and the file can be written
pub record BurnProofWorker : Type 0 where
  pub get_kernel_merkle_proof : ℕ → ℕ → Result EncodedMerkleProof
  pub decode : Decoding
  pub write : ProofFile → Result (Unit {0})

unfoldable pub assemble_complete_proof :
    Decoding → NewBurnProof → EncodedMerkleProof → Result CompleteClaimBurnProof
assemble_complete_proof d p merkle = do
  sender ← d.public_key p.sender_offset_public_key
  commitment ← d.commitment_of p.commitment
  nonce ← d.public_key p.ownership_proof_nonce
  sig_scalar ← d.private_key p.ownership_proof_sig
  excess ← d.commitment_of p.kernel_excess
  excess_nonce ← d.public_key p.kernel_excess_nonce
  excess_sig_scalar ← d.private_key p.kernel_excess_sig
  key_bytes ← d.hex_decode p.claim_public_key
  burn_public_key ← d.public_key key_bytes
  ok (record {
    claim_proof = record {
      burn_public_key = burn_public_key;
      claim_commitment = commitment;
      ownership_proof = record { public_nonce = nonce; scalar = sig_scalar };
      merkle_proof = merkle;
      kernel = record {
        version = 0;
        kernel_fee = p.kernel_fee;
        lock_height = p.kernel_lock_height;
        excess = excess;
        excess_sig = record { public_nonce = excess_nonce; scalar = excess_sig_scalar };
      };
      burnt_value = p.value;
      sender_public_key = sender;
    };
    claim_data = p.encrypted_data;
  })

-- the table, and the files written, the last one first: of two with one name it is the one kept
pub record BurnState : Type 0 where
  pub burn_proofs : List DbBurnProof
  pub files : List ProofFile

unfoldable pub write_proof_file :
    BurnProofWorker → ℕ → ℕ → CompleteClaimBurnProof → List ProofFile → Result (List ProofFile)
write_proof_file w key commitment proof files = do
  let file : ProofFile = record { name_key = key; name_commitment = commitment; content = proof }
  _ ← w.write file
  ok (file ∷ files)

unfoldable pub process_single_proof : BurnProofWorker → DbBurnProof → BurnState → Result BurnState
process_single_proof w p s = do
  merkle ← w.get_kernel_merkle_proof p.burn.kernel_excess_nonce p.burn.kernel_excess_sig
  proof ← assemble_complete_proof w.decode p.burn merkle
  files ← write_proof_file w p.burn.claim_public_key p.burn.commitment proof s.files
  ok (record { burn_proofs = mark_burn_proof_complete p.id s.burn_proofs; files = files })

-- a failure is logged, and leaves everything as it was
abbrev pub or_unchanged : BurnState → Result BurnState → BurnState
or_unchanged s (ok s') = s'
or_unchanged s (err _) = s

unfoldable pub process_proofs : BurnProofWorker → List DbBurnProof → BurnState → BurnState
process_proofs w [] s = s
process_proofs w (p ∷ ps) s = process_proofs w ps (or_unchanged s (process_single_proof w p s))

unfoldable pub process_pending_proofs : BurnProofWorker → BurnState → BurnState
process_pending_proofs w s = process_proofs w (get_pending_burn_proofs s.burn_proofs) s
