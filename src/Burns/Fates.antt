-- ===== src/Burns/Fates.antt =====
-- What a cycle of the burn proof worker does to each row of the table, said of the row alone.
use minotari_cli.Base.{
  Bool, List, Result, any, err, false, if◌then◌else◌, ok, true, ◌&&◌, ◌==◌, ◌>>=◌, ◌≡◌,
}
use minotari_cli.Burns.Table.{DbBurnProof, NewBurnProof, completed_row, is_pending_merkle}
use minotari_cli.Burns.Worker.{
  BurnProofWorker, CompleteClaimBurnProof, ProofFile, assemble_complete_proof,
}

-- the proof of a row, where the node, the decoding and the file system let it be made and written
abbrev pub proof_of : BurnProofWorker → NewBurnProof → Result CompleteClaimBurnProof
proof_of w p = do
  merkle ← w.get_kernel_merkle_proof p.kernel_excess_nonce p.kernel_excess_sig
  proof ← assemble_complete_proof w.decode p merkle
  _ ←
      w.write
        (record { name_key = p.claim_public_key; name_commitment = p.commitment; content = proof })
  ok proof

abbrev pub has_proof : Result CompleteClaimBurnProof → Bool
has_proof (ok _) = true
has_proof (err _) = false

abbrev pub can_prove : BurnProofWorker → DbBurnProof → Bool
can_prove w r = has_proof (proof_of w r.burn)

-- The row after a cycle: completed if it is pending and its proof can be made and written.
abbrev pub fate : BurnProofWorker → DbBurnProof → DbBurnProof
fate w r = if is_pending_merkle r.status && can_prove w r then completed_row r else r

abbrev pub is_file_of : NewBurnProof → ProofFile → Bool
is_file_of p f = (f.name_key == p.claim_public_key) && (f.name_commitment == p.commitment)

-- A complete row has its file.
abbrev pub HasFile : List ProofFile → DbBurnProof → Type 0
HasFile files r = is_pending_merkle r.status ≡ false → any (is_file_of r.burn) files ≡ true
