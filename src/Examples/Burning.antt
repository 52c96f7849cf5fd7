-- ===== src/Examples/Burning.antt =====
-- Three burns: one whose kernel the node does not know yet, one that it knows, and one whose claim
-- is complete.
use minotari_cli.Base.{
  All, [], arith, constraint_violation, err, if◌then◌else◌, map, network, none, ok, refl, some, ℕ,
  ◌+◌, ◌-◌, ◌==◌, ◌∷◌, ◌≡◌, ◌⊎◌,
}
use minotari_cli.Burns.Cycle.{process_pending_proofs-fate}
use minotari_cli.Burns.Fates.{HasFile, fate}
use minotari_cli.Burns.Lookup.{IsInserted, insert_burn_proof-get}
use minotari_cli.Burns.Table.{
  BurnProofStatus, BurnTable, DbBurnProof, NewBurnProof, get_burn_proof_by_output_hash,
  insert_burn_proof,
}
use minotari_cli.Burns.Worker.{
  BurnProofWorker, BurnState, CompleteClaimBurnProof, assemble_complete_proof,
  process_pending_proofs,
}

abbrev burnt : ℕ → NewBurnProof
burnt n = record {
  account_id = 1;
  output_hash = n;
  commitment = 10 + n;
  claim_public_key = 20 + n;
  ownership_proof_nonce = 1;
  ownership_proof_sig = 2;
  kernel_excess = 3;
  kernel_excess_nonce = 30 + n;
  kernel_excess_sig = 4;
  sender_offset_public_key = 5;
  encrypted_data = 6;
  value = 1000;
  kernel_fee = 250;
  kernel_lock_height = 0;
}

abbrev burn_row : ℕ → BurnProofStatus → DbBurnProof
burn_row n status = record { id = n; burn = burnt n; status = status; created_at = 100 - n }

abbrev burn_worker : BurnProofWorker
burn_worker = record {
  get_kernel_merkle_proof = λ nonce sig.
      if nonce == 31
      then err network
      else ok (record { block_hash = 7; encoded_merkle_proof = 8; leaf_index = 42 });
  decode = record {
    public_key = λ b. ok b;
    commitment_of = λ b. ok b;
    private_key = λ b. ok b;
    hex_decode = λ t. ok t;
  };
  write = λ f. ok tt;
}

abbrev claim : CompleteClaimBurnProof
claim = record {
  claim_proof = record {
    burn_public_key = 23;
    claim_commitment = 13;
    ownership_proof = record { public_nonce = 1; scalar = 2 };
    merkle_proof = record { block_hash = 7; encoded_merkle_proof = 8; leaf_index = 42 };
    kernel = record {
      version = 0;
      kernel_fee = 250;
      lock_height = 0;
      excess = 3;
      excess_sig = record { public_nonce = 33; scalar = 4 };
    };
    burnt_value = 1000;
    sender_public_key = 5;
  };
  claim_data = 6;
}

abbrev burns : BurnState
burns = record {
  burn_proofs =
      burn_row 1 BurnProofStatus.pending_merkle
      ∷ burn_row 2 BurnProofStatus.pending_merkle
      ∷ burn_row 3 BurnProofStatus.complete
      ∷ [];
  files = record { name_key = 23; name_commitment = 13; content = claim } ∷ [];
}

process_pending_proofs-fate_example :
    let s' = process_pending_proofs burn_worker burns in
    (s'.burn_proofs ≡ map (fate burn_worker) burns.burn_proofs)
    × All (HasFile s'.files) s'.burn_proofs
process_pending_proofs-fate_example =
    process_pending_proofs-fate burn_worker burns (refl, (refl, (refl, tt)))
      (λ e. absurd (cc), (λ e. absurd (cc), (λ _. refl, tt)))

fates :
    map (fate burn_worker) burns.burn_proofs
    ≡ burn_row 1 BurnProofStatus.pending_merkle
      ∷ burn_row 2 BurnProofStatus.complete
      ∷ burn_row 3 BurnProofStatus.complete
      ∷ []
unfolding assemble_complete_proof
fates = refl

abbrev burn_table : BurnTable
burn_table = record { rows = burns.burn_proofs; next_id = 4 }

insert_burn_proof-get_example :
    ((r : DbBurnProof) × (get_burn_proof_by_output_hash 4 burn_table.rows ≡ some r)
      × (insert_burn_proof 97 (burnt 4) burn_table ≡ err constraint_violation))
    ⊎ ((t' : BurnTable) × (get_burn_proof_by_output_hash 4 burn_table.rows ≡ none)
        × (insert_burn_proof 97 (burnt 4) burn_table ≡ ok (4, t'))
        × IsInserted burn_worker 97 (burnt 4) burns.files burn_table t')
insert_burn_proof-get_example =
    insert_burn_proof-get burn_worker 97 (burnt 4) burns.files burn_table (refl, (refl, (refl, tt)))
      (omega arith, (omega arith, (omega arith, tt)))
      (λ e. absurd (cc), (λ e. absurd (cc), (λ _. refl, tt)))
