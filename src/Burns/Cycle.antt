-- ===== src/Burns/Cycle.antt =====
-- A cycle of the burn proof worker (`process_pending_proofs` of tasks/burn_proof_worker.rs).
use minotari_cli.Base.{
  All, All-order_asc, All-select, AreOwn, Bool, IsSnapshot, List, Result, [], ap, arith, err, false,
  if◌then◌else◌, is_listed, map, ok, own_rows, refl, select, sym, transport, true, ◌&&◌, ◌==◌,
  ◌>>=◌, ◌∙◌, ◌∷◌, ◌≡◌,
}
use minotari_cli.Burns.Fates.{HasFile, can_prove, fate, has_proof}
use minotari_cli.Burns.Rows.{
  IsBurnOf, any-order_asc, any-own, any-passing, done, map-cong, map-done, map-rest, rows_after,
  rows_after-HasFile, rows_after-IsBurnOf, rows_after-same,
}
use minotari_cli.Burns.Table.{
  DbBurnProof, completed_row, get_pending_burn_proofs, is_pending_merkle, mark_burn_proof_complete,
}
use minotari_cli.Burns.Worker.{
  BurnProofWorker, BurnState, CompleteClaimBurnProof, ProofFile, assemble_complete_proof,
  or_unchanged, process_pending_proofs, process_proofs, process_single_proof, write_proof_file,
}

-- what the processing of one row leaves
record IsStep (completed : Bool) (p : DbBurnProof) (s s' : BurnState) : Type 0 where
  rows_lem : s'.burn_proofs ≡ rows_after completed p s.burn_proofs
  stored :
      IsBurnOf s.burn_proofs p
      → All (HasFile s.files) s.burn_proofs
      → All (HasFile s'.files) s'.burn_proofs

unchanged_lem : (p : DbBurnProof) (s : BurnState) → IsStep false p s s
unchanged_lem p s = record { rows_lem = sym (rows_after-same p s.burn_proofs); stored = λ _ h. h }

abbrev file_of : DbBurnProof → CompleteClaimBurnProof → ProofFile
file_of p proof = record {
  name_key = p.burn.claim_public_key;
  name_commitment = p.burn.commitment;
  content = proof;
}

abbrev finished : DbBurnProof → BurnState → List ProofFile → Result BurnState
finished p s files = ok (record { burn_proofs = rows_after true p s.burn_proofs; files = files })

write-IsStep :
    (p : DbBurnProof) (s : BurnState) (proof : CompleteClaimBurnProof) (u : Result (Unit {0}))
    → IsStep
        (has_proof (u >>= λ _. ok proof))
        p
        s
        (or_unchanged s ((u >>= λ _. ok (file_of p proof ∷ s.files)) >>= finished p s))
write-IsStep p s proof (err _) = unchanged_lem p s
write-IsStep p s proof (ok _) = record {
  rows_lem = refl;
  stored = λ b h. rows_after-HasFile p (file_of p proof) s.files s.burn_proofs (ground arith) b h;
}

assemble-IsStep :
    (w : BurnProofWorker) (p : DbBurnProof) (s : BurnState) (m : Result CompleteClaimBurnProof)
    → IsStep (has_proof (m >>= λ proof. w.write (file_of p proof) >>= λ _. ok proof)) p s (
        or_unchanged s (
          m >>= λ proof.
          (w.write (file_of p proof) >>= λ _. ok (file_of p proof ∷ s.files)) >>= finished p s))
assemble-IsStep w p s (err _) = unchanged_lem p s
assemble-IsStep w p s (ok proof) = write-IsStep p s proof (w.write (file_of p proof))

single-IsStep :
    (w : BurnProofWorker) (p : DbBurnProof) (s : BurnState)
    → IsStep (can_prove w p) p s (or_unchanged s (process_single_proof w p s))
unfolding process_single_proof write_proof_file mark_burn_proof_complete
single-IsStep w p s =
    elim (w.get_kernel_merkle_proof p.burn.kernel_excess_nonce p.burn.kernel_excess_sig)
      as (λ m.
        IsStep
          (has_proof (do
            merkle ← m
            proof ← assemble_complete_proof w.decode p.burn merkle
            _ ← w.write (file_of p proof)
            ok proof))
          p s
          (or_unchanged s (do
            merkle ← m
            proof ← assemble_complete_proof w.decode p.burn merkle
            files ← (w.write (file_of p proof) >>= λ _. ok (file_of p proof ∷ s.files))
            finished p s files))) [
              | err _ ↦ unchanged_lem p s
              | ok merkle ↦ assemble-IsStep w p s (assemble_complete_proof w.decode p.burn merkle)
            ]

rows_after-burns :
    (b : Bool) (p : DbBurnProof) (ps rows : List DbBurnProof)
    → All (IsBurnOf rows) ps
    → All (IsBurnOf (rows_after b p rows)) ps
rows_after-burns b p [] rows _ = tt
rows_after-burns b p (q ∷ ps) rows (h, hs) =
    (rows_after-IsBurnOf b p q rows h, rows_after-burns b p ps rows hs)

process_proofs-done :
    (w : BurnProofWorker) (ps : List DbBurnProof) (s : BurnState)
    → All (IsBurnOf s.burn_proofs) ps
    → All (HasFile s.files) s.burn_proofs
    → let s' = process_proofs w ps s in
      (s'.burn_proofs ≡ map (done w ps) s.burn_proofs) × All (HasFile s'.files) s'.burn_proofs
unfolding process_proofs
process_proofs-done w [] s _ h = (map-rest s.burn_proofs w, h)
process_proofs-done w (p ∷ ps) s (b, bs) h =
    let st = single-IsStep w p s in
    let s1 = or_unchanged s (process_single_proof w p s) in
    let burns : All (IsBurnOf s1.burn_proofs) ps =
      transport (ap (λ rows. All (IsBurnOf rows) ps) (sym st.rows_lem))
        (rows_after-burns (can_prove w p) p ps s.burn_proofs bs) in
    let (rows, files) = process_proofs-done w ps s1 burns (st.stored b h) in
    (rows ∙ ap (map (done w ps)) st.rows_lem ∙ map-done w p ps s.burn_proofs, files)

-- the snapshots of a table are of the burns in it
IsSnapshot-IsBurnOf :
    (p : DbBurnProof) (rows : List DbBurnProof)
    → IsSnapshot (λ (r : DbBurnProof). r.id) rows p
    → IsBurnOf rows p
IsSnapshot-IsBurnOf p [] _ = tt
IsSnapshot-IsBurnOf p (r ∷ rows) (s, ss) =
    (λ e. ap (λ (x : DbBurnProof). x.burn) (s e), IsSnapshot-IsBurnOf p rows ss)

burns_of :
    (rows ps : List DbBurnProof)
    → All
        (λ (p : DbBurnProof).
          IsSnapshot (λ (r : DbBurnProof). r.id) rows p
          × (is_listed (λ (r : DbBurnProof). r.id) p.id rows ≡ true))
        ps
    → All (IsBurnOf rows) ps
burns_of rows [] _ = tt
burns_of rows (p ∷ ps) ((s, _), hs) = (IsSnapshot-IsBurnOf p rows s, burns_of rows ps hs)

done-fate :
    (w : BurnProofWorker) (rows ts : List DbBurnProof)
    → All
        (λ (t : DbBurnProof).
          IsSnapshot (λ (r : DbBurnProof). r.id) rows t
          × (is_listed (λ (r : DbBurnProof). r.id) t.id rows ≡ true))
        ts
    → All (λ t. done w (get_pending_burn_proofs rows) t ≡ fate w t) ts
unfolding get_pending_burn_proofs
done-fate w rows [] _ = tt
done-fate w rows (t ∷ ts) ((s, l), hs) = (
  ap (λ b. if b then completed_row t else t)
      (any-order_asc (λ p. (p.id == t.id) && can_prove w p) (λ r. r.created_at)
          (select (λ r. is_pending_merkle r.status) rows)
        ∙ any-passing (λ p. (p.id == t.id) && can_prove w p) (λ r. is_pending_merkle r.status) rows
        ∙ any-own (λ r. r.id) (λ r. is_pending_merkle r.status) (can_prove w) t rows s
        ∙ ap (λ b. b && (is_pending_merkle t.status && can_prove w t)) l),
  done-fate w rows ts hs,
)

-- After a cycle of the worker over a table with distinct ids, whatever the node, the decoding and the
-- file system answer for each row, every row is as it was, but that the pending ones whose proof can
-- be made and written are complete; and where every complete row had its file before, every complete
-- row has its file.
pub process_pending_proofs-fate :
    (w : BurnProofWorker) (s : BurnState)
    → AreOwn (λ (r : DbBurnProof). r.id) s.burn_proofs
    → All (HasFile s.files) s.burn_proofs
    → let s' = process_pending_proofs w s in
      (s'.burn_proofs ≡ map (fate w) s.burn_proofs) × All (HasFile s'.files) s'.burn_proofs
unfolding process_pending_proofs get_pending_burn_proofs
process_pending_proofs-fate w s o h =
    let own = own_rows (λ (r : DbBurnProof). r.id) s.burn_proofs o in
    let pending = select (λ (r : DbBurnProof). is_pending_merkle r.status) s.burn_proofs in
    let read =
      All-order_asc _ (λ (r : DbBurnProof). r.created_at) pending
        (All-select _ (λ (r : DbBurnProof). is_pending_merkle r.status) s.burn_proofs own) in
    let (rows, files) =
      process_proofs-done w (get_pending_burn_proofs s.burn_proofs) s
        (burns_of s.burn_proofs _ read) h in
    (rows ∙ map-cong _ (fate w) s.burn_proofs (done-fate w s.burn_proofs s.burn_proofs own), files)
