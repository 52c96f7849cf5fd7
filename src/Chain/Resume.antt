-- ===== src/Chain/Resume.antt =====
-- handle_reorgs of minotari/src/scan/reorg.rs: its result and the database.
use minotari_cli.Base.{
  Bool, List, OnOk, OnOk->>=, Option, Result, [], any, ap, false, inl, inr, leb, none, not, of_ok,
  ok, order_desc, refl, select, sym, transport, true, ℕ, ◌&&◌, ◌+◌, ◌==◌, ◌∙◌, ◌∷◌, ◌≡◌, ◌⊎◌,
}
use minotari_cli.Chain.Fork.{
  IsSearch, agrees, fork, fork-agrees, fork-none_above, fork-reached, scan_tips_lem,
}
use minotari_cli.Chain.Sorted.{any-order_desc, any-select, order_desc-AreDescending}
use minotari_cli.Db.ScannedTipBlocks.{get_scanned_tip_blocks_by_account}
use minotari_cli.Db.Tables.{Db, ScannedTipBlock}
use minotari_cli.Db.Webhooks.{WebhookTriggerConfig}
use minotari_cli.Ledger.RollbackSound.{rollback_from_height-IsConsistent}
use minotari_cli.Ledger.Sound.{IsConsistent}
use minotari_cli.Scan.Reorg.{ReorgResult, handle_reorgs, rollback_from_height, scan_tips, settle}

-- a scanned block of account `a`, at height `s` or above, or right below `s`, that the node has
abbrev pub has_agreed_from : (ℕ → Result (Option ℕ)) → ℕ → Db → ℕ → Bool
has_agreed_from header a db s =
    any (λ b. (b.account_id == a) && (leb s b.height && agrees header b)) db.scanned_tip_blocks

abbrev pub has_agreed_below : (ℕ → Result (Option ℕ)) → ℕ → Db → ℕ → Bool
has_agreed_below header a db s =
    any (λ b. (b.account_id == a) && (((b.height + 1) == s) && agrees header b))
      db.scanned_tip_blocks

-- `s` is the height after the highest of the account's blocks that the node has, 0 without any.
abbrev pub IsFork : (ℕ → Result (Option ℕ)) → ℕ → Db → ℕ → Type 0
IsFork header a db s =
    (has_agreed_from header a db s ≡ false) × ((s ≡ 0) ⊎ (has_agreed_below header a db s ≡ true))

fork-IsFork :
    (header : ℕ → Result (Option ℕ)) (a : ℕ) (db : Db)
    → IsFork header a db (fork header (get_scanned_tip_blocks_by_account a db))
unfolding get_scanned_tip_blocks_by_account
fork-IsFork header a db =
    let rows = select (λ (b : ScannedTipBlock). b.account_id == a) db.scanned_tip_blocks in
    let sorted = order_desc (λ (b : ScannedTipBlock). b.height) rows in
    let s = fork header sorted in
    (
      sym (
            any-order_desc (λ b. leb s b.height && agrees header b) (λ b. b.height) rows
            ∙ any-select (λ b. leb s b.height && agrees header b) _ db.scanned_tip_blocks)
          ∙ fork-none_above header sorted
              (order_desc-AreDescending (λ (b : ScannedTipBlock). b.height) rows),
      elim (fork-reached header sorted) [
        | inl z ↦ inl z
        | inr e ↦ inr (
            sym (
              any-order_desc (λ b. ((b.height + 1) == s) && agrees header b) (λ b. b.height) rows
              ∙ any-select (λ b. ((b.height + 1) == s) && agrees header b) _ db.scanned_tip_blocks)
            ∙ e)
      ],
    )

-- the database is left alone, or rolled back from the height that the scan resumes at
record IsSettled (header : ℕ → Result (Option ℕ)) (now a : ℕ)
    (webhook : Option WebhookTriggerConfig) (db : Db) (r : ReorgResult) (db' : Db) : Type 0 where
  pub resumes : r.resume_height ≡ fork header (get_scanned_tip_blocks_by_account a db)
  pub rolls_back :
      ((r.reorg_information ≡ none) × (db' ≡ db))
      ⊎ (db' ≡ (rollback_from_height now a r.resume_height webhook db).1)

settle-IsSettled :
    (header : ℕ → Result (Option ℕ)) (now a : ℕ) (webhook : Option WebhookTriggerConfig) (db : Db)
    (top : ScannedTipBlock) (rest : List ScannedTipBlock) (s : ℕ) (d : Bool)
    → get_scanned_tip_blocks_by_account a db ≡ top ∷ rest
    → IsSearch header (top ∷ rest) false (s, d)
    → let r = settle now a top.height webhook (s, d) db in IsSettled header now a webhook db r.0 r.1
unfolding settle IsSearch
settle-IsSettled header now a webhook db top rest s true e (q, v) = record {
  resumes = rw e q;
  rolls_back = inr refl;
}
settle-IsSettled header now a webhook db top rest s false e (q, v) = record {
  resumes = rw e (sym (fork-agrees header top rest (starts v)));
  rolls_back = inl (refl, refl);
}
  where
    starts : {c : Bool} → false ≡ not c → c ≡ true
    starts {c = true} h = refl
    starts {c = false} h = h

handle_reorgs-IsSettled :
    (header : ℕ → Result (Option ℕ)) (now a : ℕ) (webhook : Option WebhookTriggerConfig) (db : Db)
    → OnOk (λ r. IsSettled header now a webhook db r.0 r.1) (handle_reorgs header now a webhook db)
unfolding handle_reorgs
handle_reorgs-IsSettled header now a webhook db =
    elim (List-cases (get_scanned_tip_blocks_by_account a db)) [
      | inl e ↦
          rw (e, handle_reorgs) (record { resumes = rw e refl; rolls_back = inl (refl, refl) })
      | inr (top, rest, e) ↦
          rw (e, handle_reorgs)
            (OnOk->>= (IsSearch header (top ∷ rest) false)
              (λ (r : ReorgResult × Db). IsSettled header now a webhook db r.0 r.1)
              (scan_tips header (top ∷ rest) false) _ (scan_tips_lem header (top ∷ rest) false)
              (λ (s, d) q. settle-IsSettled header now a webhook db top rest s d e q))
    ]
  where
    List-cases :
        (bs : List ScannedTipBlock)
        → (bs ≡ []) ⊎ ((t : ScannedTipBlock) × (r : List ScannedTipBlock) × (bs ≡ t ∷ r))
    List-cases [] = inl refl
    List-cases (t ∷ r) = inr (t, r, refl)

-- When the check for a reorganisation of account `a` succeeds, the scan resumes right after the
-- highest scanned block of the account that the node has too, or at 0 if there is none; and the
-- database is as it was, without a report, or rolled back from exactly that height.
pub handle_reorgs-IsFork :
    (header : ℕ → Result (Option ℕ)) (now a : ℕ) (webhook : Option WebhookTriggerConfig)
    (db db' : Db) (r : ReorgResult)
    → handle_reorgs header now a webhook db ≡ ok (r, db')
    → IsFork header a db r.resume_height
      × (((r.reorg_information ≡ none) × (db' ≡ db))
          ⊎ (db' ≡ (rollback_from_height now a r.resume_height webhook db).1))
handle_reorgs-IsFork header now a webhook db db' r e =
    let q : IsSettled header now a webhook db r db' =
      of_ok (λ r. IsSettled header now a webhook db r.0 r.1) _
        (handle_reorgs-IsSettled header now a webhook db) e in
    (transport (ap (IsFork header a db) (sym q.resumes)) (fork-IsFork header a db), q.rolls_back)

-- A successful check for a reorganisation keeps the database consistent.
pub handle_reorgs-IsConsistent :
    (b : ℕ) (header : ℕ → Result (Option ℕ)) (now a : ℕ) (webhook : Option WebhookTriggerConfig)
    (db db' : Db) (r : ReorgResult)
    → IsConsistent b db
    → handle_reorgs header now a webhook db ≡ ok (r, db')
    → IsConsistent b db'
handle_reorgs-IsConsistent b header now a webhook db db' r c e =
    elim (handle_reorgs-IsFork header now a webhook db db' r e).1 [
      | inl (_, same) ↦ transport (ap (IsConsistent b) (sym same)) c
      | inr rolled ↦
          transport (ap (IsConsistent b) (sym rolled))
            (rollback_from_height-IsConsistent b now a r.resume_height webhook db c)
    ]
