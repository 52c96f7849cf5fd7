-- ===== src/Chain/Stable.antt =====
-- handle_reorgs of minotari/src/scan/reorg.rs, called twice.
use minotari_cli.Base.{
  Bool-cases, Option, Result, any, ap, arith, delete_where, inl, inr, leb, ltb, ok, sym, transport,
  true, ℕ, ◌&&◌, ◌+◌, ◌<◌, ◌==◌, ◌∙◌, ◌≡◌, ◌≤◌,
}
use minotari_cli.Chain.Fork.{agrees}
use minotari_cli.Chain.Resume.{IsFork, handle_reorgs-IsFork, has_agreed_below, has_agreed_from}
use minotari_cli.Chain.Sorted.{any-delete_where, any-imp}
use minotari_cli.Db.ScannedTipBlocks.{tip_from_height}
use minotari_cli.Db.Tables.{Db}
use minotari_cli.Db.Webhooks.{WebhookTriggerConfig}
use minotari_cli.Ledger.RolledBack.{rollback_from_height-rows}
use minotari_cli.Scan.Reorg.{ReorgResult, handle_reorgs}

from-of_below :
    (header : ℕ → Result (Option ℕ)) (a : ℕ) (db : Db) (s t : ℕ)
    → s < t
    → has_agreed_below header a db t ≡ true
    → has_agreed_from header a db s ≡ true
from-of_below header a db s t lt = any-imp _ _ db.scanned_tip_blocks (λ b e. ground (arith, e))

IsFork-le :
    (header : ℕ → Result (Option ℕ)) (a : ℕ) (db : Db) (s t : ℕ)
    → IsFork header a db s
    → IsFork header a db t
    → t ≤ s
IsFork-le header a db s t (none_s, _) (_, inl z) = omega arith
IsFork-le header a db s t (none_s, _) (_, inr e) = elim (Bool-cases (ltb s t)) [
  | inl y ↦ let lt : s < t = ground arith in let found = from-of_below header a db s t lt e in cc
  | inr n ↦ ground arith
]

IsFork-delete :
    (header : ℕ → Result (Option ℕ)) (a : ℕ) (db db' : Db) (s : ℕ)
    → db'.scanned_tip_blocks ≡ delete_where (tip_from_height a s) db.scanned_tip_blocks
    → IsFork header a db s
    → IsFork header a db' s
IsFork-delete header a db db' s tips (none_s, below) = (
  elim (Bool-cases (has_agreed_from header a db' s)) [
    | inr n ↦ n
    | inl y ↦
        let found =
          any-imp _ (λ b. (b.account_id == a) && (leb s b.height && agrees header b))
            db.scanned_tip_blocks (λ b e. ground (arith, e))
            (sym (any-delete_where _ (tip_from_height a s) db.scanned_tip_blocks)
              ∙ sym
                  (ap (any (λ b. (b.account_id == a) && (leb s b.height && agrees header b))) tips)
              ∙ y) in
        cc
  ],
  elim below [
    | inl z ↦ inl z
    | inr e ↦ inr (
        ap (any (λ b. (b.account_id == a) && (((b.height + 1) == s) && agrees header b))) tips
        ∙ any-delete_where _ (tip_from_height a s) db.scanned_tip_blocks
        ∙ any-imp (λ b. (b.account_id == a) && (((b.height + 1) == s) && agrees header b)) _
            db.scanned_tip_blocks (λ b h. ground (arith, h)) e)
  ],
)

-- A check for a reorganisation that follows another one, against the same chain, resumes at the
-- same height: the first one leaves nothing to find.
pub handle_reorgs-stable :
    (header : ℕ → Result (Option ℕ)) (now later a : ℕ) (webhook : Option WebhookTriggerConfig)
    (db db' db'' : Db) (r r' : ReorgResult)
    → handle_reorgs header now a webhook db ≡ ok (r, db')
    → handle_reorgs header later a webhook db' ≡ ok (r', db'')
    → r'.resume_height ≡ r.resume_height
handle_reorgs-stable header now later a webhook db db' db'' r r' e e' =
    let (f, effect) = handle_reorgs-IsFork header now a webhook db db' r e in
    let (f', _) = handle_reorgs-IsFork header later a webhook db' db'' r' e' in
    let kept : IsFork header a db' r.resume_height = elim effect [
      | inl (_, same) ↦ transport (ap (λ d. IsFork header a d r.resume_height) (sym same)) f
      | inr rolled ↦
          IsFork-delete header a db db' r.resume_height
            (ap (λ (d : Db). d.scanned_tip_blocks) rolled
              ∙ (rollback_from_height-rows now a r.resume_height webhook db).2)
            f
    ] in
    let le = IsFork-le header a db' r.resume_height r'.resume_height kept f' in
    let ge = IsFork-le header a db' r'.resume_height r.resume_height f' kept in omega arith
