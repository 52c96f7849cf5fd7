-- ===== src/Ledger/Frames.antt =====
-- The parts of rollback_from_height (minotari/src/scan/reorg.rs) that log events, cancel requests,
-- save payment references and trigger webhooks, seen from the ledger.
use minotari_cli.Base.{
  Bool-cases, List, Option, Option-cases, [], inl, inr, leb, length, map, none, refl, select, some,
  update_where, ℕ, ◌&&◌, ◌+◌, ◌==◌, ◌∙◌, ◌∷◌, ◌≡◌,
}
use minotari_cli.Db.CompletedTransactions.{is_mined_from}
use minotari_cli.Db.DisplayedTransactions.{
  displayed_from_height, mark_displayed_transactions_reorganized_and_return, reorganized_copy,
  write_displayed, write_reorganized,
}
use minotari_cli.Db.Events.{insert_wallet_event}
use minotari_cli.Db.PayrefHistory.{
  save_completed_rows, save_completed_transaction_payrefs_before_reorg, save_displayed_rows,
  save_displayed_transaction_payrefs_before_reorg, save_payref_history, save_payrefs,
}
use minotari_cli.Db.PendingTransactions.{cancel_pending_transactions_by_ids}
use minotari_cli.Db.Tables.{CompletedTransaction, Db, DisplayedRow}
use minotari_cli.Db.Webhooks.{
  WebhookTriggerConfig, enqueue_webhook, is_allowed, trigger_all, trigger_webhook_with_balance,
}
use minotari_cli.Ledger.Totals.{IsBalanced}
use minotari_cli.Models.{WalletEvent, WalletEventType, pending_transaction_cancelled, to_key_string}
use minotari_cli.Models.PendingTransactionStatus.{PendingTransactionStatus}
use minotari_cli.Scan.Reorg.{cancel_requests, event_of, log_events}

-- An operation that touches neither the ledger nor the outputs, the inputs, the scanned blocks and
-- the completed transactions.
pub record SameBooks (db db' : Db) : Type 0 where
  pub outs : db'.outputs ≡ db.outputs
  pub ins : db'.inputs ≡ db.inputs
  pub ledger : db'.balance_changes ≡ db.balance_changes
  pub next : db'.next_output_id ≡ db.next_output_id
  pub tips : db'.scanned_tip_blocks ≡ db.scanned_tip_blocks
  pub completed : db'.completed_transactions ≡ db.completed_transactions

pub SameBooks-trans : {a b c : Db} → SameBooks a b → SameBooks b c → SameBooks a c
SameBooks-trans p q = record {
  outs = q.outs ∙ p.outs;
  ins = q.ins ∙ p.ins;
  ledger = q.ledger ∙ p.ledger;
  next = q.next ∙ p.next;
  tips = q.tips ∙ p.tips;
  completed = q.completed ∙ p.completed;
}

pub IsBalanced-same : (b : ℕ) {db db' : Db} → SameBooks db db' → IsBalanced b db → IsBalanced b db'
IsBalanced-same b s h = rw (s.outs, s.ins, s.ledger) h

pub insert_wallet_event-SameBooks :
    (a : ℕ) (e : WalletEvent) (db : Db) → SameBooks db (insert_wallet_event a e db).1
unfolding insert_wallet_event
insert_wallet_event-SameBooks a e db = record {
  outs = refl;
  ins = refl;
  ledger = refl;
  next = refl;
  tips = refl;
  completed = refl;
}

pub log_events-SameBooks :
    (a : ℕ) (ts : List WalletEventType) (db : Db) → SameBooks db (log_events a ts db).1
unfolding log_events
log_events-SameBooks a [] db = record {
  outs = refl;
  ins = refl;
  ledger = refl;
  next = refl;
  tips = refl;
  completed = refl;
}
log_events-SameBooks a (t ∷ ts) db =
    let db' = (insert_wallet_event a (event_of a t) db).1 in
    SameBooks-trans (insert_wallet_event-SameBooks a (event_of a t) db)
      (log_events-SameBooks a ts db')

pub cancel_requests-SameBooks :
    (a : ℕ) (rs : List ℕ) (db : Db) → SameBooks db (cancel_requests a rs db).1
unfolding cancel_requests cancel_pending_transactions_by_ids
cancel_requests-SameBooks a [] db = record {
  outs = refl;
  ins = refl;
  ledger = refl;
  next = refl;
  tips = refl;
  completed = refl;
}
cancel_requests-SameBooks a (r ∷ rs) db = SameBooks-trans (cancel-SameBooks (r ∷ rs) db) (
    log_events-SameBooks a (map pending_transaction_cancelled (r ∷ rs))
      (cancel_pending_transactions_by_ids (r ∷ rs) PendingTransactionStatus.cancelled db))
  where
    cancel-SameBooks :
        (ks : List ℕ) (d : Db)
        → SameBooks d (cancel_pending_transactions_by_ids ks PendingTransactionStatus.cancelled d)
    cancel-SameBooks [] d = record {
      outs = refl;
      ins = refl;
      ledger = refl;
      next = refl;
      tips = refl;
      completed = refl;
    }
    cancel-SameBooks (k ∷ ks) d = record {
      outs = refl;
      ins = refl;
      ledger = refl;
      next = refl;
      tips = refl;
      completed = refl;
    }

save_payref-SameBooks :
    (a t p : ℕ) (h : Option ℕ) (db : Db) → SameBooks db (save_payref_history a t p h db)
unfolding save_payref_history
save_payref-SameBooks a t p h db = record {
  outs = refl;
  ins = refl;
  ledger = refl;
  next = refl;
  tips = refl;
  completed = refl;
}

save_payrefs-SameBooks : (a t : ℕ) (ps : List ℕ) (db : Db) → SameBooks db (save_payrefs a t ps db)
unfolding save_payrefs
save_payrefs-SameBooks a t [] db = record {
  outs = refl;
  ins = refl;
  ledger = refl;
  next = refl;
  tips = refl;
  completed = refl;
}
save_payrefs-SameBooks a t (p ∷ ps) db =
    SameBooks-trans (save_payref-SameBooks a t p none db)
      (save_payrefs-SameBooks a t ps (save_payref_history a t p none db))

save_displayed_rows-SameBooks :
    (a : ℕ) (rs : List DisplayedRow) (n : ℕ) (db : Db)
    → SameBooks db (save_displayed_rows a rs (n, db)).1
unfolding save_displayed_rows
save_displayed_rows-SameBooks a [] n db = record {
  outs = refl;
  ins = refl;
  ledger = refl;
  next = refl;
  tips = refl;
  completed = refl;
}
save_displayed_rows-SameBooks a (r ∷ rs) n db = elim (Option-cases r.payref) [
  | inl e ↦ rw (e, save_displayed_rows) (save_displayed_rows-SameBooks a rs n db)
  | inr (ps, e) ↦
      rw (e, save_displayed_rows)
        (SameBooks-trans (save_payrefs-SameBooks a r.id ps db)
          (save_displayed_rows-SameBooks a rs (n + length ps) (save_payrefs a r.id ps db)))
]

pub save_displayed-SameBooks :
    (a h : ℕ) (db : Db) → SameBooks db (save_displayed_transaction_payrefs_before_reorg a h db).1
unfolding save_displayed_transaction_payrefs_before_reorg
save_displayed-SameBooks a h db =
    save_displayed_rows-SameBooks a
      (select (λ r. (r.account_id == a) && leb h r.block_height) db.displayed_transactions) 0 db

save_completed_rows-SameBooks :
    (a : ℕ) (ts : List CompletedTransaction) (n : ℕ) (db : Db)
    → SameBooks db (save_completed_rows a ts (n, db)).1
unfolding save_completed_rows
save_completed_rows-SameBooks a [] n db = record {
  outs = refl;
  ins = refl;
  ledger = refl;
  next = refl;
  tips = refl;
  completed = refl;
}
save_completed_rows-SameBooks a (t ∷ ts) n db = elim (Option-cases t.sent_payref) [
  | inl e ↦ rw (e, save_completed_rows) (save_completed_rows-SameBooks a ts n db)
  | inr (p, e) ↦
      rw (e, save_completed_rows)
        (SameBooks-trans (save_payref-SameBooks a t.id p t.sent_output_hash db) (
          save_completed_rows-SameBooks a ts (n + 1)
            (save_payref_history a t.id p t.sent_output_hash db)))
]

pub save_completed-SameBooks :
    (a h : ℕ) (db : Db) → SameBooks db (save_completed_transaction_payrefs_before_reorg a h db).1
unfolding save_completed_transaction_payrefs_before_reorg
save_completed-SameBooks a h db =
    save_completed_rows-SameBooks a (select (is_mined_from a h) db.completed_transactions) 0 db

write_reorganized-SameBooks :
    (rs : List DisplayedRow) (db : Db) → SameBooks db (write_reorganized rs db)
unfolding write_reorganized
write_reorganized-SameBooks [] db = record {
  outs = refl;
  ins = refl;
  ledger = refl;
  next = refl;
  tips = refl;
  completed = refl;
}
write_reorganized-SameBooks (r ∷ rs) db =
    let mid : Db = record db {
      displayed_transactions =
          update_where (λ q. q.id == r.id) (write_displayed (reorganized_copy r))
            db.displayed_transactions;
    } in
    let step : SameBooks db mid = record {
      outs = refl;
      ins = refl;
      ledger = refl;
      next = refl;
      tips = refl;
      completed = refl;
    } in
    SameBooks-trans step (write_reorganized-SameBooks rs mid)

pub mark_reorganized-SameBooks :
    (a h : ℕ) (db : Db) → SameBooks db (mark_displayed_transactions_reorganized_and_return a h db).1
unfolding mark_displayed_transactions_reorganized_and_return
mark_reorganized-SameBooks a h db =
    write_reorganized-SameBooks (select (displayed_from_height a h) db.displayed_transactions) db

pub trigger_webhook-SameBooks :
    (a e : ℕ) (event : WalletEvent) (c : WebhookTriggerConfig) (db : Db)
    → SameBooks db (trigger_webhook_with_balance a e event c db)
unfolding trigger_webhook_with_balance enqueue_webhook
trigger_webhook-SameBooks a e event c db =
    elim (Bool-cases (is_allowed c.send_only_event_types (to_key_string event.event_type))) [
      | inl y ↦ rw y (record {
        outs = refl;
        ins = refl;
        ledger = refl;
        next = refl;
        tips = refl;
        completed = refl;
      })
      | inr n ↦ rw n (record {
        outs = refl;
        ins = refl;
        ledger = refl;
        next = refl;
        tips = refl;
        completed = refl;
      })
    ]

pub trigger_all-SameBooks :
    (a : ℕ) (c : Option WebhookTriggerConfig) (es : List (ℕ × WalletEvent)) (db : Db)
    → SameBooks db (trigger_all a c es db)
unfolding trigger_all
trigger_all-SameBooks a none es db = record {
  outs = refl;
  ins = refl;
  ledger = refl;
  next = refl;
  tips = refl;
  completed = refl;
}
trigger_all-SameBooks a (some c) [] db = record {
  outs = refl;
  ins = refl;
  ledger = refl;
  next = refl;
  tips = refl;
  completed = refl;
}
trigger_all-SameBooks a (some c) ((i, e) ∷ es) db =
    SameBooks-trans (trigger_webhook-SameBooks a i e c db)
      (trigger_all-SameBooks a (some c) es (trigger_webhook_with_balance a i e c db))
