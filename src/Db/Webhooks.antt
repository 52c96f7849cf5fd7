-- ===== src/Db/Webhooks.antt =====
-- webhooks/utils.rs and the enqueueing of db/webhooks.rs: an event on its way to a webhook, with a
-- snapshot of the balance.
use text.Mathlib.Text.{◌==◌ as str_eq}
use minotari_cli.Base.{
  Bool, List, Option, String, [], any, if◌then◌else◌, none, some, suc, true, ℕ, ◌++◌, ◌∷◌,
}
use minotari_cli.Db.Balance.{get_balance}
use minotari_cli.Db.Tables.{Db, WebhookBalanceSnapshot}
use minotari_cli.Models.{WalletEvent, WalletEventType, to_key_string}

-- `WebhookTriggerConfig`
pub record WebhookTriggerConfig : Type 0 where
  pub url : String
  pub send_only_event_types : Option (List String)

-- an empty list of allowed types allows all
unfoldable pub is_allowed : Option (List String) → String → Bool
is_allowed none key = true
is_allowed (some []) key = true
is_allowed (some (s ∷ ss)) key = any (λ t. str_eq t key) (s ∷ ss)

unfoldable pub enqueue_webhook :
    Option ℕ → WalletEventType → WebhookBalanceSnapshot → String → Db → Db
enqueue_webhook event_id event_type balance url db = record db {
  webhook_queue =
      db.webhook_queue
      ++ record {
        id = db.next_webhook_id;
        event_id = event_id;
        event_type = event_type;
        balance = balance;
        target_url = url;
      }
        ∷ [];
  next_webhook_id = suc db.next_webhook_id;
}

unfoldable pub trigger_webhook_with_balance : ℕ → ℕ → WalletEvent → WebhookTriggerConfig → Db → Db
unfolding is_allowed
trigger_webhook_with_balance account event_id event config db =
    if is_allowed config.send_only_event_types (to_key_string event.event_type)
    then enqueue_webhook (some event_id) event.event_type snapshot config.url db
    else db
  where
    snapshot : WebhookBalanceSnapshot
    snapshot =
        let balance = get_balance account db in
        record {
          available = balance.available;
          pending_incoming = balance.unconfirmed;
          pending_outgoing = balance.locked;
        }

-- the loop that triggers a webhook for each of the events that a handler generated
unfoldable pub trigger_all : ℕ → Option WebhookTriggerConfig → List (ℕ × WalletEvent) → Db → Db
trigger_all account none events db = db
trigger_all account (some config) [] db = db
trigger_all account (some config) ((event_id, event) ∷ events) db =
    trigger_all account (some config) events
      (trigger_webhook_with_balance account event_id event config db)
