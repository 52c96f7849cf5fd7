-- ===== src/Webhooks/Queue.antt =====
-- db/webhooks.rs: the queue of webhooks, with the columns that stand for the delivery of each.
use minotari_cli.Base.{
  Bool, List, Option, delete_where, leb, length, ltb, none, order_asc, select, take, update_where,
  ℕ, ◌&&◌, ◌==◌,
}
use minotari_cli.Db.Tables.{WebhookRow}
use minotari_cli.Models.WebhookStatus.{WebhookStatus, is_retryable}
use minotari_cli.Webhooks.Sender.{DeliveryError}

-- `WebhookQueueItem`, beside the columns that are set when it is queued
pub record WebhookQueueItem : Type 0 where
  pub queued : WebhookRow
  pub open queued use *
  pub status : WebhookStatus
  pub attempt_count : ℕ
  pub next_retry_at : ℕ
  pub created_at : ℕ
  pub last_error : Option DeliveryError

-- the columns of the delivery as `enqueue_webhook` sets them
abbrev pub new_item : ℕ → WebhookRow → WebhookQueueItem
new_item now row = record {
  queued = row;
  status = WebhookStatus.pending;
  attempt_count = 0;
  next_retry_at = now;
  created_at = now;
  last_error = none;
}

abbrev pub is_due : ℕ → WebhookQueueItem → Bool
is_due now i = is_retryable i.status && leb i.next_retry_at now

unfoldable pub fetch_due_webhooks : ℕ → ℕ → List WebhookQueueItem → List WebhookQueueItem
fetch_due_webhooks now limit q =
    take limit (order_asc (λ i. i.next_retry_at) (select (is_due now) q))

abbrev pub delivery_tried :
    WebhookStatus → ℕ → ℕ → Option DeliveryError → WebhookQueueItem → WebhookQueueItem
delivery_tried status attempts next error i = record i {
  status = status;
  attempt_count = attempts;
  next_retry_at = next;
  last_error = error;
}

unfoldable pub update_webhook_status :
    ℕ → WebhookStatus → ℕ → ℕ → Option DeliveryError → List WebhookQueueItem → List WebhookQueueItem
update_webhook_status id status attempts next error q =
    update_where (λ i. i.id == id) (delivery_tried status attempts next error) q

-- the number of webhooks deleted, and the queue
unfoldable pub delete_webhooks_older_than : ℕ → List WebhookQueueItem → ℕ × List WebhookQueueItem
delete_webhooks_older_than timestamp q = (
  length (select (λ i. ltb i.created_at timestamp) q),
  delete_where (λ i. ltb i.created_at timestamp) q,
)
