-- ===== src/Webhooks/Worker.antt =====
-- webhooks/worker.rs: the worker that delivers the webhooks that are due.
use minotari_cli.Base.{
  Bool, List, Option, [], false, if◌then◌else◌, leb, length, min, none, some, true, ℕ, ◌*◌, ◌+◌,
  ◌-◌, ◌/◌, ◌^◌, ◌∷◌,
}
use minotari_cli.Models.WebhookStatus.{WebhookStatus}
use minotari_cli.Webhooks.Queue.{WebhookQueueItem, fetch_due_webhooks, update_webhook_status}
use minotari_cli.Webhooks.Sender.{DeliveryError, DeliveryResult, Http, send}

abbrev pub batch_size : ℕ
batch_size = 10

abbrev pub max_attempts : ℕ
max_attempts = 10

-- 24 hours
abbrev pub max_age : ℕ
max_age = 86400

-- The sender and its secret; for each webhook the times when it is sent and when its backoff is
-- computed, and the worker's two draws at random: a number up to a bound, and a coin.
pub record Worker : Type 0 where
  pub http : Http
  pub secret : ℕ
  pub sent_at : ℕ → ℕ
  pub clock : ℕ → ℕ
  pub gen_range : ℕ → ℕ → ℕ
  pub gen_bool : ℕ → Bool

-- 30 seconds, four times as long after each attempt, up to a day
unfoldable pub capped_seconds : ℕ → ℕ
capped_seconds attempt = min (30 * 4 ^ (attempt - 1)) max_age

-- the next time to try webhook `id`, and whether to stop; the attempts are counted from 1
unfoldable pub calculate_backoff : Worker → ℕ → ℕ → ℕ × Bool
calculate_backoff w id attempt =
    if leb max_attempts attempt then (w.clock id, true) else (w.clock id + final_seconds, false)
  where
    capped : ℕ
    capped = capped_seconds attempt

    jitter : ℕ
    jitter = w.gen_range id (capped / 10)

    final_seconds : ℕ
    final_seconds = if w.gen_bool id then capped + jitter else capped - jitter

-- the new status, the next time to try and the message after an attempt
unfoldable pub outcome_of :
    Worker → WebhookQueueItem → DeliveryResult → WebhookStatus × ℕ × Option DeliveryError
outcome_of w i DeliveryResult.success = (WebhookStatus.success, i.next_retry_at, none)
outcome_of w i (DeliveryResult.permanent_failure e) =
    (WebhookStatus.permanent_failure, i.next_retry_at, some e)
outcome_of w i (DeliveryResult.retryable_failure e) =
    let (next, stop) = calculate_backoff w i.id (i.attempt_count + 1) in
    (if stop then WebhookStatus.permanent_failure else WebhookStatus.failed, next, some e)

unfoldable pub process_item :
    Worker → WebhookQueueItem → List WebhookQueueItem → List WebhookQueueItem
process_item w i q =
    let (status, next, error) = outcome_of w i (send w.http w.secret (w.sent_at i.id) i.queued) in
    update_webhook_status i.id status (i.attempt_count + 1) next error q

unfoldable pub process_items :
    Worker → List WebhookQueueItem → List WebhookQueueItem → List WebhookQueueItem
process_items w [] q = q
process_items w (i ∷ is) q = process_items w is (process_item w i q)

unfoldable pub process_batch : Worker → ℕ → List WebhookQueueItem → List WebhookQueueItem
process_batch w now q = process_items w (fetch_due_webhooks now batch_size q) q

-- The loop of `run` over the ticks of its timer, each with the worker's parameters and the time of the
-- query: the number of deliveries, and the queue.
unfoldable pub run : List (Worker × ℕ) → List WebhookQueueItem → ℕ × List WebhookQueueItem
run [] q = (0, q)
run ((w, now) ∷ ticks) q =
    let (n, q') = run ticks (process_batch w now q) in
    (length (fetch_due_webhooks now batch_size q) + n, q')
