-- ===== src/Webhooks/Delivery.antt =====
-- What the webhook worker (`process_item` of webhooks/worker.rs) does to one webhook.
use minotari_cli.Base.{
  All, AreOwn, Bool-cases, List, arith, if◌then◌else◌, inl, inr, leb, none, refl, some, true, ℕ,
  ◌+◌, ◌-◌, ◌<◌, ◌≡◌, ◌≤◌,
}
use minotari_cli.Models.WebhookStatus.{WebhookStatus, is_retryable}
use minotari_cli.Webhooks.Queue.{WebhookQueueItem, delivery_tried}
use minotari_cli.Webhooks.Sender.{DeliveryError, DeliveryResult, send}
use minotari_cli.Webhooks.Worker.{Worker, calculate_backoff, max_attempts, outcome_of}

-- The fate of one webhook in a batch.
pub data Delivers (i : WebhookQueueItem) : WebhookQueueItem → Type 0 where
  rests : Delivers i i
  delivered :
      is_retryable i.status ≡ true
      → Delivers i
          (delivery_tried WebhookStatus.success (i.attempt_count + 1) i.next_retry_at none i)
  fails :
      (next : ℕ) (e : DeliveryError)
      → is_retryable i.status ≡ true
      → i.attempt_count + 1 < max_attempts
      → Delivers i (delivery_tried WebhookStatus.failed (i.attempt_count + 1) next (some e) i)
  is_given_up :
      (next : ℕ) (e : DeliveryError)
      → is_retryable i.status ≡ true
      → Delivers i
          (delivery_tried WebhookStatus.permanent_failure (i.attempt_count + 1) next (some e) i)

pub Delivers-id : (i i' : WebhookQueueItem) → Delivers i i' → i'.id ≡ i.id
Delivers-id i _ Delivers.rests = refl
Delivers-id i _ (Delivers.delivered _) = refl
Delivers-id i _ (Delivers.fails _ _ _ _) = refl
Delivers-id i _ (Delivers.is_given_up _ _ _) = refl

-- how many attempts a webhook may still cost
abbrev pub tries_left : WebhookQueueItem → ℕ
tries_left i = if is_retryable i.status then max_attempts - i.attempt_count else 0

-- A webhook to try has been tried fewer than ten times, any other at most ten times.
abbrev pub IsTried : WebhookQueueItem → Type 0
IsTried i = i.attempt_count + (if is_retryable i.status then 1 else 0) ≤ max_attempts

pub record IsQueue (q : List WebhookQueueItem) : Type 0 where
  pub own : AreOwn (λ i. i.id) q
  pub tried : All IsTried q

-- what `process_item` writes into the row
abbrev pub written : Worker → WebhookQueueItem → WebhookQueueItem → WebhookQueueItem
written w i =
    let (status, next, error) = outcome_of w i (send w.http w.secret (w.sent_at i.id) i.queued) in
    delivery_tried status (i.attempt_count + 1) next error

pub outcome_of-Delivers :
    (w : Worker) (i : WebhookQueueItem) (r : DeliveryResult)
    → is_retryable i.status ≡ true
    → let (status, next, error) = outcome_of w i r in
      Delivers i (delivery_tried status (i.attempt_count + 1) next error i)
unfolding outcome_of calculate_backoff
outcome_of-Delivers w i DeliveryResult.success h = Delivers.delivered h
outcome_of-Delivers w i (DeliveryResult.permanent_failure e) h =
    Delivers.is_given_up i.next_retry_at e h
outcome_of-Delivers w i (DeliveryResult.retryable_failure e) h =
    elim (Bool-cases (leb max_attempts (i.attempt_count + 1))) [
      | inl y ↦ rw y (Delivers.is_given_up _ e h)
      | inr n ↦ rw n (Delivers.fails _ e h (ground (arith, n)))
    ]

-- an attempt uses up one of the tries
pub Delivers-tries_left :
    (i i' : WebhookQueueItem)
    → Delivers i i'
    → is_retryable i.status ≡ true
    → IsTried i
    → i'.attempt_count ≡ i.attempt_count + 1
    → tries_left i' + 1 ≤ tries_left i
Delivers-tries_left i _ Delivers.rests h t e = omega (arith, e)
Delivers-tries_left i _ (Delivers.delivered _) h t _ = ground (arith, h, t)
Delivers-tries_left i _ (Delivers.fails next e _ l) h t _ = ground (arith, h, t, l)
Delivers-tries_left i _ (Delivers.is_given_up next e _) h t _ = ground (arith, h, t)

pub Delivers-IsTried : (i i' : WebhookQueueItem) → Delivers i i' → IsTried i → IsTried i'
Delivers-IsTried i _ Delivers.rests t = t
Delivers-IsTried i _ (Delivers.delivered h) t = ground (arith, h, t)
Delivers-IsTried i _ (Delivers.fails next e _ l) t = omega (arith, l)
Delivers-IsTried i _ (Delivers.is_given_up next e h) t = ground (arith, h, t)
