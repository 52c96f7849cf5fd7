-- ===== src/Webhooks/Batches.antt =====
-- Batches of the webhook worker, and its run (`process_batch` and `run` of webhooks/worker.rs), over
-- a queue.
use minotari_cli.Base.{
  All, All-order_asc, All-select, All-selected, All-take, AreOwn, AreOwn-order_asc, AreOwn-select,
  AreOwn-take, IsSnapshot, List, Pairwise, Turns, Turns-Pairwise, Turns-start, Turns-update_where,
  [], arith, first, is_listed, length, own_rows, refl, select, sum, sum-Turns, true, ℕ, ◌+◌, ◌∙◌,
  ◌∷◌, ◌≡◌, ◌≤◌,
}
use minotari_cli.Models.WebhookStatus.{is_retryable}
use minotari_cli.Webhooks.Delivery.{
  Delivers, Delivers-IsTried, Delivers-id, Delivers-tries_left, IsQueue, IsTried,
  outcome_of-Delivers, tries_left, written,
}
use minotari_cli.Webhooks.Queue.{
  WebhookQueueItem, fetch_due_webhooks, is_due, update_webhook_status,
}
use minotari_cli.Webhooks.Sender.{send}
use minotari_cli.Webhooks.Worker.{
  Worker, batch_size, process_batch, process_item, process_items, run,
}

-- a webhook that a batch has read: it stands in the queue, is to be tried, and has tries left
record IsFetched (q : List WebhookQueueItem) (i : WebhookQueueItem) : Type 0 where
  snapshot : IsSnapshot (λ i. i.id) q i
  listed : is_listed (λ i. i.id) i.id q ≡ true
  retryable : is_retryable i.status ≡ true
  tried : IsTried i

process_items-tries_left :
    (w : Worker) (is q₀ q : List WebhookQueueItem)
    → AreOwn (λ i. i.id) q₀
    → AreOwn (λ i. i.id) is
    → All (IsFetched q₀) is
    → Turns (λ i. i.id) Delivers is q₀ q
    → Pairwise Delivers q₀ (process_items w is q)
      × (sum tries_left (process_items w is q) + length is ≤ sum tries_left q)
unfolding process_items process_item update_webhook_status
process_items-tries_left w [] q₀ q u _ _ g =
    (Turns-Pairwise (λ i. i.id) Delivers [] q₀ q g, omega arith)
process_items-tries_left w (i ∷ is) q₀ q u (o, os) (f, fs) g =
    let move =
      outcome_of-Delivers w i (send w.http w.secret (w.sent_at i.id) i.queued) f.retryable in
    let next =
      Turns-update_where (λ i. i.id) Delivers Delivers-id i is q₀ q (written w i) o f.snapshot move
        g in
    let (moves, later) = process_items-tries_left w is q₀ (process_item w i q) u os fs next in
    (
      moves,
      omega (
        arith,
        later,
        sum-Turns (λ i. i.id) Delivers Delivers-id tries_left i is q₀ q (written w i) f.snapshot u
            f.listed g,
        Delivers-tries_left i (written w i i) move f.retryable f.tried refl,
      ),
    )

IsFetched-All :
    (q₀ is : List WebhookQueueItem)
    → All (λ i. IsSnapshot (λ i. i.id) q₀ i × (is_listed (λ i. i.id) i.id q₀ ≡ true)) is
    → All (λ i. IsTried i) is
    → (now : ℕ) → All (λ i. is_due now i ≡ true) is
    → All (IsFetched q₀) is
IsFetched-All q₀ [] _ _ now _ = tt
IsFetched-All q₀ (i ∷ is) ((s, l), h) (t, ts) now (d, ds) = (
  record { snapshot = s; listed = l; retryable = ground (arith, d); tried = t },
  IsFetched-All q₀ is h ts now ds,
)

fetch_due-IsFetched :
    (now n : ℕ) (q : List WebhookQueueItem)
    → IsQueue q
    → All (IsFetched q) (fetch_due_webhooks now n q)
unfolding fetch_due_webhooks
fetch_due-IsFetched now n q h = All-take _ n _ (
    All-order_asc _ (λ i. i.next_retry_at) (select (is_due now) q)
      (IsFetched-All q (select (is_due now) q)
        (All-select _ (is_due now) q (own_rows (λ i. i.id) q h.own))
        (All-select _ (is_due now) q h.tried) now (All-selected (is_due now) q)))

fetch_due-AreOwn :
    (now n : ℕ) (q : List WebhookQueueItem)
    → IsQueue q
    → AreOwn (λ i. i.id) (fetch_due_webhooks now n q)
unfolding fetch_due_webhooks
fetch_due-AreOwn now n q h =
    AreOwn-take (λ i. i.id) n _
      (AreOwn-order_asc (λ i. i.id) _ _ (AreOwn-select (λ i. i.id) _ q h.own))

batch-tries_left :
    (w : Worker) (now : ℕ) (q : List WebhookQueueItem)
    → IsQueue q
    → Pairwise Delivers q (process_batch w now q)
      × (sum tries_left (process_batch w now q) + length (fetch_due_webhooks now batch_size q)
          ≤ sum tries_left q)
unfolding process_batch
batch-tries_left w now q h =
    process_items-tries_left w (fetch_due_webhooks now batch_size q) q q h.own
      (fetch_due-AreOwn now batch_size q h) (fetch_due-IsFetched now batch_size q h)
      (Turns-start (λ i. i.id) Delivers (λ i. Delivers.rests) _ q)

is_listed-Delivers :
    (k : ℕ) (q q' : List WebhookQueueItem)
    → Pairwise Delivers q q'
    → is_listed (λ i. i.id) k q' ≡ is_listed (λ i. i.id) k q
is_listed-Delivers k _ _ Pairwise.no_pairs = refl
is_listed-Delivers k _ _ (Pairwise.pair i i' q q' d p) =
    ground (arith, Delivers-id i i' d, is_listed-Delivers k q q' p)

Delivers-IsQueue : (q q' : List WebhookQueueItem) → Pairwise Delivers q q' → IsQueue q → IsQueue q'
Delivers-IsQueue _ _ Pairwise.no_pairs h = h
Delivers-IsQueue _ _ (Pairwise.pair i i' q q' d p) h =
    let rest = Delivers-IsQueue q q' p (record { own = h.own.1; tried = h.tried.1 }) in
    record {
      own = (rw (Delivers-id i i' d) (is_listed-Delivers i.id q q' p ∙ h.own.0), rest.own);
      tried = (Delivers-IsTried i i' d h.tried.0, rest.tried);
    }

-- A batch of the worker, whatever the receivers answer, adds and removes no webhook of a queue with
-- distinct ids and attempts within their limit, and keeps the queue so. Each webhook rests as it is;
-- or, if it was pending or failed, it is counted as tried once more and is delivered, given up, or,
-- where fewer than ten attempts have been made, failed. One that is delivered or given up rests.
pub process_batch-Delivers :
    (w : Worker) (now : ℕ) (q : List WebhookQueueItem)
    → IsQueue q
    → Pairwise Delivers q (process_batch w now q) × IsQueue (process_batch w now q)
process_batch-Delivers w now q h =
    let (p, _) = batch-tries_left w now q h in (p, Delivers-IsQueue q (process_batch w now q) p h)

-- However long the worker runs, and whatever the receivers answer, it makes at most as many deliveries
-- as the webhooks of the queue have tries left: ten for a new one, fewer by the attempts made, and
-- none for one that is delivered or given up. What it makes is taken off the tries left afterwards.
-- The queue has distinct ids and attempts within their limit.
pub run-tries_left :
    (ticks : List (Worker × ℕ)) (q : List WebhookQueueItem)
    → IsQueue q
    → let (deliveries, q') = run ticks q in sum tries_left q' + deliveries ≤ sum tries_left q
unfolding run
run-tries_left [] q h = omega arith
run-tries_left ((w, now) ∷ ticks) q h =
    let (p, first) = batch-tries_left w now q h in
    omega (arith, first, run-tries_left ticks (process_batch w now q) (Delivers-IsQueue q _ p h))
