-- ===== src/Examples/Webhooks.antt =====
-- A queue of two webhooks, one new and one that has failed nine times, and a receiver that refuses
-- every other request.
use minotari_cli.Base.{
  List, Pairwise, [], arith, false, min, refl, some, sum, true, ℕ, ◌*◌, ◌+◌, ◌-◌, ◌/◌, ◌<◌, ◌^◌,
  ◌∷◌, ◌≡◌, ◌≤◌, ◌⊎◌,
}
use minotari_cli.Db.Tables.{WebhookRow}
use minotari_cli.Models.{transaction_confirmed}
use minotari_cli.Models.WebhookStatus.{WebhookStatus}
use minotari_cli.Webhooks.Backoff.{calculate_backoff-capped}
use minotari_cli.Webhooks.Batches.{process_batch-Delivers, run-tries_left}
use minotari_cli.Webhooks.Delivery.{Delivers, IsQueue, tries_left}
use minotari_cli.Webhooks.Queue.{WebhookQueueItem, delivery_tried, new_item}
use minotari_cli.Webhooks.Sender.{server_error}
use minotari_cli.Webhooks.Worker.{Worker, calculate_backoff, process_batch, run}

abbrev posted : ℕ → WebhookRow
posted id = record {
  id = id;
  event_id = some id;
  event_type = transaction_confirmed id 10 20;
  balance = record { available = 5; pending_incoming = 0; pending_outgoing = 0 };
  target_url = "https://example.com/hook";
}

abbrev queue : List WebhookQueueItem
queue =
    new_item 100 (posted 1)
    ∷ delivery_tried WebhookStatus.failed 9 300 (some (server_error 500)) (new_item 90 (posted 2))
    ∷ []

abbrev worker : Worker
worker = record {
  http = record {
    sign_payload = λ secret now row. some row.id;
    post = λ url signature now row. some (record { code = 503; body = 0 });
  };
  secret = 1;
  sent_at = λ id. 400;
  clock = λ id. 401;
  gen_range = λ id k. k;
  gen_bool = λ id. false;
}

queue-IsQueue : IsQueue queue
queue-IsQueue = record { own = (refl, (refl, tt)); tried = (omega arith, (omega arith, tt)) }

calculate_backoff-capped_example :
    let (next, stop) = calculate_backoff worker 1 3 in
    let delay = min (30 * 4 ^ (3 - 1)) 86400 in
    ((10 ≤ 3) × (stop ≡ true))
    ⊎ ((3 < 10)
        × (stop ≡ false)
        × (worker.clock 1 + delay - delay / 10 ≤ next)
        × (next ≤ worker.clock 1 + delay + delay / 10))
calculate_backoff-capped_example = calculate_backoff-capped worker 1 3 (λ k. omega arith)

process_batch-Delivers_example :
    Pairwise Delivers queue (process_batch worker 400 queue)
    × IsQueue (process_batch worker 400 queue)
process_batch-Delivers_example = process_batch-Delivers worker 400 queue queue-IsQueue

run-tries_left_example :
    let (deliveries, q') = run ((worker, 400) ∷ (worker, 430) ∷ []) queue in
    sum tries_left q' + deliveries ≤ sum tries_left queue
run-tries_left_example = run-tries_left ((worker, 400) ∷ (worker, 430) ∷ []) queue queue-IsQueue
