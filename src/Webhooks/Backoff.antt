-- ===== src/Webhooks/Backoff.antt =====
-- How long the worker waits before the next attempt (`calculate_backoff` of webhooks/worker.rs).
use minotari_cli.Base.{
  Bool, Bool-cases, arith, false, if◌then◌else◌, inl, inr, leb, min, refl, true, ℕ, ◌*◌, ◌+◌, ◌-◌,
  ◌/◌, ◌<◌, ◌^◌, ◌≡◌, ◌≤◌, ◌⊎◌,
}
use minotari_cli.Webhooks.Worker.{Worker, calculate_backoff, capped_seconds, max_attempts}

around :
    (d j now : ℕ) (up : Bool)
    → j ≤ d / 10
    → (now + d - d / 10 ≤ now + (if up then d + j else d - j))
      × (now + (if up then d + j else d - j) ≤ now + d + d / 10)
around d j now true h = (omega (arith, h), omega (arith, h))
around d j now false h = (omega (arith, h), omega (arith, h))

-- After the attempt with number `attempt`, the worker either stops, where that was the tenth or a
-- later one; or it goes on, where it was an earlier one, and the next attempt is due a tenth of the
-- base delay around that delay, which is 30 seconds, four times as long after each attempt, and a
-- day at most. The draw at random stays in its range.
pub calculate_backoff-capped :
    (w : Worker) (id attempt : ℕ)
    → ((k : ℕ) → w.gen_range id k ≤ k)
    → let (next, stop) = calculate_backoff w id attempt in
      let delay = min (30 * 4 ^ (attempt - 1)) 86400 in
      ((10 ≤ attempt) × (stop ≡ true))
      ⊎ ((attempt < 10)
          × (stop ≡ false)
          × (w.clock id + delay - delay / 10 ≤ next)
          × (next ≤ w.clock id + delay + delay / 10))
unfolding calculate_backoff capped_seconds
calculate_backoff-capped w id attempt r =
    let d = capped_seconds attempt in
    elim (Bool-cases (leb max_attempts attempt)) [
      | inl y ↦ rw y (inl (ground (arith, y), refl))
      | inr n ↦
          let (lo, hi) =
            around d (w.gen_range id (d / 10)) (w.clock id) (w.gen_bool id) (r (d / 10)) in
          rw n (inr (ground (arith, n), refl, lo, hi))
    ]
