-- ===== src/Coordinator/Schedule/Windows.antt =====
-- The batches cut the time after the genesis into windows, and the gateway cuts it the same way.
use native.Mathlib.Nat.{div-add-mod, mod-lt, div-eq_of_lt-le, le-div_iff_mul-le}
use blindmarkets.Base.{
  ℕ, ◌+◌, ◌-◌, ◌*◌, ◌/◌, ◌^◌, ◌≤◌, ◌<◌, ◌≡◌, ap, ◌↔◌, some, to_decimal, to_decimal-injective, arith,
}
use blindmarkets.Gateway.Clock.{compute_current_batch_id, batch_number}
use blindmarkets.Coordinator.Schedule.{
  BatchScheduler, compute_batch_id, compute_batch_close_time, closed_batch_at_timestamp,
  next_batch_close_time, time_until_next_batch,
}

-- A quotient is fixed by the window that holds the number.
div_unique : (n w q : ℕ) → q * w ≤ n → n < q * w + w → n / w ≡ q
div_unique n w q low high = div-eq_of_lt-le w low (omega arith)

-- A time after the genesis lies in the window of its batch: from the close time of the batch before
-- it, to its own close time, that one excluded. Where no close time overflows.
pub compute_batch_id_window :
    (s : BatchScheduler) (t : ℕ)
    → 0 < s.batch_window_seconds
    → s.genesis_timestamp ≤ t
    → t + s.batch_window_seconds < 2 ^ 64
    → (compute_batch_close_time s (compute_batch_id s t) ≤ t)
      × (t < compute_batch_close_time s (compute_batch_id s t + 1))
unfolding compute_batch_id compute_batch_close_time
compute_batch_id_window s t positive past small = omega (
  arith,
  div-add-mod (t - s.genesis_timestamp) s.batch_window_seconds,
  mod-lt (t - s.genesis_timestamp) positive,
)

batch_window :
    (g w k clock : ℕ)
    → 0 < w
    → g ≤ clock
    → ((clock - g) / w ≡ k) ↔ ((g + (k + 1) * w ≤ clock + w) × (clock < g + (k + 1) * w))
batch_window g w k clock positive past = (
  λ e.
      omega
        (arith, div-add-mod (clock - g) w, mod-lt (clock - g) positive, ap (λ (t : ℕ). w * t) e),
  λ h. div_unique (clock - g) w k (omega arith) (omega arith),
)

-- The batch that is active from the second window on has a number of at least 1.
active-pos : (g w now : ℕ) → 0 < w → g + w ≤ now → (k : ℕ) × ((now - g) / w ≡ k + 1)
active-pos g w now positive second = ((now - g) / w - 1, omega (arith, at_least))
  where
    at_least : 1 ≤ (now - g) / w
    at_least = (le-div_iff_mul-le positive).1 (omega arith)

closed_close_time :
    (s : BatchScheduler) (now k : ℕ)
    → 0 < s.batch_window_seconds
    → s.genesis_timestamp ≤ now
    → now < 2 ^ 64
    → (now - s.genesis_timestamp) / s.batch_window_seconds ≡ k + 1
    → (compute_batch_close_time s (k + 1) ≡ s.genesis_timestamp + (k + 1) * s.batch_window_seconds)
      × (s.genesis_timestamp + (k + 1) * s.batch_window_seconds ≤ now)
unfolding compute_batch_close_time
closed_close_time s now k positive past small e = omega (
  arith,
  div-add-mod (now - s.genesis_timestamp) s.batch_window_seconds,
  ap (λ (t : ℕ). s.batch_window_seconds * t) e,
)

-- At a time in the second window or later: the batch that the coordinator closes ended at its close
-- time, not after now, and the gateway puts an intent into that batch exactly when its clock, past
-- the genesis, stands in the window before the close time.
pub closed_batch-compute_current_batch_id :
    (s : BatchScheduler) (now clock : ℕ)
    → 0 < s.batch_window_seconds
    → s.genesis_timestamp + s.batch_window_seconds ≤ now
    → now < 2 ^ 64
    → s.genesis_timestamp ≤ clock
    → let closed = closed_batch_at_timestamp s now in
      (closed.1 ≤ now)
      × ((compute_current_batch_id (some clock) s.genesis_timestamp s.batch_window_seconds
            ≡ to_decimal closed.0)
          ↔ ((closed.1 ≤ clock + s.batch_window_seconds) × (clock < closed.1)))
unfolding closed_batch_at_timestamp compute_current_batch_id batch_number
closed_batch-compute_current_batch_id s now clock positive second small past =
    let (k, e) = active-pos s.genesis_timestamp s.batch_window_seconds now positive second in
    let time = closed_close_time s now k positive (omega arith) small e in
    let window = batch_window s.genesis_timestamp s.batch_window_seconds k clock positive past in
    (
      ground (arith, e, time),
      (
        λ h. ground (arith, e, time, window.0 (to_decimal-injective _ k (ground (arith, e, h)))),
        λ h. ground (arith, e, time, window.1 (ground (arith, e, time, h))),
      ),
    )

next_close :
    (s : BatchScheduler) (now : ℕ)
    → 0 < s.batch_window_seconds
    → s.genesis_timestamp ≤ now
    → now + s.batch_window_seconds < 2 ^ 64
    → next_batch_close_time s now
      ≡ s.genesis_timestamp + (compute_batch_id s now + 1) * s.batch_window_seconds
unfolding next_batch_close_time
next_close s now positive past small = omega (
  arith,
  div-add-mod (now - s.genesis_timestamp) s.batch_window_seconds,
  mod-lt (now - s.genesis_timestamp) positive,
)

slept_until_close :
    (s : BatchScheduler) (now later woken : ℕ)
    → later + time_until_next_batch s now later ≤ woken
    → next_batch_close_time s now ≤ woken
unfolding time_until_next_batch
slept_until_close s now later woken slept = unfold next_batch_close_time in ground arith

-- Woken at the close time that it slept for, or less than a window after it, the coordinator closes
-- the batch that was current when it went to sleep, under that close time.
pub closed_batch-next_batch_close_time :
    (s : BatchScheduler) (now later woken : ℕ)
    → 0 < s.batch_window_seconds
    → s.genesis_timestamp ≤ now
    → now ≤ later
    → woken + s.batch_window_seconds < 2 ^ 64
    → later + time_until_next_batch s now later ≤ woken
    → woken < next_batch_close_time s now + s.batch_window_seconds
    → closed_batch_at_timestamp s woken ≡ (compute_batch_id s now, next_batch_close_time s now)
unfolding closed_batch_at_timestamp next_batch_close_time
closed_batch-next_batch_close_time s now later woken positive past order small slept soon =
    let q = compute_batch_id s now in
    let e = next_close s now positive past (omega arith) in
    let reached = slept_until_close s now later woken slept in
    let active =
      batch_window s.genesis_timestamp s.batch_window_seconds (q + 1) woken positive
        (omega arith) in
    ground (arith, active.1 (omega (arith, e, reached), omega (arith, e, reached)))
