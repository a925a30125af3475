-- ===== src/Coordinator/Schedule.antt =====
-- `BatchScheduler` of backend/coordinator/src/batch_scheduler.rs. Times are seconds since the epoch
-- as u64, whose sums and products wrap; the clock is an argument.
pub mod Windows
use blindmarkets.Base.{ℕ, ◌+◌, ◌-◌, ◌*◌, ◌/◌, ◌%◌, ◌^◌, ltb, if◌then◌else◌}
use blindmarkets.Coordinator.Config.{CoordinatorConfig}

pub record BatchScheduler : Type 0 where
  pub genesis_timestamp : ℕ
  pub batch_window_seconds : ℕ

abbrev pub wrap_u64 : ℕ → ℕ
wrap_u64 n = n % 2 ^ 64

unfoldable pub new : CoordinatorConfig → BatchScheduler
new c = record {
  genesis_timestamp = c.genesis_timestamp;
  batch_window_seconds = c.batch_window_seconds;
}

module _ (s : BatchScheduler) where
  unfoldable pub compute_batch_id : ℕ → ℕ
  compute_batch_id timestamp = (timestamp - s.genesis_timestamp) / s.batch_window_seconds

  unfoldable pub compute_batch_close_time : ℕ → ℕ
  compute_batch_close_time batch_id =
      wrap_u64 (s.genesis_timestamp + wrap_u64 (batch_id * s.batch_window_seconds))

  -- The batch that is closed at a time, and its close time.
  unfoldable pub closed_batch_at_timestamp : ℕ → ℕ × ℕ
  unfolding compute_batch_id compute_batch_close_time
  closed_batch_at_timestamp timestamp =
      let active_batch = compute_batch_id timestamp in
      (active_batch - 1, compute_batch_close_time active_batch)

  unfoldable pub next_batch_close_time : ℕ → ℕ
  unfolding compute_batch_id compute_batch_close_time
  next_batch_close_time now = compute_batch_close_time (compute_batch_id now + 1)

  -- The clock is read twice: once for the close time, once for the difference.
  unfoldable pub time_until_next_batch : ℕ → ℕ → ℕ
  unfolding next_batch_close_time
  time_until_next_batch now later =
      let next_close = next_batch_close_time now in
      if ltb later next_close then next_close - later else 0
