-- ===== src/Gateway/Clock.antt =====
-- The batch clock of backend/gateway/src/api.rs. A reading of the clock is the seconds since the
-- epoch, or none where the clock stands before it. A u64 sum wraps.
use native.Mathlib.Nat.{div-add-mod, mod-lt}
use blindmarkets.Base.{
  ℕ, ◌+◌, ◌-◌, ◌*◌, ◌/◌, ◌%◌, ◌^◌, ◌≤◌, ◌<◌, Option, some, unwrap_or, Text, to_decimal, arith,
}

abbrev pub wrap_u64 : ℕ → ℕ
wrap_u64 n = n % 2 ^ 64

unfoldable pub batch_number : Option ℕ → ℕ → ℕ → ℕ
batch_number clock genesis_timestamp batch_window_seconds =
    (unwrap_or clock 0 - genesis_timestamp) / batch_window_seconds

unfoldable pub compute_current_batch_id : Option ℕ → ℕ → ℕ → Text
compute_current_batch_id clock genesis_timestamp batch_window_seconds =
    to_decimal (batch_number clock genesis_timestamp batch_window_seconds)

unfoldable pub compute_execution_time : Option ℕ → ℕ → ℕ → ℕ → ℕ
compute_execution_time clock genesis_timestamp batch_window_seconds execution_delay_seconds =
    let current_batch = batch_number clock genesis_timestamp batch_window_seconds in
    let next_batch_time =
      wrap_u64 (genesis_timestamp + wrap_u64 ((current_batch + 1) * batch_window_seconds)) in
    wrap_u64 (next_batch_time + execution_delay_seconds)

-- The estimate lies after the current window's end by the configured delay: later than the clock,
-- and by at most one window and the delay. Where no u64 sum overflows, and the genesis is past.
pub compute_execution_time_bounds :
    (now genesis window delay : ℕ)
    → 0 < window
    → genesis ≤ now
    → now + window + delay < 2 ^ 64
    → let time = compute_execution_time (some now) genesis window delay in
      (now + delay < time) × (time ≤ now + window + delay)
unfolding compute_execution_time batch_number
compute_execution_time_bounds now genesis window delay positive past small =
    omega (arith, div-add-mod (now - genesis) window, mod-lt (now - genesis) positive)
