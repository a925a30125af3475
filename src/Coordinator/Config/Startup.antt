-- ===== src/Coordinator/Config/Startup.antt =====
-- What the coordinator has made sure of when it starts its scheduler.
use blindmarkets.Base.{◌^◌, ◌<◌, ◌≡◌, arith}
use blindmarkets.Settings.{ok, Vars}
use blindmarkets.Settings.Reading.{IsRead, number_var-IsRead}
use blindmarkets.Coordinator.Config.{CoordinatorConfig, from_env, validate}

-- A coordinator that starts, as its settings were read and validated: the window, the genesis, the
-- wait for the auction and the tick are the numbers of their variables, all positive and below
-- 2 ^ 64.
pub from_env-validate :
    (vars : Vars) (c : CoordinatorConfig)
    → from_env vars ≡ ok c
    → validate c ≡ ok tt
    → (IsRead (2 ^ 64) vars "BATCH_WINDOW_SECONDS" c.batch_window_seconds
        × (0 < c.batch_window_seconds))
      × (IsRead (2 ^ 64) vars "GENESIS_TIMESTAMP" c.genesis_timestamp × (0 < c.genesis_timestamp))
      × (IsRead (2 ^ 64) vars "AUCTION_WAIT_SECONDS" c.auction_wait_seconds
          × (0 < c.auction_wait_seconds))
      × (IsRead (2 ^ 64) vars "SCHEDULER_TICK_MILLIS" c.scheduler_tick_millis
          × (0 < c.scheduler_tick_millis))
unfolding from_env validate
from_env-validate vars c h v = (
  (number_var-IsRead _ vars _ _ (ground arith), ground arith),
  (number_var-IsRead _ vars _ _ (ground arith), ground arith),
  (number_var-IsRead _ vars _ _ (ground arith), ground arith),
  (number_var-IsRead _ vars _ _ (ground arith), ground arith),
)
