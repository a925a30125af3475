-- ===== src/Coordinator/Config.antt =====
-- backend/coordinator/src/config.rs.
pub mod Startup
use blindmarkets.Base.{ℕ, not, Text, ◌==◌}
use blindmarkets.Settings.{
  ConfigResult, ok, ◌>>=◌, ◌>>◌, Vars, var, u64_var, number_var, refuse_if, is_http, is_blank,
  bad_url, empty, zero_value,
}

pub record CoordinatorConfig : Type 0 where
  pub gateway_url : Text
  pub gateway_api_key_header : Text
  pub gateway_api_key : Text
  pub batch_window_seconds : ℕ
  pub genesis_timestamp : ℕ
  pub auction_wait_seconds : ℕ
  pub scheduler_tick_millis : ℕ

unfoldable pub from_env : Vars → ConfigResult CoordinatorConfig
unfolding number_var
from_env vars = do
  gateway_url ← var vars "GATEWAY_URL"
  gateway_api_key_header ← var vars "GATEWAY_API_KEY_HEADER"
  gateway_api_key ← var vars "GATEWAY_API_KEY"
  batch_window_seconds ← u64_var vars "BATCH_WINDOW_SECONDS"
  genesis_timestamp ← u64_var vars "GENESIS_TIMESTAMP"
  auction_wait_seconds ← u64_var vars "AUCTION_WAIT_SECONDS"
  scheduler_tick_millis ← u64_var vars "SCHEDULER_TICK_MILLIS"
  ok (record {
    gateway_url = gateway_url;
    gateway_api_key_header = gateway_api_key_header;
    gateway_api_key = gateway_api_key;
    batch_window_seconds = batch_window_seconds;
    genesis_timestamp = genesis_timestamp;
    auction_wait_seconds = auction_wait_seconds;
    scheduler_tick_millis = scheduler_tick_millis;
  })

unfoldable pub validate : CoordinatorConfig → ConfigResult (Unit {0})
validate c = do
  refuse_if (not (is_http c.gateway_url)) (bad_url "GATEWAY_URL")
  refuse_if (is_blank c.gateway_api_key_header) (empty "GATEWAY_API_KEY_HEADER")
  refuse_if (is_blank c.gateway_api_key) (empty "GATEWAY_API_KEY")
  refuse_if (c.batch_window_seconds == 0) (zero_value "BATCH_WINDOW_SECONDS")
  refuse_if (c.genesis_timestamp == 0) (zero_value "GENESIS_TIMESTAMP")
  refuse_if (c.auction_wait_seconds == 0) (zero_value "AUCTION_WAIT_SECONDS")
  refuse_if (c.scheduler_tick_millis == 0) (zero_value "SCHEDULER_TICK_MILLIS")
