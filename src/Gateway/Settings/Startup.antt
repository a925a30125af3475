-- ===== src/Gateway/Settings/Startup.antt =====
-- What the gateway has made sure of when it starts to serve.
use blindmarkets.Base.{◌^◌, ◌<◌, ◌≡◌, true, starts_with, codes, len, arith}
use blindmarkets.Settings.{ok, Vars}
use blindmarkets.Settings.Reading.{IsRead, number_var-IsRead}
use blindmarkets.Gateway.Types
use blindmarkets.Gateway.Settings.{
  ServerConfig, RateLimitConfig, IntentConfig, Config, server_from_env, rate_limit_from_env,
  intents_from_env, from_env, validate, handler_settings,
}

-- The numbers of the handlers' settings are those of their variables, and each that must not be
-- zero is not.
pub record IsServing (vars : Vars) (c : Types.Config) : Type 0 where
  pub window : IsRead (2 ^ 64) vars "BATCH_WINDOW_SECONDS" c.batch_window_seconds
  pub genesis : IsRead (2 ^ 64) vars "GENESIS_TIMESTAMP" c.genesis_timestamp
  pub delay : IsRead (2 ^ 64) vars "EXECUTION_DELAY_SECONDS" c.execution_delay_seconds
  pub deadline : IsRead (2 ^ 64) vars "INTENT_DEADLINE_SECONDS" c.intent_deadline_seconds
  pub page : IsRead (2 ^ 32) vars "MAX_PAGE_SIZE" c.max_page_size
  pub rate : IsRead (2 ^ 64) vars "RATE_LIMIT_WINDOW_SECONDS" c.rate_limit_window_seconds
  pub window_pos : 0 < c.batch_window_seconds
  pub genesis_pos : 0 < c.genesis_timestamp
  pub delay_pos : 0 < c.execution_delay_seconds
  pub deadline_pos : 0 < c.intent_deadline_seconds
  pub page_pos : 0 < c.max_page_size
  pub rate_pos : 0 < c.rate_limit_window_seconds
  pub key_prefix : starts_with c.gateway_private_key (codes "0x") ≡ true
  pub key_length : len c.gateway_private_key ≡ 66

server_page :
    (vars : Vars) (s : ServerConfig)
    → server_from_env vars ≡ ok s
    → IsRead (2 ^ 32) vars "MAX_PAGE_SIZE" s.max_page_size
unfolding server_from_env
server_page vars s h = number_var-IsRead _ vars _ _ (ground arith)

rate_window :
    (vars : Vars) (s : RateLimitConfig)
    → rate_limit_from_env vars ≡ ok s
    → IsRead (2 ^ 64) vars "RATE_LIMIT_WINDOW_SECONDS" s.window_seconds
unfolding rate_limit_from_env
rate_window vars s h = number_var-IsRead _ vars _ _ (ground arith)

intent_times :
    (vars : Vars) (s : IntentConfig)
    → intents_from_env vars ≡ ok s
    → IsRead (2 ^ 64) vars "BATCH_WINDOW_SECONDS" s.batch_window_seconds
      × IsRead (2 ^ 64) vars "GENESIS_TIMESTAMP" s.genesis_timestamp
      × IsRead (2 ^ 64) vars "EXECUTION_DELAY_SECONDS" s.execution_delay_seconds
      × IsRead (2 ^ 64) vars "INTENT_DEADLINE_SECONDS" s.intent_deadline_seconds
unfolding intents_from_env
intent_times vars s h = (
  number_var-IsRead _ vars _ _ (ground arith),
  number_var-IsRead _ vars _ _ (ground arith),
  number_var-IsRead _ vars _ _ (ground arith),
  number_var-IsRead _ vars _ _ (ground arith),
)

from_env_parts :
    (vars : Vars) (c : Config)
    → from_env vars ≡ ok c
    → (server_from_env vars ≡ ok c.server)
      × (rate_limit_from_env vars ≡ ok c.rate_limit)
      × (intents_from_env vars ≡ ok c.intents)
unfolding from_env
from_env_parts vars c h = (ground arith, ground arith, ground arith)

-- A gateway that starts, as its settings were read and validated: the windows, times and the largest
-- page that its handlers use are the numbers of their variables, within their types and not zero, and
-- its private key has the prefix 0x and 66 bytes.
pub from_env-IsServing :
    (vars : Vars) (c : Config)
    → from_env vars ≡ ok c
    → validate c ≡ ok tt
    → IsServing vars (handler_settings c)
unfolding validate
from_env-IsServing vars c h v =
    let (server, rate, intents) = from_env_parts vars c h in
    let (window, genesis, delay, deadline) = intent_times vars c.intents intents in
    record {
      window = window;
      genesis = genesis;
      delay = delay;
      deadline = deadline;
      page = server_page vars c.server server;
      rate = rate_window vars c.rate_limit rate;
      window_pos = ground arith;
      genesis_pos = ground arith;
      delay_pos = ground arith;
      deadline_pos = ground arith;
      page_pos = ground arith;
      rate_pos = ground arith;
      key_prefix = ground arith;
      key_length = ground arith;
    }
