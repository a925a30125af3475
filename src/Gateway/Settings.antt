-- ===== src/Gateway/Settings.antt =====
-- backend/gateway/src/config.rs. The file that `dotenv` reads is part of the environment; a `usize`
-- has 64 bits. `handler_settings` are the settings that the handlers of Gateway/Types read.
pub mod Startup
use blindmarkets.Base.{ℕ, ◌^◌, not, ◌&&◌, ◌||◌, Text, codes, starts_with, len, ltb, ◌==◌}
use blindmarkets.Settings.{
  ConfigResult, ok, ◌>>=◌, ◌>>◌, Vars, var, number_var, refuse_if, is_blank, has_hex_prefix,
  bad_url, bad_prefix, bad_length, empty, zero_value,
}
use blindmarkets.Gateway.Types

pub record ServerConfig : Type 0 where
  pub host : Text
  pub port : ℕ
  pub websocket_channel_capacity : ℕ
  pub max_page_size : ℕ

pub record DatabaseConfig : Type 0 where
  pub url : Text
  pub max_connections : ℕ

pub record RedisConfig : Type 0 where
  pub url : Text
  pub max_connections : ℕ

pub record RateLimitConfig : Type 0 where
  pub max_intents_per_user_per_minute : ℕ
  pub max_requests_per_ip_per_minute : ℕ
  pub window_seconds : ℕ

pub record IntentConfig : Type 0 where
  pub batch_window_seconds : ℕ
  pub genesis_timestamp : ℕ
  pub execution_delay_seconds : ℕ
  pub intent_deadline_seconds : ℕ

pub record StarknetConfig : Type 0 where
  pub rpc_url : Text
  pub chain_id : Text
  pub account_address : Text
  pub account_private_key : Text
  pub intent_registry_address : Text
  pub batch_auction_address : Text
  pub batch_settlement_address : Text

pub record SecurityConfig : Type 0 where
  pub cors_allowed_origins : Text
  pub api_key_header : Text
  pub api_key : Text
  pub gateway_private_key : Text

pub record LoggingConfig : Type 0 where
  pub level : Text
  pub format : Text

pub record Config : Type 0 where
  pub server : ServerConfig
  pub database : DatabaseConfig
  pub redis : RedisConfig
  pub rate_limit : RateLimitConfig
  pub intents : IntentConfig
  pub starknet : StarknetConfig
  pub security : SecurityConfig
  pub logging : LoggingConfig

unfoldable pub server_from_env : Vars → ConfigResult ServerConfig
unfolding var number_var
server_from_env vars = do
  host ← var vars "HOST"
  port ← number_var (2 ^ 16) vars "PORT"
  websocket_channel_capacity ← number_var (2 ^ 64) vars "WEBSOCKET_CHANNEL_CAPACITY"
  max_page_size ← number_var (2 ^ 32) vars "MAX_PAGE_SIZE"
  ok (record {
    host = host;
    port = port;
    websocket_channel_capacity = websocket_channel_capacity;
    max_page_size = max_page_size;
  })

unfoldable pub database_from_env : Vars → ConfigResult DatabaseConfig
unfolding var number_var
database_from_env vars = do
  url ← var vars "DATABASE_URL"
  max_connections ← number_var (2 ^ 32) vars "DATABASE_MAX_CONNECTIONS"
  ok (record { url = url; max_connections = max_connections })

unfoldable pub redis_from_env : Vars → ConfigResult RedisConfig
unfolding var number_var
redis_from_env vars = do
  url ← var vars "REDIS_URL"
  max_connections ← number_var (2 ^ 32) vars "REDIS_MAX_CONNECTIONS"
  ok (record { url = url; max_connections = max_connections })

unfoldable pub rate_limit_from_env : Vars → ConfigResult RateLimitConfig
unfolding var number_var
rate_limit_from_env vars = do
  max_intents_per_user_per_minute ← number_var (2 ^ 32) vars "MAX_INTENTS_PER_USER_PER_MINUTE"
  max_requests_per_ip_per_minute ← number_var (2 ^ 32) vars "MAX_REQUESTS_PER_IP_PER_MINUTE"
  window_seconds ← number_var (2 ^ 64) vars "RATE_LIMIT_WINDOW_SECONDS"
  ok (record {
    max_intents_per_user_per_minute = max_intents_per_user_per_minute;
    max_requests_per_ip_per_minute = max_requests_per_ip_per_minute;
    window_seconds = window_seconds;
  })

unfoldable pub intents_from_env : Vars → ConfigResult IntentConfig
unfolding var number_var
intents_from_env vars = do
  batch_window_seconds ← number_var (2 ^ 64) vars "BATCH_WINDOW_SECONDS"
  genesis_timestamp ← number_var (2 ^ 64) vars "GENESIS_TIMESTAMP"
  execution_delay_seconds ← number_var (2 ^ 64) vars "EXECUTION_DELAY_SECONDS"
  intent_deadline_seconds ← number_var (2 ^ 64) vars "INTENT_DEADLINE_SECONDS"
  ok (record {
    batch_window_seconds = batch_window_seconds;
    genesis_timestamp = genesis_timestamp;
    execution_delay_seconds = execution_delay_seconds;
    intent_deadline_seconds = intent_deadline_seconds;
  })

unfoldable pub starknet_from_env : Vars → ConfigResult StarknetConfig
unfolding var number_var
starknet_from_env vars = do
  rpc_url ← var vars "STARKNET_RPC_URL"
  chain_id ← var vars "STARKNET_CHAIN_ID"
  account_address ← var vars "GATEWAY_ACCOUNT_ADDRESS"
  account_private_key ← var vars "GATEWAY_ACCOUNT_PRIVATE_KEY"
  intent_registry_address ← var vars "INTENT_REGISTRY_ADDRESS"
  batch_auction_address ← var vars "BATCH_AUCTION_ADDRESS"
  batch_settlement_address ← var vars "BATCH_SETTLEMENT_ADDRESS"
  ok (record {
    rpc_url = rpc_url;
    chain_id = chain_id;
    account_address = account_address;
    account_private_key = account_private_key;
    intent_registry_address = intent_registry_address;
    batch_auction_address = batch_auction_address;
    batch_settlement_address = batch_settlement_address;
  })

unfoldable pub security_from_env : Vars → ConfigResult SecurityConfig
unfolding var number_var
security_from_env vars = do
  cors_allowed_origins ← var vars "CORS_ALLOWED_ORIGINS"
  api_key_header ← var vars "API_KEY_HEADER"
  api_key ← var vars "API_KEY"
  gateway_private_key ← var vars "GATEWAY_PRIVATE_KEY"
  ok (record {
    cors_allowed_origins = cors_allowed_origins;
    api_key_header = api_key_header;
    api_key = api_key;
    gateway_private_key = gateway_private_key;
  })

unfoldable pub logging_from_env : Vars → ConfigResult LoggingConfig
unfolding var number_var
logging_from_env vars = do
  level ← var vars "LOG_LEVEL"
  format ← var vars "LOG_FORMAT"
  ok (record { level = level; format = format })

unfoldable pub from_env : Vars → ConfigResult Config
from_env vars = do
  server ← server_from_env vars
  database ← database_from_env vars
  redis ← redis_from_env vars
  rate_limit ← rate_limit_from_env vars
  intents ← intents_from_env vars
  starknet ← starknet_from_env vars
  security ← security_from_env vars
  logging ← logging_from_env vars
  ok (record {
    server = server;
    database = database;
    redis = redis;
    rate_limit = rate_limit;
    intents = intents;
    starknet = starknet;
    security = security;
    logging = logging;
  })

unfoldable pub validate : Config → ConfigResult (Unit {0})
validate c = do
  refuse_if
      (not (starts_with c.database.url (codes "postgresql://"))
        && not (starts_with c.database.url (codes "postgres://")))
      (bad_url "DATABASE_URL")
  refuse_if (not (starts_with c.redis.url (codes "redis://"))) (bad_url "REDIS_URL")
  refuse_if (not (has_hex_prefix c.starknet.intent_registry_address))
      (bad_prefix "INTENT_REGISTRY_ADDRESS")
  refuse_if (is_blank c.starknet.chain_id) (empty "STARKNET_CHAIN_ID")
  refuse_if (not (has_hex_prefix c.starknet.account_address)) (bad_prefix "GATEWAY_ACCOUNT_ADDRESS")
  refuse_if (ltb (len c.starknet.account_address) 4) (empty "GATEWAY_ACCOUNT_ADDRESS")
  refuse_if (not (has_hex_prefix c.starknet.account_private_key))
      (bad_prefix "GATEWAY_ACCOUNT_PRIVATE_KEY")
  refuse_if (not (len c.starknet.account_private_key == 66))
      (bad_length "GATEWAY_ACCOUNT_PRIVATE_KEY")
  refuse_if (c.intents.batch_window_seconds == 0) (zero_value "BATCH_WINDOW_SECONDS")
  refuse_if (c.intents.genesis_timestamp == 0) (zero_value "GENESIS_TIMESTAMP")
  refuse_if (c.intents.execution_delay_seconds == 0) (zero_value "EXECUTION_DELAY_SECONDS")
  refuse_if (c.intents.intent_deadline_seconds == 0) (zero_value "INTENT_DEADLINE_SECONDS")
  refuse_if (is_blank c.security.api_key) (empty "API_KEY")
  refuse_if (is_blank c.security.api_key_header) (empty "API_KEY_HEADER")
  refuse_if (is_blank c.security.gateway_private_key) (empty "GATEWAY_PRIVATE_KEY")
  refuse_if
      (not (has_hex_prefix c.security.gateway_private_key)
        || not (len c.security.gateway_private_key == 66))
      (bad_length "GATEWAY_PRIVATE_KEY")
  refuse_if (c.server.port == 0) (zero_value "PORT")
  refuse_if (c.server.websocket_channel_capacity == 0) (zero_value "WEBSOCKET_CHANNEL_CAPACITY")
  refuse_if (c.server.max_page_size == 0) (zero_value "MAX_PAGE_SIZE")
  refuse_if (c.rate_limit.window_seconds == 0) (zero_value "RATE_LIMIT_WINDOW_SECONDS")

-- What the handlers of the gateway see of the settings.
abbrev pub handler_settings : Config → Types.Config
handler_settings c = record {
  api_key_header = c.security.api_key_header;
  api_key = c.security.api_key;
  gateway_private_key = c.security.gateway_private_key;
  rpc_url = c.starknet.rpc_url;
  genesis_timestamp = c.intents.genesis_timestamp;
  batch_window_seconds = c.intents.batch_window_seconds;
  execution_delay_seconds = c.intents.execution_delay_seconds;
  intent_deadline_seconds = c.intents.intent_deadline_seconds;
  max_page_size = c.server.max_page_size;
  max_intents_per_user_per_minute = c.rate_limit.max_intents_per_user_per_minute;
  max_requests_per_ip_per_minute = c.rate_limit.max_requests_per_ip_per_minute;
  rate_limit_window_seconds = c.rate_limit.window_seconds;
}
