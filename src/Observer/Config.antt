-- ===== src/Observer/Config.antt =====
-- backend/observer/src/config.rs. A `usize` has 64 bits.
use blindmarkets.Base.{ℕ, ◌^◌, not, List, Text, ◌==◌, entries, is_empty, all}
use blindmarkets.Settings.{
  ConfigResult, ok, ◌>>=◌, ◌>>◌, Vars, var, number_var, refuse_if, is_http, is_blank,
  has_hex_prefix, bad_url, bad_prefix, empty, zero_value,
}

pub record ObserverConfig : Type 0 where
  pub rpc_url : Text
  pub poll_interval_seconds : ℕ
  pub from_block : ℕ
  pub contract_addresses : List Text
  pub gateway_url : Text
  pub gateway_api_key_header : Text
  pub gateway_api_key : Text
  pub settlement_event_key : Text
  pub settlement_batch_id_index : ℕ
  pub failure_event_key : Text
  pub failure_batch_id_index : ℕ
  pub failure_reason_index : ℕ
  pub intent_commit_event_key : Text
  pub intent_commit_intent_id_index : ℕ
  pub intent_commit_user_index : ℕ
  pub intent_cancel_event_key : Text
  pub intent_cancel_intent_id_index : ℕ
  pub intent_cancel_user_index : ℕ
  pub checkpoint_path : Text

unfoldable pub from_env : Vars → ConfigResult ObserverConfig
unfolding var number_var
from_env vars = do
  rpc_url ← var vars "STARKNET_RPC_URL"
  poll_interval_seconds ← number_var (2 ^ 64) vars "OBSERVER_POLL_INTERVAL_SECONDS"
  from_block ← number_var (2 ^ 64) vars "OBSERVER_FROM_BLOCK"
  addresses ← var vars "OBSERVER_CONTRACT_ADDRESSES"
  gateway_url ← var vars "GATEWAY_URL"
  gateway_api_key_header ← var vars "GATEWAY_API_KEY_HEADER"
  gateway_api_key ← var vars "GATEWAY_API_KEY"
  settlement_event_key ← var vars "OBSERVER_SETTLEMENT_EVENT_KEY"
  settlement_batch_id_index ← number_var (2 ^ 64) vars "OBSERVER_SETTLEMENT_BATCH_ID_INDEX"
  failure_event_key ← var vars "OBSERVER_FAILURE_EVENT_KEY"
  failure_batch_id_index ← number_var (2 ^ 64) vars "OBSERVER_FAILURE_BATCH_ID_INDEX"
  failure_reason_index ← number_var (2 ^ 64) vars "OBSERVER_FAILURE_REASON_INDEX"
  intent_commit_event_key ← var vars "OBSERVER_INTENT_COMMIT_EVENT_KEY"
  intent_commit_intent_id_index ← number_var (2 ^ 64) vars "OBSERVER_INTENT_COMMIT_INTENT_ID_INDEX"
  intent_commit_user_index ← number_var (2 ^ 64) vars "OBSERVER_INTENT_COMMIT_USER_INDEX"
  intent_cancel_event_key ← var vars "OBSERVER_INTENT_CANCEL_EVENT_KEY"
  intent_cancel_intent_id_index ← number_var (2 ^ 64) vars "OBSERVER_INTENT_CANCEL_INTENT_ID_INDEX"
  intent_cancel_user_index ← number_var (2 ^ 64) vars "OBSERVER_INTENT_CANCEL_USER_INDEX"
  checkpoint_path ← var vars "OBSERVER_CHECKPOINT_PATH"
  ok (record {
    rpc_url = rpc_url;
    poll_interval_seconds = poll_interval_seconds;
    from_block = from_block;
    contract_addresses = entries addresses;
    gateway_url = gateway_url;
    gateway_api_key_header = gateway_api_key_header;
    gateway_api_key = gateway_api_key;
    settlement_event_key = settlement_event_key;
    settlement_batch_id_index = settlement_batch_id_index;
    failure_event_key = failure_event_key;
    failure_batch_id_index = failure_batch_id_index;
    failure_reason_index = failure_reason_index;
    intent_commit_event_key = intent_commit_event_key;
    intent_commit_intent_id_index = intent_commit_intent_id_index;
    intent_commit_user_index = intent_commit_user_index;
    intent_cancel_event_key = intent_cancel_event_key;
    intent_cancel_intent_id_index = intent_cancel_intent_id_index;
    intent_cancel_user_index = intent_cancel_user_index;
    checkpoint_path = checkpoint_path;
  })

unfoldable pub validate : ObserverConfig → ConfigResult (Unit {0})
validate c = do
  refuse_if (not (is_http c.rpc_url)) (bad_url "STARKNET_RPC_URL")
  refuse_if (c.poll_interval_seconds == 0) (zero_value "OBSERVER_POLL_INTERVAL_SECONDS")
  refuse_if (is_empty c.contract_addresses) (empty "OBSERVER_CONTRACT_ADDRESSES")
  refuse_if (not (all has_hex_prefix c.contract_addresses))
      (bad_prefix "OBSERVER_CONTRACT_ADDRESSES")
  refuse_if (not (is_http c.gateway_url)) (bad_url "GATEWAY_URL")
  refuse_if (is_blank c.gateway_api_key_header) (empty "GATEWAY_API_KEY_HEADER")
  refuse_if (is_blank c.gateway_api_key) (empty "GATEWAY_API_KEY")
  refuse_if (not (has_hex_prefix c.settlement_event_key))
      (bad_prefix "OBSERVER_SETTLEMENT_EVENT_KEY")
  refuse_if (not (has_hex_prefix c.failure_event_key)) (bad_prefix "OBSERVER_FAILURE_EVENT_KEY")
  refuse_if (not (has_hex_prefix c.intent_commit_event_key))
      (bad_prefix "OBSERVER_INTENT_COMMIT_EVENT_KEY")
  refuse_if (not (has_hex_prefix c.intent_cancel_event_key))
      (bad_prefix "OBSERVER_INTENT_CANCEL_EVENT_KEY")
  refuse_if (is_blank c.checkpoint_path) (empty "OBSERVER_CHECKPOINT_PATH")
