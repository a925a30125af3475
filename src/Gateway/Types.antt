-- ===== src/Gateway/Types.antt =====
-- The data of the gateway: backend/gateway/src/api.rs (requests, rows, modes), config.rs (the
-- settings that the handlers read), metrics.rs (the counters) and websocket.rs (the broadcasts).
use blindmarkets.Base.{ℕ, Bool, List, Option, Text, ℤ, codes}

pub data StatusCode : Type 0 where
  bad_request unauthorized forbidden not_found conflict too_many_requests : StatusCode
  internal_server_error bad_gateway : StatusCode

-- `SubmissionMode`
pub data SubmissionMode : Type 0 where
  gateway self_commit : SubmissionMode

-- The column `status` of the table `intents`; the code writes these six texts and no other.
pub data IntentStatus : Type 0 where
  pending auction settled canceled onchain_failed awaiting_onchain : IntentStatus

-- The column `status` of the table `batches`.
pub data BatchStatus : Type 0 where
  forming auction settled failed : BatchStatus

unfoldable pub as_db_value : SubmissionMode → Text
as_db_value gateway = codes "GATEWAY"
as_db_value self_commit = codes "SELF_COMMIT"

unfoldable pub initial_intent_status : SubmissionMode → IntentStatus
initial_intent_status gateway = IntentStatus.pending
initial_intent_status self_commit = IntentStatus.awaiting_onchain

pub record SubmitIntentRequest : Type 0 where
  pub intent_id : Text
  pub user_address : Text
  pub ciphertext : Text
  pub encrypted_session_key : Text
  pub commitment : Text
  pub user_signature : List Text
  pub client_public_key : Text
  pub nonce : Text
  pub authorization_hash : Option Text
  pub submission_mode : Option Text

pub record SubmitIntentResponse : Type 0 where
  pub intent_id : Text
  pub batch_id : Text
  pub estimated_execution_time : ℕ
  pub awaiting_user_transaction : Bool

pub record DecryptedIntent : Type 0 where
  pub user_address : Text
  pub asset_in : Text
  pub asset_out : Text
  pub amount : ℕ  -- u128
  pub amount_commitment : Text
  pub min_output : ℕ  -- u128
  pub max_fee_bps : ℕ  -- u16
  pub deadline : ℕ  -- u64
  pub privacy_mode : ℕ  -- u8
  pub nonce : Text

pub record CancelIntentRequest : Type 0 where
  pub user_address : Text
  pub signature : List Text

pub record OnchainLifecycleRequest : Type 0 where
  pub action : Text
  pub user_address : Text
  pub tx_hash : Text

pub record CloseBatchRequest : Type 0 where
  pub batch_id : Text
  pub close_time : ℤ
  pub intent_count : ℤ
  pub auction_deadline : ℤ

pub record SettleBatchRequest : Type 0 where
  pub batch_id : Text
  pub settled_at : ℤ

pub record FailedBatchRequest : Type 0 where
  pub batch_id : Text
  pub failure_reason : Text
  pub failed_at : ℤ

-- A row of the table `intents`, the columns that the handlers read or write. The nullable ones
-- are options.
pub record Intent : Type 0 where
  pub intent_id : Text
  pub user_address : Text
  pub asset_in : Option Text
  pub asset_out : Text
  pub amount : Option ℕ
  pub amount_commitment : Text
  pub min_output : ℕ
  pub max_fee_bps : ℕ
  pub privacy_mode : ℕ
  pub nonce : Text
  pub ciphertext : Text
  pub encrypted_session_key : Option Text
  pub commitment : Text
  pub client_public_key : Text
  pub batch_id : Text
  pub deadline : ℕ
  pub submission_mode : SubmissionMode
  pub status : IntentStatus
  pub onchain_tx_hash : Option Text
  pub onchain_committed_at : Option ℕ
  pub canceled_at : Option ℕ

pub record Batch : Type 0 where
  pub batch_id : Text
  pub close_time : ℤ
  pub intent_count : ℤ
  pub auction_deadline : ℤ
  pub status : BatchStatus
  pub settled_at : Option ℤ
  pub failure_reason : Option Text
  pub failed_at : Option ℤ

pub record UserNonce : Type 0 where
  pub user_address : Text
  pub nonce : Text

pub record PendingBalance : Type 0 where
  pub user_address : Text
  pub asset_address : Text
  pub pending_amount : ℕ

-- The tables. New intents go to the end, so the list order is the order of `sequence`.
pub record Db : Type 0 where
  pub intents : List Intent
  pub batches : List Batch
  pub user_nonces : List UserNonce
  pub pending_balances : List PendingBalance

-- `SolverBroadcast`
pub data SolverBroadcast : Type 0 where
  new_intent : (intent_id batch_id : Text) (plaintext : List ℕ) → SolverBroadcast
  batch_closed : (batch_id : Text) (close_time intent_count auction_deadline : ℤ) → SolverBroadcast

pub record Metrics : Type 0 where
  pub intents_submitted_total : ℕ
  pub intents_rejected_total : ℕ
  pub intents_onchain_failed_total : ℕ
  pub batches_closed_total : ℕ
  pub batches_failed_total : ℕ
  pub batches_settled_total : ℕ
  pub request_latency_observations : ℕ

pub record Config : Type 0 where
  pub api_key_header : Text
  pub api_key : Text
  pub gateway_private_key : Text
  pub rpc_url : Text
  pub genesis_timestamp : ℕ
  pub batch_window_seconds : ℕ
  pub execution_delay_seconds : ℕ
  pub intent_deadline_seconds : ℕ
  pub max_page_size : ℕ
  pub max_intents_per_user_per_minute : ℕ
  pub max_requests_per_ip_per_minute : ℕ
  pub rate_limit_window_seconds : ℕ

-- `IntentCommitment` of starknet_client.rs, what the gateway sends to the chain.
pub record IntentCommitment : Type 0 where
  pub intent_id : Text
  pub user_address : Text
  pub intent_hash : Text
  pub nonce : Text
  pub asset_in : Text
  pub asset_out : Text
  pub amount_commitment : Text
  pub min_output : Text
  pub max_fee_bps : ℕ
  pub deadline : ℕ
  pub privacy_mode : ℕ

-- `matches!(status, "PENDING" | "AUCTION")`, and `status IN ('PENDING', 'AUCTION')`
abbrev pub is_open : IntentStatus → Bool
is_open pending = Bool.true
is_open auction = Bool.true
is_open _ = Bool.false

abbrev pub is_pending : IntentStatus → Bool
is_pending pending = Bool.true
is_pending _ = Bool.false

abbrev pub is_auction : IntentStatus → Bool
is_auction auction = Bool.true
is_auction _ = Bool.false

abbrev pub is_settled : IntentStatus → Bool
is_settled settled = Bool.true
is_settled _ = Bool.false

abbrev pub is_gateway : SubmissionMode → Bool
is_gateway gateway = Bool.true
is_gateway self_commit = Bool.false
