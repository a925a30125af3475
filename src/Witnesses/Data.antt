-- ===== src/Witnesses/Data.antt =====
-- Test data: a gateway with a small hash, a user who submits one intent, and the tables after it.
use blindmarkets.Base.{
  ℕ, ◌+◌, ◌-◌, ◌*◌, ◌%◌, false, List, [], ◌∷◌, Option, none, some, Text, codes, pos, is_empty, ltb,
  if◌then◌else◌,
}
use blindmarkets.Gateway.Types.{
  IntentStatus, gateway, SubmitIntentRequest, SubmitIntentResponse, DecryptedIntent,
  CancelIntentRequest, OnchainLifecycleRequest, CloseBatchRequest, SettleBatchRequest,
  FailedBatchRequest, Intent, Db, Metrics, Config, IntentCommitment,
}
use blindmarkets.Gateway.Exec.{World}
use blindmarkets.Gateway.Crypto.{Bytes, Primitives}
use blindmarkets.Json.{number, string}
use blindmarkets.Gateway.Env.{Env, Call, IntentFields}

abbrev hex_value : ℕ → ℕ
hex_value c = if ltb c b'a' then c - b'0' else c - b'a' + 10

abbrev hex_pairs : Text → Option Bytes
hex_pairs [] = some []
hex_pairs (a ∷ []) = none
hex_pairs (a ∷ b ∷ s) = elim (hex_pairs s) [
  | none ↦ none
  | some bytes ↦ some ((hex_value a * 16 + hex_value b) ∷ bytes)
]

abbrev read_hex : ℕ → Text → ℕ
read_hex acc [] = acc
read_hex acc (c ∷ s) = read_hex (acc * 16 + hex_value c) s

abbrev felt_of : Text → Option ℕ
felt_of [] = none
felt_of (a ∷ []) = none
felt_of (a ∷ b ∷ s) = some (read_hex 0 s)

abbrev pub config : Config
config = record {
  api_key_header = codes "x-api-key";
  api_key = codes "key";
  gateway_private_key = codes "1111111111111111111111111111111111111111111111111111111111111111";
  rpc_url = codes "http://node";
  genesis_timestamp = 1700000000;
  batch_window_seconds = 60;
  execution_delay_seconds = 30;
  intent_deadline_seconds = 3600;
  max_page_size = 50;
  max_intents_per_user_per_minute = 5;
  max_requests_per_ip_per_minute = 10;
  rate_limit_window_seconds = 60;
}

abbrev primitives : Primitives
primitives = record {
  hex_decode = hex_pairs;
  hex_encode = λ b. b;
  public_key = λ k. k;
  diffie_hellman = λ k m. k;
  aes_encrypt = λ k n m. some m;
  aes_decrypt = λ k n m. some m;
}

abbrev pub plain : DecryptedIntent
plain = record {
  user_address = codes "0xa1";
  asset_in = codes "0xb2";
  asset_out = codes "0xc3";
  amount = 500;
  amount_commitment = codes "0xa01";
  min_output = 400;
  max_fee_bps = 30;
  deadline = 1700000100;
  privacy_mode = 1;
  nonce = codes "0xd4";
}

-- The JSON text, whose amount is a text.
abbrev written : IntentFields
written = record {
  user_address = plain.user_address;
  asset_in = plain.asset_in;
  asset_out = plain.asset_out;
  amount = string (codes "500");
  amount_commitment = plain.amount_commitment;
  min_output = number (some 400);
  max_fee_bps = plain.max_fee_bps;
  deadline = number (some 1700000100);
  privacy_mode = plain.privacy_mode;
  nonce = plain.nonce;
}

abbrev commit_hash : IntentCommitment → List Text → Option Text
commit_hash c s = some (codes "0xe5")

abbrev pub env : Env
env = record {
  config = config;
  primitives = primitives;
  rpc = λ url user calldata. some (record { result = some (codes "0x1" ∷ []); has_error = false });
  from_slice = λ b. if is_empty b then none else some written;
  felt_from_hex = felt_of;
  pedersen_hash = λ a b. (3 * a + 5 * b + 1) % 1000003;
  commit_onchain = commit_hash;
  cancel_onchain = λ id s. some (codes "0xf6");
}

-- The same gateway where the chain refuses every commit.
abbrev pub refusing : Env
refusing = record env { commit_onchain = λ c s. none }

abbrev pub call : Call
call = record {
  headers = λ name. some (codes "key");
  client_ip = codes "10.0.0.1";
  batch_clock = some 1700000070;
  execution_clock = some 1700000070;
  deadline_clock = some 1700000070;
  stamp = 1700000070;
}

abbrev pub request : SubmitIntentRequest
request = record {
  intent_id = codes "0x75033";
  user_address = codes "0xa1";
  ciphertext = codes "0x0000000000000000000000007b7d";
  encrypted_session_key =
      codes
        "0x0101010101010101010101012222222222222222222222222222222222222222222222222222222222222222";
  commitment = codes "0x172d2";
  user_signature = codes "0x11" ∷ codes "0x22" ∷ [];
  client_public_key = codes "0x3333333333333333333333333333333333333333333333333333333333333333";
  nonce = codes "0xd4";
  authorization_hash = none;
  submission_mode = none;
}

abbrev pub plaintext : Bytes
plaintext = 123 ∷ 125 ∷ []

abbrev pub answer : SubmitIntentResponse
answer = record {
  intent_id = request.intent_id;
  batch_id = codes "1";
  estimated_execution_time = 1700000150;
  awaiting_user_transaction = false;
}

abbrev no_metrics : Metrics
no_metrics = record {
  intents_submitted_total = 0;
  intents_rejected_total = 0;
  intents_onchain_failed_total = 0;
  batches_closed_total = 0;
  batches_failed_total = 0;
  batches_settled_total = 0;
  request_latency_observations = 0;
}

abbrev pub empty_db : Db
empty_db = record { intents = []; batches = []; user_nonces = []; pending_balances = [] }

-- No round trip fails.
abbrev pub fresh_world : World
fresh_world = record {
  db = empty_db;
  redis = [];
  faults = λ n. false;
  trips = 0;
  metrics = no_metrics;
  broadcasts = [];
}

-- The row of the request in the batch 1, pending.
abbrev pub row : Intent
row = record {
  intent_id = request.intent_id;
  user_address = plain.user_address;
  asset_in = some plain.asset_in;
  asset_out = plain.asset_out;
  amount = some plain.amount;
  amount_commitment = plain.amount_commitment;
  min_output = plain.min_output;
  max_fee_bps = plain.max_fee_bps;
  privacy_mode = plain.privacy_mode;
  nonce = plain.nonce;
  ciphertext = request.ciphertext;
  encrypted_session_key = some request.encrypted_session_key;
  commitment = request.commitment;
  client_public_key = request.client_public_key;
  batch_id = codes "1";
  deadline = plain.deadline;
  submission_mode = gateway;
  status = IntentStatus.pending;
  onchain_tx_hash = some (codes "0xe5");
  onchain_committed_at = some 1700000070;
  canceled_at = none;
}

abbrev pub held_db : Db
held_db = record {
  intents = row ∷ [];
  batches = [];
  user_nonces = record { user_address = codes "0xa1"; nonce = codes "0xd4" } ∷ [];
  pending_balances =
      record { user_address = codes "0xa1"; asset_address = codes "0xb2"; pending_amount = 1200 }
      ∷ [];
}

abbrev pub held_world : World
held_world = record fresh_world { db = held_db }

abbrev pub cancel_request : CancelIntentRequest
cancel_request = record {
  user_address = codes "0xa1";
  signature = codes "0x11" ∷ codes "0x22" ∷ [];
}

abbrev pub commit_report : OnchainLifecycleRequest
commit_report = record {
  action = codes "committed";
  user_address = codes "0xa1";
  tx_hash = codes "0xabc";
}

abbrev pub close_request : CloseBatchRequest
close_request = record {
  batch_id = codes "1";
  close_time = pos 1700000120;
  intent_count = pos 1;
  auction_deadline = pos 1700000150;
}

abbrev pub settle_request : SettleBatchRequest
settle_request = record { batch_id = codes "1"; settled_at = pos 1700000160 }

abbrev pub failed_request : FailedBatchRequest
failed_request = record {
  batch_id = codes "1";
  failure_reason = codes "0x77";
  failed_at = pos 1700000160;
}
