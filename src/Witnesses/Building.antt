-- ===== src/Witnesses/Building.antt =====
-- The theorems on the client's intents and requests and on the solver's settings at concrete inputs.
use blindmarkets.Base.{
  ℕ, ◌≡◌, ◌+◌, ◌*◌, ◌%◌, ◌<◌, refl, true, false, none, ◌==◌, split, entries, retain, some, Option,
  List, [], ◌∷◌, Text, String, codes, text_eq, starts_with, trim, all, is_ascii_digit,
  is_ascii_hexdigit, parse_unsigned, from_decimal, len, if◌then◌else◌, arith,
}
use blindmarkets.Settings.{ConfigResult, Vars, var, number_var}
use blindmarkets.Solver.Config.{
  SolverConfig, read_stock, read_stocks, read_inventory, from_env, validate,
}
use blindmarkets.Solver.Config.Startup.{IsReady, from_env-IsReady}
use blindmarkets.Http.{Reply, no_reply, reply}
use blindmarkets.Client.Requests.{
  GatewayClient, ClientResult, no_body, ClientRequest, Trace, try_send, send_with_retry,
}
use blindmarkets.Client.Requests.Retries.{Sent, send_with_retry-Sent}
use blindmarkets.Gateway.Hex.{is_hex_felt}
use blindmarkets.Gateway.Env.{Env}
use blindmarkets.Client.Builder.{
  IntentBuilder, Intent, IntentCommitment, SdkResult, Felts, hidden_amount, new, set_user_address,
  set_asset_in, set_asset_out, set_amount, set_min_output, set_max_fee_bps, deadline_timestamp,
  set_nonce, set_privacy_mode, felt_from_hex, as_u8, build, create_commitment,
}
use blindmarkets.Client.Builder
use blindmarkets.Client.Builder.Agreement.{
  felts_of, IsPrinted, IsHexIntent, Agrees, create_commitment-build,
}
use blindmarkets.Witnesses.Data.{env}

abbrev look_up : Text → List (String × Text) → Option Text
look_up name [] = none
look_up name ((n, value) ∷ vs) = if text_eq name (codes n) then some value else look_up name vs

abbrev key : Text
key = codes "0x1111111111111111111111111111111111111111111111111111111111111111"

abbrev environment : List (String × Text)
environment =
    ("SOLVER_ADDRESS", codes "0x5")
    ∷ ("GATEWAY_URL", codes "http://gateway")
    ∷ ("GATEWAY_API_KEY_HEADER", codes "x-api-key")
    ∷ ("GATEWAY_API_KEY", codes "key")
    ∷ ("SOLVER_PRIVATE_KEY", key)
    ∷ ("SOLVER_ACCOUNT_ADDRESS", codes "0xa1")
    ∷ ("SOLVER_ACCOUNT_PRIVATE_KEY", key)
    ∷ ("STARKNET_CHAIN_ID", codes "SN_MAIN")
    ∷ ("BATCH_AUCTION_ADDRESS", codes "0xb2")
    ∷ ("BATCH_SETTLEMENT_ADDRESS", codes "0xb3")
    ∷ ("SOLVER_BOND_ADDRESS", codes "0xb4")
    ∷ ("STARKNET_RPC_URL", codes "http://node")
    ∷ ("SOLVER_FEE_BPS", codes "30")
    ∷ ("SOLVER_BOND_PROOF", codes "0x0")
    ∷ ("SOLVER_INITIAL_INVENTORY", codes "0xc3:1000, 0xd4:5,,0xc3:2")
    ∷ []

abbrev vars : Vars
vars name = look_up (codes name) environment

abbrev settings : SolverConfig
settings = record {
  solver_address = codes "0x5";
  gateway_url = codes "http://gateway";
  gateway_api_key_header = codes "x-api-key";
  gateway_api_key = codes "key";
  solver_private_key = key;
  solver_account_address = codes "0xa1";
  solver_account_private_key = key;
  chain_id = codes "SN_MAIN";
  batch_auction_address = codes "0xb2";
  batch_settlement_address = codes "0xb3";
  solver_bond_address = codes "0xb4";
  rpc_url = codes "http://node";
  solver_fee_bps = 30;
  solver_bond_proof = codes "0x0";
  dex_quote_endpoints = [];
  initial_inventory = (codes "0xc3", 1000) ∷ (codes "0xd4", 5) ∷ (codes "0xc3", 2) ∷ [];
  proof_service_url = none;
  proof_service_api_key = none;
  accept_all_intents = false;
}

read : from_env vars ≡ ConfigResult.ok settings
unfolding from_env read_inventory read_stocks read_stock number_var var text_eq split entries trim
    retain parse_unsigned all is_ascii_digit from_decimal
read = refl

validated : validate settings ≡ ConfigResult.ok tt
unfolding validate starts_with trim len
validated = refl

from_env-IsReady_example : IsReady vars settings
from_env-IsReady_example = from_env-IsReady vars settings read validated

abbrev client : GatewayClient
client = record {
  base_url = codes "http://gateway";
  header_name = codes "x-api-key";
  header_value = codes "key";
  timeout_seconds = 10;
  max_retries = 2;
  retry_base_delay_ms = 100;
  retry_max_delay_ms = 1000;
  retry_jitter_ms = 50;
}

abbrev status_request : ClientRequest
status_request = record {
  is_post = false;
  url = codes "http://gateway/v1/intents/0x1";
  query = [];
  body = no_body;
}

-- The first request is lost, the second limited, the third answered.
abbrev server : ℕ → ClientRequest → Reply
server n r = if n == 0 then no_reply else if n == 1 then reply 429 [] else reply 200 (codes "{}")

abbrev no_trace : Trace
no_trace = record { requests = []; slept = 0 }

send_with_retry-Sent_example :
    Sent server
      (λ n j. j)
      client
      status_request
      0
      no_trace
      (send_with_retry server (λ n j. j) client status_request no_trace).1
      (send_with_retry server (λ n j. j) client status_request no_trace).0
send_with_retry-Sent_example =
    send_with_retry-Sent server (λ n j. j) client status_request no_trace (λ n j. omega arith)

answered :
    (send_with_retry server (λ n j. j) client status_request no_trace).0
    ≡ ClientResult.ok (codes "{}")
unfolding send_with_retry try_send
answered = refl

-- A hash of one digit.
abbrev small_hash : ℕ → ℕ → ℕ
small_hash a b = (3 * a + 5 * b + 1) % 10

abbrev print_digit : ℕ → Text
print_digit n = b'0' ∷ b'x' ∷ (n + b'0') ∷ []

abbrev small_env : Env
small_env = record env { pedersen_hash = small_hash }

abbrev felts : Felts
felts = felts_of small_env print_digit

digit-Is_hex : (n : ℕ) → n < 10 → is_hex_felt (print_digit n) ≡ true
unfolding is_hex_felt starts_with all is_ascii_hexdigit is_ascii_digit len
digit-Is_hex n h = ground arith

digit-reads : (n : ℕ) → n < 10 → felts.from_hex_be (print_digit n) ≡ some n
digit-reads n h = ground arith

printed : IsPrinted felts
printed = record {
  reads_back = λ a b. digit-reads (small_hash a b) (omega arith);
  is_felt = λ a b. digit-Is_hex (small_hash a b) (omega arith);
}

abbrev builder : IntentBuilder
builder = set_privacy_mode hidden_amount (
    set_nonce (codes "0xd4") (
      deadline_timestamp 1700000100 (
        set_max_fee_bps 30 (
          set_min_output 400 (
            set_amount 500 (
              set_asset_out (codes "0xc3")
                (set_asset_in (codes "0xb2") (set_user_address (codes "0xa1") new))))))))

abbrev intent : Intent
intent = record {
  intent_id = print_digit 8;
  user_address = codes "0xa1";
  asset_in = codes "0xb2";
  asset_out = codes "0xc3";
  amount = 500;
  amount_commitment = print_digit 1;
  min_output = 400;
  max_fee_bps = 30;
  deadline = 1700000100;
  privacy_mode = hidden_amount;
  nonce = codes "0xd4";
}

abbrev commitment : IntentCommitment
commitment = record {
  intent_id = print_digit 8;
  user_address = codes "0xa1";
  intent_hash = print_digit 1;
  amount_commitment = print_digit 1;
  min_output_commitment = print_digit 1;
  max_fee_bps = 30;
  deadline = 1700000100;
  privacy_mode = 1;
  nonce = codes "0xd4";
}

built : build felts 1700000000 [] builder ≡ SdkResult.ok intent
unfolding build new set_user_address set_asset_in set_asset_out set_amount set_min_output
    set_max_fee_bps deadline_timestamp set_nonce set_privacy_mode felt_from_hex text_eq starts_with
    as_u8 Builder.compute_amount_commitment Builder.compute_intent_hash Builder.compute_intent_id
built = refl

committed : create_commitment felts intent ≡ SdkResult.ok commitment
unfolding create_commitment felt_from_hex starts_with as_u8 Builder.compute_amount_commitment
    Builder.compute_intent_hash
committed = refl

felt_fields : IsHexIntent intent
unfolding is_hex_felt starts_with all is_ascii_hexdigit is_ascii_digit len
felt_fields = record { user = refl; asset_in = refl; asset_out = refl; nonce = refl }

create_commitment-build_example : Agrees small_env print_digit intent commitment
create_commitment-build_example =
    create_commitment-build small_env print_digit 1700000000 [] builder intent commitment printed
      built felt_fields committed
