-- ===== src/Witnesses/Observing.antt =====
-- The theorems on the observer.
use blindmarkets.Base.{
  ℕ, ◌+◌, ◌≡◌, refl, true, false, [], ◌∷◌, Option, none, some, Text, pos, codes, ltb, ◌==◌,
  if◌then◌else◌, starts_with, trim, all, is_ascii_digit, is_ascii_hexdigit, to_ascii_lowercase, len,
  arith,
}
use blindmarkets.Gateway.Types.{OnchainLifecycleRequest}
use blindmarkets.Gateway.Crypto.{trim_hex_prefix}
use blindmarkets.Gateway.Exec.{ok}
use blindmarkets.Gateway.Hex.{is_hex_felt}
use blindmarkets.Gateway.Validate.{validate_onchain_lifecycle_request}
use blindmarkets.Observer.Config.{ObserverConfig}
use blindmarkets.Observer.Felts.{normalize_hex_felt}
use blindmarkets.Http.{Reply, reply}
use blindmarkets.Observer.Posting.{Message, intent_onchain, Desk, post_gateway_json}
use blindmarkets.Observer.Posting.Retries.{Posted, post_gateway_json-Posted}
use blindmarkets.Observer.Events.{RawEvent, field_at, onchain_message, commit_message}
use blindmarkets.Observer.Events.Acceptance.{IsFelts, commit, Reports-Passes}
use blindmarkets.Observer.Indexer.{
  EventsResult, Outside, ObserverIndexer, fetch_events, done, poll_events, run,
}
use blindmarkets.Observer.Indexer.Pages.{Scan, contract, no_contract, more, final}
use blindmarkets.Observer.Indexer.Polling.{after, poll_events-Scan}
use blindmarkets.Observer.Indexer.Idle.{IsQuiet, run_idle}

abbrev settings : ObserverConfig
settings = record {
  rpc_url = codes "http://node";
  poll_interval_seconds = 5;
  from_block = 100;
  contract_addresses = codes "0x7" ∷ [];
  gateway_url = codes "http://gateway";
  gateway_api_key_header = codes "x-api-key";
  gateway_api_key = codes "key";
  settlement_event_key = codes "0x51";
  settlement_batch_id_index = 0;
  failure_event_key = codes "0x52";
  failure_batch_id_index = 0;
  failure_reason_index = 1;
  intent_commit_event_key = codes "0x53";
  intent_commit_intent_id_index = 0;
  intent_commit_user_index = 1;
  intent_cancel_event_key = codes "0x54";
  intent_cancel_intent_id_index = 0;
  intent_cancel_user_index = 1;
  checkpoint_path = codes "checkpoint";
}

abbrev event : RawEvent
event = record {
  from_address = codes "0x7";
  keys = codes "0x53" ∷ [];
  fields = codes "0x75033" ∷ codes "0xA1" ∷ [];
  block_number = 103;
  transaction_hash = codes "0xE5";
}

abbrev report : OnchainLifecycleRequest
report = record { action = codes "COMMITTED"; user_address = codes "0xa1"; tx_hash = codes "0xe5" }

abbrev page_of : Text → Option EventsResult
page_of [] = some (record { events = []; continuation_token = none })
page_of (c ∷ []) = some (record { events = event ∷ []; continuation_token = some (codes "next") })
page_of (c ∷ d ∷ s) = some (record { events = event ∷ []; continuation_token = none })

-- The first page has a successor; the gateway is busy for two requests.
abbrev busy : ℕ → Message → Reply
busy n m = if ltb n 2 then reply 503 [] else reply 200 []

abbrev outside : Outside
outside = record {
  node = λ n p. reply 200 (if n == 0 then codes "1" else codes "22");
  parse_events = page_of;
  is_error_response = λ body. false;
  gateway = busy;
  clock = λ n. pos 1700000100;
  can_write = λ block. true;
}

abbrev quiet : Outside
quiet = record outside { node = λ n p. reply 200 [] }

abbrev desk : Desk
desk = record { posted = []; slept = 0 }

abbrev indexer : ObserverIndexer
indexer = record {
  config = settings;
  current_block = 100;
  calls = 0;
  desk = desk;
  checkpoint = none;
}

message_made : commit_message settings event ≡ some (intent_onchain (codes "0x75033") report)
unfolding onchain_message field_at normalize_hex_felt starts_with trim trim_hex_prefix all
    is_ascii_hexdigit is_ascii_digit to_ascii_lowercase
message_made = refl

short : IsFelts 0 1 event
unfolding trim trim_hex_prefix len
short = record { short_id = omega arith; short_user = omega arith; short_hash = omega arith }

scan : Scan outside settings 100 3 0 settings.contract_addresses (event ∷ event ∷ []) 2
unfolding fetch_events
scan =
    contract
      (more (record { events = event ∷ []; continuation_token = some (codes "next") })
        (codes "next") refl refl refl refl
        (final (record { events = event ∷ []; continuation_token = none }) refl refl refl refl))
      (omega arith) no_contract refl

is_quiet : IsQuiet quiet 100
unfolding fetch_events
is_quiet = record {
  answer = λ from call address. record { events = []; continuation_token = none };
  answers = λ from h call address. refl;
  empty = λ from h call address. refl;
}

post_gateway_json-Posted_example :
    Posted busy
      (intent_onchain (codes "0x75033") report)
      0
      desk
      (post_gateway_json busy (intent_onchain (codes "0x75033") report) desk).1
      (post_gateway_json busy (intent_onchain (codes "0x75033") report) desk).0
post_gateway_json-Posted_example =
    post_gateway_json-Posted busy (intent_onchain (codes "0x75033") report) desk

Reports-Passes_example :
    (is_hex_felt (codes "0x75033") ≡ true) × (validate_onchain_lifecycle_request report ≡ ok tt)
Reports-Passes_example =
    Reports-Passes settings (pos 1700000100) event (intent_onchain (codes "0x75033") report) refl
      (commit short message_made)

poll_events-Scan_example :
    poll_events outside 3 indexer ≡ (done, after outside indexer (event ∷ event ∷ []) 2)
poll_events-Scan_example = poll_events-Scan outside 3 indexer (event ∷ event ∷ []) 2 scan

run_idle_example :
    ((run quiet 1 20 indexer).current_block ≡ 100 + 20) × ((run quiet 1 20 indexer).desk ≡ desk)
run_idle_example = run_idle quiet 1 20 indexer is_quiet (omega arith) (omega arith)
