-- ===== src/Observer/Indexer.antt =====
-- `poll_events` and `run` of backend/observer/src/indexer.rs: the events of each contract, page by
-- page from the checkpoint's block, and the checkpoint that follows.
pub mod Pages
pub mod Polling
pub mod Idle
use blindmarkets.Base.{
  ℕ, zero, suc, ◌+◌, ◌%◌, ◌^◌, Bool, ◌&&◌, List, [], ◌∷◌, Option, none, some, unwrap_or, is_some,
  not, Text, ℤ, is_empty, leb, ltb, trim, parse_unsigned, to_decimal, if◌then◌else◌,
}
use blindmarkets.Gateway.Crypto.{◌>>=◌}
use blindmarkets.Observer.Config.{ObserverConfig}
use blindmarkets.Http.{Reply, no_reply, reply, is_success}
use blindmarkets.Observer.Posting.{Message, Desk}
use blindmarkets.Observer.Events.{RawEvent, handle_events}

-- The parameters of `starknet_getEvents`, up to the latest block.
pub record EventsParams : Type 0 where
  pub from_block : ℕ
  pub address : Text
  pub continuation_token : Option Text
  pub chunk_size : ℕ

pub record EventsResult : Type 0 where
  pub events : List RawEvent
  pub continuation_token : Option Text

pub data FetchResult : Type 0 where
  fetched : EventsResult → FetchResult
  transport_error rpc_error unexpected_payload : FetchResult

-- What is outside the observer: the chain's node and the gateway, which answer the request of number
-- n, the JSON texts, the clock, and whether the checkpoint of a block can be written.
pub record Outside : Type 0 where
  pub node : ℕ → EventsParams → Reply
  pub parse_events : Text → Option EventsResult
  pub is_error_response : Text → Bool
  pub gateway : ℕ → Message → Reply
  pub clock : ℕ → ℤ
  pub can_write : ℕ → Bool

abbrev parse_body : Outside → Text → Option EventsResult → FetchResult
parse_body o body (some result) = fetched result
parse_body o body none = if o.is_error_response body then rpc_error else unexpected_payload

abbrev read_reply : Outside → Reply → FetchResult
read_reply o no_reply = transport_error
read_reply o (reply status body) =
    if is_success status then parse_body o body (o.parse_events body) else rpc_error

unfoldable pub fetch_events : Outside → ℕ → ℕ → Text → Option Text → FetchResult
fetch_events o from_block call address token = read_reply o (
    o.node call (record {
      from_block = from_block;
      address = address;
      continuation_token = token;
      chunk_size = 100;
    }))

-- The indexer, the requests made to the node, the observer's side of the gateway, and the content of
-- the checkpoint's file.
pub record ObserverIndexer : Type 0 where
  pub config : ObserverConfig
  pub current_block : ℕ
  pub calls : ℕ
  pub desk : Desk
  pub checkpoint : Option Text

unfoldable pub read_checkpoint : Option Text → Option ℕ
read_checkpoint file = do contents ← file; parse_unsigned (2 ^ 64) (trim contents)

unfoldable pub new : ObserverConfig → Option Text → ObserverIndexer
unfolding read_checkpoint
new config file = record {
  config = config;
  current_block = unwrap_or (read_checkpoint file) config.from_block;
  calls = 0;
  desk = record { posted = []; slept = 0 };
  checkpoint = file;
}

abbrev pub later : ℕ → ℕ → ℕ
later a b = if ltb a b then b else a

unfoldable pub max_block : ℕ → List RawEvent → ℕ
max_block seen [] = seen
max_block seen (event ∷ events) = max_block (later seen event.block_number) events

-- The local state of a poll.
pub record Progress : Type 0 where
  pub calls : ℕ
  pub desk : Desk
  pub max_seen_block : ℕ

pub data PollResult : Type 0 where
  done poll_error out_of_fuel : PollResult

module _ (o : Outside) (c : ObserverConfig) (from_block : ℕ) where
  unfoldable pub take_events : List RawEvent → Progress → Progress
  unfolding max_block
  take_events events p = record p {
    desk = handle_events o.gateway o.clock c events p.desk;
    max_seen_block = max_block p.max_seen_block events;
  }

  abbrev count_call : Progress → Progress
  count_call p = record p { calls = suc p.calls }

  abbrev pub is_idle : Option Text → EventsResult → Bool
  is_idle token result = is_empty result.events && not (is_some token)

  -- The inner loop, over the pages of one contract.
  unfoldable pub read_pages : ℕ → Text → Option Text → Progress → PollResult × Progress
  unfolding take_events
  read_pages zero address token p = (out_of_fuel, p)
  read_pages (suc fuel) address token p = elim (fetch_events o from_block p.calls address token) [
    | fetched result ↦
        if is_idle token result then (done, count_call p) else elim result.continuation_token [
          | none ↦ (done, take_events result.events (count_call p))
          | some next ↦
              read_pages fuel address (some next) (take_events result.events (count_call p))
        ]
    | _ ↦ (poll_error, count_call p)
  ]

  abbrev and_then :
      PollResult × Progress → (Progress → PollResult × Progress) → PollResult × Progress
  and_then (done, p) f = f p
  and_then (poll_error, p) f = (poll_error, p)
  and_then (out_of_fuel, p) f = (out_of_fuel, p)

  -- The outer loop, over the contracts; each may take the fuel.
  unfoldable pub read_addresses : ℕ → List Text → Progress → PollResult × Progress
  unfolding read_pages
  read_addresses fuel [] p = (done, p)
  read_addresses fuel (address ∷ addresses) p =
      and_then (read_pages fuel address none p) (read_addresses fuel addresses)

-- The checkpoint after a poll; a failure to write it is only logged. A u64 sum wraps.
unfoldable pub advance : Outside → Progress → ObserverIndexer → ObserverIndexer
advance o p x =
    let kept = record x { calls = p.calls; desk = p.desk } in
    let next = (p.max_seen_block + 1) % 2 ^ 64 in
    if leb x.current_block p.max_seen_block
    then record kept {
      current_block = next;
      checkpoint = if o.can_write next then some (to_decimal next) else x.checkpoint;
    }
    else kept

abbrev close_poll : Outside → ObserverIndexer → PollResult × Progress → PollResult × ObserverIndexer
close_poll o x (done, p) = (done, advance o p x)
close_poll o x (poll_error, p) = (poll_error, record x { calls = p.calls; desk = p.desk })
close_poll o x (out_of_fuel, p) = (out_of_fuel, record x { calls = p.calls; desk = p.desk })

abbrev pub begin : ObserverIndexer → Progress
begin x = record { calls = x.calls; desk = x.desk; max_seen_block = x.current_block }

unfoldable pub poll_events : Outside → ℕ → ObserverIndexer → PollResult × ObserverIndexer
unfolding read_addresses advance
poll_events o fuel x =
    close_poll o x
      (read_addresses o x.config x.current_block fuel x.config.contract_addresses (begin x))

-- `run`, for a number of polls: an error is logged, and the next poll tries again.
unfoldable pub run : Outside → ℕ → ℕ → ObserverIndexer → ObserverIndexer
unfolding poll_events
run o fuel zero x = x
run o fuel (suc polls) x = run o fuel polls (poll_events o fuel x).1
