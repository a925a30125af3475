-- ===== src/Gateway/Websocket/Feed.antt =====
-- What a connection promises to a solver: the messages as the solver is to read them, without any
-- encryption.
use blindmarkets.Base.{
  Bool, true, false, List, [], ◌∷◌, ◌++◌, Option, none, some, Text, ℤ, codes, text_eq, retain,
  if◌then◌else◌,
}
use blindmarkets.Gateway.Types.{Intent, Db, SolverBroadcast, new_intent, batch_closed}
use blindmarkets.Gateway.Crypto.{Bytes}
use blindmarkets.Gateway.Env.{Env}
use blindmarkets.Gateway.SolverFetch.{plaintext_of}
use blindmarkets.Gateway.Websocket.{
  Event, message, broadcast, replay, tick, ignored, broadcaster_dropped, socket_closed,
  is_valid_key, is_replayed,
}

pub data Notice : Type 0 where
  greeting alive : Notice
  intent : (intent_id batch_id : Text) (plaintext : Bytes) → Notice
  batch : (batch_id : Text) (close_time intent_count auction_deadline : ℤ) → Notice

pub record Feed : Type 0 where
  pub is_registered : Bool
  pub waiting : List Notice
  pub given : List Notice
  pub is_running : Bool

abbrev pub row_notice : Intent → Option Bytes → List Notice → List Notice
row_notice row none notices = notices
row_notice row (some plaintext) notices = intent row.intent_id row.batch_id plaintext ∷ notices

-- The open intents of the table that decipher, in its order.
unfoldable pub stored_notices : Env → List Intent → List Notice
stored_notices env [] = []
stored_notices env (row ∷ rows) =
    row_notice row (plaintext_of env row row.encrypted_session_key) (stored_notices env rows)

unfoldable pub found_notices : Env → Option Db → List Notice
unfolding stored_notices
found_notices env none = []
found_notices env (some db) = stored_notices env (retain is_replayed db.intents)

abbrev pub greet : Env → Option Db → Option Text → Feed → Feed
greet env found none feed = feed
greet env found (some key) feed =
    if is_valid_key key
    then record feed { is_registered = true; waiting = feed.waiting ++ found_notices env found }
    else feed

abbrev pub give : Bool → Notice → Feed → Feed
give true n feed = record feed { given = n ∷ feed.given }
give false n feed = record feed { is_running = false }

abbrev pub give_broadcast : Bool → SolverBroadcast → Feed → Feed
give_broadcast delivered (new_intent intent_id batch_id plaintext) feed =
    if feed.is_registered then give delivered (intent intent_id batch_id plaintext) feed else feed
give_broadcast delivered (batch_closed batch_id close_time intent_count auction_deadline) feed =
    give delivered (batch batch_id close_time intent_count auction_deadline) feed

abbrev pub give_waiting : Bool → List Notice → Feed → Feed
give_waiting delivered [] feed = feed
give_waiting delivered (n ∷ waiting) feed = give delivered n (record feed { waiting = waiting })

unfoldable pub follow : Env → Event → Feed → Feed
unfolding found_notices
follow env (message msg found nonces stamps) feed =
    if text_eq msg.type (codes "hello") then greet env found msg.solver_public_key feed else feed
follow env (broadcast m nonce stamp delivered) feed = give_broadcast delivered m feed
follow env (replay delivered) feed = give_waiting delivered feed.waiting feed
follow env (tick stamp delivered) feed = give delivered alive feed
follow env ignored feed = feed
follow env broadcaster_dropped feed = record feed { is_running = false }
follow env socket_closed feed = record feed { is_running = false }

unfoldable pub follow_all : Env → List Event → Feed → Feed
unfolding follow
follow_all env [] feed = feed
follow_all env (event ∷ events) feed =
    follow_all env events (if feed.is_running then follow env event feed else feed)

unfoldable pub begin : Bool → Feed
begin delivered = record {
  is_registered = false;
  waiting = [];
  given = if delivered then greeting ∷ [] else [];
  is_running = true;
}
