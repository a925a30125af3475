-- ===== src/Solver/Inbox.antt =====
-- How intents and closed batches reach the solver: the messages of the websocket, in
-- `connect_websocket` and `handle_gateway_message` of solver-reference/src/intent_monitor.rs, and
-- `fetch_solver_intents` of main.rs. `parse_intent` reads the JSON text of an intent.
pub mod Received
use blindmarkets.Base.{List, [], ◌∷◌, ◌++◌, ℕ, ℤ, Option, none, some, unwrap_or, Text}
use blindmarkets.Gateway.Crypto.{Bytes, Primitives, ◌>>=◌}
use blindmarkets.Solver.Matching.{SolverIntent}
use blindmarkets.Solver.Monitor.{decrypt_intent, solver_public_key}

pub data GatewayMessage : Type 0 where
  new_intent :
      (intent_id batch_id encrypted_data gateway_public_key : Text) (timestamp : ℕ) → GatewayMessage
  batch_closed : (batch_id : Text) (close_time intent_count auction_deadline : ℤ) → GatewayMessage
  connected ping : (timestamp : ℕ) → GatewayMessage

pub record IntentEnvelope : Type 0 where
  pub batch_id : Text
  pub intent : SolverIntent

-- The two channels to the main loop, the oldest entry first. Where one is full, the code waits.
pub record Channels : Type 0 where
  pub intents : List IntentEnvelope
  pub batches : List (Text × ℤ)

-- What is read from the connection; `other` is a text that does not parse, or any other frame.
pub data Incoming : Type 0 where
  text : GatewayMessage → Incoming
  other closed failed : Incoming

-- An item of the gateway's answer; a field that is no string is none.
pub record Item : Type 0 where
  pub intent_id : Option Text
  pub encrypted_data : Option Text
  pub gateway_public_key : Option Text

pub data ItemsReply : Type 0 where
  transport_error refused invalid_payload : ItemsReply
  answered : List Item → ItemsReply

-- The id is that of the message, whatever the text says.
abbrev pub with_id : Text → SolverIntent → SolverIntent
with_id id intent = record intent { intent_id = id }

abbrev pub forward : Text → Text → Option SolverIntent → List IntentEnvelope → List IntentEnvelope
forward intent_id batch_id none intents = intents
forward intent_id batch_id (some intent) intents =
    intents ++ record { batch_id = batch_id; intent = with_id intent_id intent } ∷ []

abbrev pub push : Text → Option SolverIntent → List SolverIntent → List SolverIntent
push id none intents = intents
push id (some intent) intents = with_id id intent ∷ intents

abbrev pub text_or_empty : Option Text → Text
text_or_empty value = unwrap_or value []

module _ (p : Primitives) (solver_private_key : Text)
    (parse_intent : Bytes → Option SolverIntent) where
  unfoldable pub handle_gateway_message : GatewayMessage → Channels → Channels
  unfolding decrypt_intent
  handle_gateway_message (new_intent intent_id batch_id encrypted_data key timestamp) c = record c {
    intents =
        forward intent_id batch_id
          (decrypt_intent p solver_private_key parse_intent encrypted_data key) c.intents;
  }
  handle_gateway_message (batch_closed batch_id close_time intent_count deadline) c = record c {
    batches = c.batches ++ (batch_id, intent_count) ∷ [];
  }
  handle_gateway_message (connected _) c = c
  handle_gateway_message (ping _) c = c

  -- The loop over the messages of one connection.
  unfoldable pub receive : List Incoming → Channels → Channels
  unfolding handle_gateway_message
  receive [] c = c
  receive (text m ∷ frames) c = receive frames (handle_gateway_message m c)
  receive (other ∷ frames) c = receive frames c
  receive (closed ∷ frames) c = c
  receive (failed ∷ frames) c = c

  -- The loop over the items; one that does not decipher is only logged.
  unfoldable pub decrypt_items : List Item → List SolverIntent
  unfolding decrypt_intent
  decrypt_items [] = []
  decrypt_items (item ∷ items) =
      push (text_or_empty item.intent_id)
        (decrypt_intent p solver_private_key parse_intent (text_or_empty item.encrypted_data)
          (text_or_empty item.gateway_public_key))
        (decrypt_items items)

  abbrev read_items : ItemsReply → Option (List SolverIntent)
  read_items (answered items) = some (decrypt_items items)
  read_items _ = none

  -- `get` is what the request with the solver's key and these ids comes to.
  unfoldable pub fetch_solver_intents :
      (Text → List Text → ItemsReply) → List Text → Option (List SolverIntent)
  unfolding decrypt_items
  fetch_solver_intents get intent_ids = do
    key ← solver_public_key p solver_private_key
    read_items (get key intent_ids)
