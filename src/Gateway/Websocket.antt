-- ===== src/Gateway/Websocket.antt =====
-- backend/gateway/src/websocket.rs: the connection of one solver. The two tasks of a connection, the
-- one that sends and the one that receives, are a sequence of events; each `Event` is one round of a
-- task's loop, with the bytes and clock readings drawn in it and with whether the send succeeds. The
-- channel of replayed intents has no bound here: where it is full, the code waits.
pub mod Feed
pub mod Readable
pub mod Refinement
use blindmarkets.Base.{
  ℕ, suc, Bool, true, false, not, ◌&&◌, List, [], ◌∷◌, ◌++◌, Option, none, some, is_some, Text, ℤ,
  codes, text_eq, starts_with, len, ◌==◌, retain, if◌then◌else◌,
}
use blindmarkets.Gateway.Types.{Intent, Db, SolverBroadcast, new_intent, batch_closed, is_open}
use blindmarkets.Gateway.Exec.{Result, ok, err}
use blindmarkets.Gateway.Crypto.{Bytes, EncryptionPayload, encrypt_for_solver}
use blindmarkets.Gateway.Auth.{require_api_key}
use blindmarkets.Gateway.Hex.{hex_prefix}
use blindmarkets.Gateway.Env.{Env, Call}
use blindmarkets.Gateway.SolverFetch.{plaintext_of}

pub record IntentNotification : Type 0 where
  pub intent_id : Text
  pub batch_id : Text
  pub encrypted_data : Text
  pub gateway_public_key : Text
  pub timestamp : ℕ

-- `SolverMessage`, and the confirmation of a connection
pub data SolverMessage : Type 0 where
  connected : (timestamp : ℕ) → SolverMessage
  intent : IntentNotification → SolverMessage
  batch : (batch_id : Text) (close_time intent_count auction_deadline : ℤ) → SolverMessage
  ping : (timestamp : ℕ) → SolverMessage

-- The fields of a solver's message that the code reads; the type is empty where there is none.
pub record ClientMessage : Type 0 where
  pub type : Text
  pub solver_public_key : Option Text

-- One round of a task. `message` is a text that parses, with what the query of a replay finds;
-- `ignored` any other text, a ping of the solver, or a lag of the broadcasts.
pub data Event : Type 0 where
  message : ClientMessage → Option Db → (nonces : ℕ → Bytes) (stamps : ℕ → ℕ) → Event
  broadcast : SolverBroadcast → (nonce : Bytes) (stamp : ℕ) (delivered : Bool) → Event
  replay : (delivered : Bool) → Event
  tick : (stamp : ℕ) (delivered : Bool) → Event
  ignored : Event
  broadcaster_dropped socket_closed : Event

-- The key, the replayed messages that wait to be sent, those sent, the newest first, and whether both
-- tasks run.
pub record Socket : Type 0 where
  pub solver_public_key : Option Text
  pub replay_queue : List SolverMessage
  pub sent : List SolverMessage
  pub is_running : Bool

abbrev welcome : Bool → ℕ → List SolverMessage
welcome delivered stamp = if delivered then connected stamp ∷ [] else []

-- `handle_solver_socket` up to its loops; the failure to send the confirmation is ignored.
unfoldable pub open_socket : ℕ → Bool → Socket
open_socket stamp delivered = record {
  solver_public_key = none;
  replay_queue = [];
  sent = welcome delivered stamp;
  is_running = true;
}

abbrev and_open : ℕ → Bool → Result (Unit {0}) → Result Socket
and_open stamp delivered (ok _) = ok (open_socket stamp delivered)
and_open stamp delivered (err e) = err e

unfoldable pub solver_websocket_handler : Env → Call → ℕ → Bool → Result Socket
unfolding open_socket
solver_websocket_handler env call stamp delivered =
    and_open stamp delivered (require_api_key call.headers env.config)

unfoldable pub is_valid_key : Text → Bool
is_valid_key key = starts_with key hex_prefix && len key == 66

abbrev pub notification : Text → Text → ℕ → EncryptionPayload → SolverMessage
notification intent_id batch_id stamp payload = intent (record {
  intent_id = intent_id;
  batch_id = batch_id;
  encrypted_data = payload.ciphertext_hex;
  gateway_public_key = payload.sender_public_key_hex;
  timestamp = stamp;
})

abbrev pub sealed : Text → Text → ℕ → Option EncryptionPayload → Option SolverMessage
sealed intent_id batch_id stamp none = none
sealed intent_id batch_id stamp (some payload) =
    some (notification intent_id batch_id stamp payload)

-- An intent encrypted for the solver; an error is only logged.
unfoldable pub seal : Env → Text → Text → Text → Bytes → ℕ → Bytes → Option SolverMessage
seal env key intent_id batch_id nonce stamp plaintext =
    sealed intent_id batch_id stamp
      (encrypt_for_solver env.primitives nonce plaintext env.config.gateway_private_key key)

abbrev pub seal_row : Env → Text → Bytes → ℕ → Intent → Option Bytes → Option SolverMessage
seal_row env key nonce stamp row none = none
seal_row env key nonce stamp row (some plaintext) =
    seal env key row.intent_id row.batch_id nonce stamp plaintext

abbrev pub push : Option SolverMessage → List SolverMessage → List SolverMessage
push none messages = messages
push (some m) messages = m ∷ messages

-- The WHERE of the query.
abbrev pub is_replayed : Intent → Bool
is_replayed row = is_open row.status && is_some row.encrypted_session_key

-- The loop over the rows, from the position `i`.
unfoldable pub replay_rows :
    Env → Text → (ℕ → Bytes) → (ℕ → ℕ) → ℕ → List Intent → List SolverMessage
unfolding seal
replay_rows env key nonces stamps i [] = []
replay_rows env key nonces stamps i (row ∷ rows) =
    push
      (seal_row env key (nonces i) (stamps i) row (plaintext_of env row row.encrypted_session_key))
      (replay_rows env key nonces stamps (suc i) rows)

unfoldable pub replay_pending_intents :
    Env → Text → (ℕ → Bytes) → (ℕ → ℕ) → Option Db → List SolverMessage
unfolding replay_rows
replay_pending_intents env key nonces stamps none = []
replay_pending_intents env key nonces stamps (some db) =
    replay_rows env key nonces stamps 0 (retain is_replayed db.intents)

abbrev pub register : Env → (ℕ → Bytes) → (ℕ → ℕ) → Option Db → Option Text → Socket → Socket
register env nonces stamps found none socket = socket
register env nonces stamps found (some key) socket =
    if is_valid_key key
    then record socket {
      solver_public_key = some key;
      replay_queue = socket.replay_queue ++ replay_pending_intents env key nonces stamps found;
    }
    else socket

-- The other types, `subscribe_batch`, `heartbeat` and the unknown ones, are only logged.
unfoldable pub handle_solver_message :
    Env → ClientMessage → Option Db → (ℕ → Bytes) → (ℕ → ℕ) → Socket → Socket
unfolding is_valid_key replay_pending_intents
handle_solver_message env msg found nonces stamps socket =
    if text_eq msg.type (codes "hello")
    then register env nonces stamps found msg.solver_public_key socket
    else socket

-- `sender.send`; where it fails, the loop ends, and both tasks with it.
abbrev pub deliver : Bool → SolverMessage → Socket → Socket
deliver true m socket = record socket { sent = m ∷ socket.sent }
deliver false m socket = record socket { is_running = false }

abbrev pub deliver_some : Bool → Option SolverMessage → Socket → Socket
deliver_some delivered none socket = socket
deliver_some delivered (some m) socket = deliver delivered m socket

abbrev seal_for : Env → Option Text → Text → Text → Bytes → ℕ → Bytes → Option SolverMessage
seal_for env none intent_id batch_id nonce stamp plaintext = none
seal_for env (some key) intent_id batch_id nonce stamp plaintext =
    seal env key intent_id batch_id nonce stamp plaintext

-- A solver that has not registered a key gets no intent.
unfoldable pub outbound : Env → Option Text → SolverBroadcast → Bytes → ℕ → Option SolverMessage
unfolding seal
outbound env key (new_intent intent_id batch_id plaintext) nonce stamp =
    seal_for env key intent_id batch_id nonce stamp plaintext
outbound env key (batch_closed batch_id close_time intent_count auction_deadline) nonce stamp =
    some (batch batch_id close_time intent_count auction_deadline)

abbrev pub send_replayed : Bool → List SolverMessage → Socket → Socket
send_replayed delivered [] socket = socket
send_replayed delivered (m ∷ queue) socket =
    deliver delivered m (record socket { replay_queue = queue })

unfoldable pub round : Env → Event → Socket → Socket
unfolding handle_solver_message outbound
round env (message msg found nonces stamps) socket =
    handle_solver_message env msg found nonces stamps socket
round env (broadcast m nonce stamp delivered) socket =
    deliver_some delivered (outbound env socket.solver_public_key m nonce stamp) socket
round env (replay delivered) socket = send_replayed delivered socket.replay_queue socket
round env (tick stamp delivered) socket = deliver delivered (ping stamp) socket
round env ignored socket = socket
round env broadcaster_dropped socket = record socket { is_running = false }
round env socket_closed socket = record socket { is_running = false }

-- Once one of the tasks has ended, nothing happens.
unfoldable pub run : Env → List Event → Socket → Socket
unfolding round
run env [] socket = socket
run env (event ∷ events) socket =
    run env events (if socket.is_running then round env event socket else socket)
