-- ===== src/Solver/Inbox/Received.antt =====
-- What the solver has in its channels of what the gateway has sent on a connection.
use mathlib.Core.List.{append-nil, append_assoc}
use blindmarkets.Base.{ℕ, ◌≡◌, refl, sym, ap, ◌∙◌, Bool, List, [], ◌∷◌, ◌++◌, Option, some, Text}
use blindmarkets.Gateway.Crypto.{Bytes, decode_key_32}
use blindmarkets.Gateway.Env.{Env}
use blindmarkets.Gateway.Websocket.{
  SolverMessage, connected, intent, batch, ping, Event, open_socket, run,
}
use blindmarkets.Gateway.Websocket.Feed.{Notice, greeting, alive, follow_all, begin}
use blindmarkets.Gateway.Websocket.Feed
use blindmarkets.Gateway.Websocket.Readable.{Reads, ReadsAll, Seals}
use blindmarkets.Gateway.Websocket.Refinement.{AllOwn, run-Refines}
use blindmarkets.Client.Delivery.{IsSound}
use blindmarkets.Solver.Matching.{SolverIntent}
use blindmarkets.Solver.Monitor.{decrypt_intent, decrypt_bytes, solver_public_key}
use blindmarkets.Solver.Inbox.{
  GatewayMessage, IntentEnvelope, Channels, Incoming, text, forward, handle_gateway_message,
  receive,
}
use blindmarkets.Solver.Inbox

-- The gateway's JSON text as the solver reads it.
abbrev pub wire : SolverMessage → GatewayMessage
wire (connected timestamp) = Inbox.connected timestamp
wire (intent m) =
    Inbox.new_intent m.intent_id m.batch_id m.encrypted_data m.gateway_public_key m.timestamp
wire (batch b c n d) = Inbox.batch_closed b c n d
wire (ping timestamp) = Inbox.ping timestamp

-- The messages sent, which are given newest first, as they arrive.
abbrev pub frames : List SolverMessage → List Incoming
frames [] = []
frames (m ∷ ms) = frames ms ++ text (wire m) ∷ []

abbrev pub no_channels : Channels
no_channels = record { intents = []; batches = [] }

-- What a notice puts into the channels: an intent that parses, or a closed batch.
abbrev pub put : (Bytes → Option SolverIntent) → Notice → Channels → Channels
put parse greeting c = c
put parse alive c = c
put parse (Feed.intent intent_id batch_id plaintext) c = record c {
  intents = forward intent_id batch_id (parse plaintext) c.intents;
}
put parse (Feed.batch batch_id close_time intent_count deadline) c = record c {
  batches = c.batches ++ (batch_id, intent_count) ∷ [];
}

-- The notices are given newest first.
abbrev pub put_all : (Bytes → Option SolverIntent) → List Notice → Channels → Channels
put_all parse [] c = c
put_all parse (n ∷ ns) c = put parse n (put_all parse ns c)

module _ (env : Env) (solver_hex : Text) (parse : Bytes → Option SolverIntent) where
  abbrev handle : GatewayMessage → Channels → Channels
  handle = handle_gateway_message env.primitives solver_hex parse

  decrypt_intent-Reads :
      (encrypted_data key : Text) (plaintext : Bytes)
      → decrypt_bytes env.primitives solver_hex encrypted_data key ≡ some plaintext
      → decrypt_intent env.primitives solver_hex parse encrypted_data key ≡ parse plaintext
  unfolding decrypt_intent
  decrypt_intent-Reads encrypted_data key plaintext h = rw h refl

  handle-Reads :
      (m : SolverMessage) (n : Notice) (c : Channels)
      → Reads env solver_hex m n
      → handle (wire m) c ≡ put parse n c
  unfolding handle_gateway_message
  handle-Reads (connected _) greeting c h = refl
  handle-Reads (ping _) alive c h = refl
  handle-Reads (batch b k n d) (Feed.batch b' k' n' d') c (eb, ek, en, ed) = rw (eb, en) refl
  handle-Reads (intent m) (Feed.intent id b plaintext) c (eid, eb, read) =
      rw (eid, eb, decrypt_intent-Reads m.encrypted_data m.gateway_public_key plaintext read) refl
  handle-Reads (connected _) alive c h = absurd h
  handle-Reads (connected _) (Feed.intent _ _ _) c h = absurd h
  handle-Reads (connected _) (Feed.batch _ _ _ _) c h = absurd h
  handle-Reads (ping _) greeting c h = absurd h
  handle-Reads (ping _) (Feed.intent _ _ _) c h = absurd h
  handle-Reads (ping _) (Feed.batch _ _ _ _) c h = absurd h
  handle-Reads (batch _ _ _ _) greeting c h = absurd h
  handle-Reads (batch _ _ _ _) alive c h = absurd h
  handle-Reads (batch _ _ _ _) (Feed.intent _ _ _) c h = absurd h
  handle-Reads (intent _) greeting c h = absurd h
  handle-Reads (intent _) alive c h = absurd h
  handle-Reads (intent _) (Feed.batch _ _ _ _) c h = absurd h

  receive-frames :
      (ms : List SolverMessage) (ns : List Notice) (rest : List Incoming) (c : Channels)
      → ReadsAll env solver_hex ms ns
      → receive env.primitives solver_hex parse (frames ms ++ rest) c
        ≡ receive env.primitives solver_hex parse rest (put_all parse ns c)
  unfolding receive
  receive-frames [] [] rest c h = refl
  receive-frames (m ∷ ms) (n ∷ ns) rest c (h, hs) =
      ap (λ t. receive env.primitives solver_hex parse t c) (append_assoc (frames ms) _ rest)
      ∙ receive-frames ms ns (text (wire m) ∷ rest) c hs
      ∙ ap (receive env.primitives solver_hex parse rest) (handle-Reads m n (put_all parse ns c) h)
  receive-frames [] (n ∷ ns) rest c h = absurd h
  receive-frames (m ∷ ms) [] rest c h = absurd h

-- What the gateway has sent on a connection, the solver has in its channels to the main loop: where
-- the solver registers the key of its private key, and no other, its channels hold the intents of
-- the feed whose plaintexts parse, under the gateway's ids and batches, and the closed batches, each
-- in the order of the feed and once.
pub receive-run :
    (env : Env) (solver_hex own : Text) (gateway_private solver_private : Bytes)
    (parse : Bytes → Option SolverIntent) (events : List Event) (stamp : ℕ) (delivered : Bool)
    → IsSound env.primitives
    → Seals env
    → decode_key_32 env.primitives env.config.gateway_private_key ≡ some gateway_private
    → decode_key_32 env.primitives solver_hex ≡ some solver_private
    → solver_public_key env.primitives solver_hex ≡ some own
    → AllOwn own events
    → receive env.primitives solver_hex parse
        (frames (run env events (open_socket stamp delivered)).sent)
        no_channels
      ≡ put_all parse (follow_all env events (begin delivered)).given no_channels
unfolding receive
receive-run env solver_hex own gateway_private solver_private parse events stamp delivered sound
      seals gk sk published o =
    let sent = (run env events (open_socket stamp delivered)).sent in
    ap (λ t. receive env.primitives solver_hex parse t no_channels) (sym (append-nil (frames sent)))
    ∙ receive-frames env solver_hex parse sent _ [] no_channels (
        run-Refines env solver_hex own gateway_private solver_private events stamp delivered sound
          seals gk sk published o)
