-- ===== src/Gateway/Websocket/Refinement.antt =====
-- That a connection gives the solver what it promises.
use blindmarkets.Base.{
  ℕ, ◌≡◌, refl, inl, inr, true, false, Bool, List, [], ◌∷◌, Option, none, some, Text, codes, length,
  text_eq, Bool-cases, if◌then◌else◌,
}
use blindmarkets.Gateway.Types.{Db, SolverBroadcast, new_intent, batch_closed}
use blindmarkets.Gateway.Crypto.{Bytes, decode_key_32}
use blindmarkets.Gateway.Env.{Env}
use blindmarkets.Client.Delivery.{IsSound}
use blindmarkets.Solver.Monitor.{solver_public_key}
use blindmarkets.Gateway.Websocket.{
  SolverMessage, batch, ping, Event, message, broadcast, replay, tick, ignored, broadcaster_dropped,
  socket_closed, Socket, open_socket, is_valid_key, handle_solver_message, register, send_replayed,
  deliver_some, deliver, outbound, round, run,
}
use blindmarkets.Gateway.Websocket.Feed.{
  Notice, greeting, alive, row_notice, stored_notices, found_notices, greet, give, give_broadcast,
  give_waiting, follow, follow_all, begin,
}
use blindmarkets.Gateway.Websocket.Feed
use blindmarkets.Gateway.Websocket.Readable.{
  Reads, ReadsAll, Seals, IsReader, ReadsAll-append, seal-Reads, replay_pending-ReadsAll,
}

-- The solver registers the key `own` and no other; the nonces have 12 bytes.
abbrev pub IsOwn : Text → Event → Type 0
IsOwn own (message msg found nonces stamps) =
    ((key : Text) → msg.solver_public_key ≡ some key → key ≡ own)
    × ((n : ℕ) → length (nonces n) ≡ 12)
IsOwn own (broadcast m nonce stamp delivered) = length nonce ≡ 12
IsOwn own _ = Unit

abbrev pub AllOwn : Text → List Event → Type 0
AllOwn own [] = Unit
AllOwn own (event ∷ events) = IsOwn own event × AllOwn own events

abbrev KeyFits : Text → Option Text → Bool → Type 0
KeyFits own none is_registered = is_registered ≡ false
KeyFits own (some key) is_registered = (key ≡ own) × (is_registered ≡ true)

-- The connection against its promise.
pub record Fits (env : Env) (solver_hex own : Text) (socket : Socket) (feed : Feed.Feed)
    : Type 0 where
  pub key : KeyFits own socket.solver_public_key feed.is_registered
  pub queue : ReadsAll env solver_hex socket.replay_queue feed.waiting
  pub sent : ReadsAll env solver_hex socket.sent feed.given
  pub running : socket.is_running ≡ feed.is_running

module _ (env : Env) (solver_hex own : Text) (r : IsReader env solver_hex own) where
  abbrev Serves : Socket → Feed.Feed → Type 0
  Serves = Fits env solver_hex own

  deliver-Fits :
      (delivered : Bool) (m : SolverMessage) (n : Notice) (socket : Socket) (feed : Feed.Feed)
      → Reads env solver_hex m n
      → Serves socket feed
      → Serves (deliver delivered m socket) (give delivered n feed)
  deliver-Fits true m n socket feed h f = record {
    key = f.key;
    queue = f.queue;
    sent = (h, f.sent);
    running = f.running;
  }
  deliver-Fits false m n socket feed h f = record {
    key = f.key;
    queue = f.queue;
    sent = f.sent;
    running = refl;
  }

  register-Fits :
      (nonces : ℕ → Bytes) (stamps : ℕ → ℕ) (found : Option Db) (key : Option Text)
      (socket : Socket) (feed : Feed.Feed)
      → ((k : Text) → key ≡ some k → k ≡ own)
      → ((n : ℕ) → length (nonces n) ≡ 12)
      → Serves socket feed
      → Serves (register env nonces stamps found key socket) (greet env found key feed)
  register-Fits nonces stamps found none socket feed own_key twelve f = f
  register-Fits nonces stamps found (some k) socket feed own_key twelve f =
      elim (Bool-cases (is_valid_key k)) [
        | inr bad ↦ rw bad f
        | inl valid ↦ rw valid (record {
          key = (own_key k refl, refl);
          queue = rw (own_key k refl) (
              ReadsAll-append env solver_hex _ _ _ _ f.queue
                (replay_pending-ReadsAll env solver_hex own r nonces stamps found twelve));
          sent = f.sent;
          running = f.running;
        })
      ]

  send_replayed-Fits :
      (delivered : Bool) (queue : List SolverMessage) (waiting : List Notice) (socket : Socket)
      (feed : Feed.Feed)
      → ReadsAll env solver_hex queue waiting
      → Serves socket feed
      → Serves (send_replayed delivered queue socket) (give_waiting delivered waiting feed)
  send_replayed-Fits delivered [] [] socket feed h f = f
  send_replayed-Fits delivered (m ∷ ms) (n ∷ ns) socket feed (h, hs) f =
      deliver-Fits delivered m n _ _ h
        (record { key = f.key; queue = hs; sent = f.sent; running = f.running })
  send_replayed-Fits delivered [] (n ∷ ns) socket feed h f = absurd h
  send_replayed-Fits delivered (m ∷ ms) [] socket feed h f = absurd h

  intent-Fits :
      (key : Option Text) (is_registered : Bool) (intent_id batch_id : Text)
      (plaintext nonce : Bytes) (stamp : ℕ) (delivered : Bool) (socket : Socket) (feed : Feed.Feed)
      → KeyFits own key is_registered
      → length nonce ≡ 12
      → Serves socket feed
      → Serves
          (deliver_some delivered
            (outbound env key (new_intent intent_id batch_id plaintext) nonce stamp)
            socket)
          (if is_registered
            then give delivered (Feed.intent intent_id batch_id plaintext) feed
            else feed)
  unfolding outbound
  intent-Fits none b intent_id batch_id plaintext nonce stamp delivered socket feed k twelve f =
      rw k f
  intent-Fits (some key) b intent_id batch_id plaintext nonce stamp delivered socket feed (e, on)
        twelve f =
      let (m, sealed_as, reads) =
        seal-Reads env solver_hex own r intent_id batch_id nonce plaintext stamp twelve in
      rw on (rw e (rw sealed_as (deliver-Fits delivered m _ socket feed reads f)))

  broadcast-Fits :
      (m : SolverBroadcast) (nonce : Bytes) (stamp : ℕ) (delivered : Bool) (socket : Socket)
      (feed : Feed.Feed)
      → length nonce ≡ 12
      → Serves socket feed
      → Serves
          (deliver_some delivered (outbound env socket.solver_public_key m nonce stamp) socket)
          (give_broadcast delivered m feed)
  unfolding outbound
  broadcast-Fits (new_intent intent_id batch_id plaintext) nonce stamp delivered socket feed twelve
        f =
      intent-Fits socket.solver_public_key feed.is_registered intent_id batch_id plaintext nonce
        stamp delivered socket feed f.key twelve f
  broadcast-Fits (batch_closed b c n d) nonce stamp delivered socket feed twelve f =
      deliver-Fits delivered (batch b c n d) (Feed.batch b c n d) socket feed
        (refl, refl, refl, refl) f

  stop-Fits :
      (socket : Socket) (feed : Feed.Feed)
      → Serves socket feed
      → Serves (record socket { is_running = false }) (record feed { is_running = false })
  stop-Fits socket feed f = record { key = f.key; queue = f.queue; sent = f.sent; running = refl }

  round-Fits :
      (event : Event) (socket : Socket) (feed : Feed.Feed)
      → IsOwn own event
      → Serves socket feed
      → Serves (round env event socket) (follow env event feed)
  unfolding round follow handle_solver_message
  round-Fits (message msg found nonces stamps) socket feed (own_key, twelve) f =
      elim (Bool-cases (text_eq msg.type (codes "hello"))) [
        | inr other ↦ rw other f
        | inl hello ↦
            rw hello
              (register-Fits nonces stamps found msg.solver_public_key socket feed own_key twelve f)
      ]
  round-Fits (broadcast m nonce stamp delivered) socket feed twelve f =
      broadcast-Fits m nonce stamp delivered socket feed twelve f
  round-Fits (replay delivered) socket feed o f =
      send_replayed-Fits delivered socket.replay_queue feed.waiting socket feed f.queue f
  round-Fits (tick stamp delivered) socket feed o f =
      deliver-Fits delivered (ping stamp) alive socket feed tt f
  round-Fits ignored socket feed o f = f
  round-Fits broadcaster_dropped socket feed o f = stop-Fits socket feed f
  round-Fits socket_closed socket feed o f = stop-Fits socket feed f

  if-Fits :
      (a b : Bool) (socket next : Socket) (feed feed' : Feed.Feed)
      → a ≡ b
      → Serves socket feed
      → Serves next feed'
      → Serves (if a then next else socket) (if b then feed' else feed)
  if-Fits true true socket next feed feed' e f g = g
  if-Fits false false socket next feed feed' e f g = f
  if-Fits true false socket next feed feed' e f g = absurd (cc)
  if-Fits false true socket next feed feed' e f g = absurd (cc)

  run-Fits :
      (events : List Event) (socket : Socket) (feed : Feed.Feed)
      → AllOwn own events
      → Serves socket feed
      → Serves (run env events socket) (follow_all env events feed)
  unfolding run follow_all
  run-Fits [] socket feed o f = f
  run-Fits (event ∷ events) socket feed (o, os) f =
      run-Fits events _ _ os
        (if-Fits _ _ socket _ feed _ f.running f (round-Fits event socket feed o f))

open_socket-Fits :
    (env : Env) (solver_hex own : Text) (stamp : ℕ) (delivered : Bool)
    → Fits env solver_hex own (open_socket stamp delivered) (begin delivered)
unfolding open_socket begin
open_socket-Fits env solver_hex own stamp true = record {
  key = refl;
  queue = tt;
  sent = (tt, tt);
  running = refl;
}
open_socket-Fits env solver_hex own stamp false = record {
  key = refl;
  queue = tt;
  sent = tt;
  running = refl;
}

-- A connection gives a solver what it promises, in any sequence of events: a solver that registers
-- the key of its private key, and no other, has received the messages of the feed in their order,
-- and reads each of them, the plaintext of every intent included. The feed holds what was broadcast
-- after a key was registered, the closed batches and pings of the whole time, and at each
-- registration the open intents of the tables that decipher; it ends at the first failed send.
pub run-Refines :
    (env : Env) (solver_hex own : Text) (gateway_private solver_private : Bytes)
    (events : List Event) (stamp : ℕ) (delivered : Bool)
    → IsSound env.primitives
    → Seals env
    → decode_key_32 env.primitives env.config.gateway_private_key ≡ some gateway_private
    → decode_key_32 env.primitives solver_hex ≡ some solver_private
    → solver_public_key env.primitives solver_hex ≡ some own
    → AllOwn own events
    → ReadsAll env solver_hex
        (run env events (open_socket stamp delivered)).sent
        (follow_all env events (begin delivered)).given
run-Refines env solver_hex own gateway_private solver_private events stamp delivered sound seals gk
      sk published o =
    (run-Fits env solver_hex own
      (record {
        gateway_private = gateway_private;
        solver_private = solver_private;
        sound = sound;
        sealing = seals;
        gateway_key = gk;
        solver_key = sk;
        published = published;
      })
      events _ _ o (open_socket-Fits env solver_hex own stamp delivered)).sent
