-- ===== src/Witnesses/Connecting.antt =====
-- The theorems on a solver's connection at a concrete sequence of events.
use blindmarkets.Base.{
  ℕ, zero, suc, ◌≡◌, refl, sym, ap, true, some, none, Option, if◌then◌else◌, is_empty, unwrap_or,
  List, [], ◌∷◌, ◌++◌, Text, codes,
}
use blindmarkets.Gateway.Types.{new_intent}
use blindmarkets.Gateway.Crypto.{Bytes, trim_hex_prefix, decode_key_32}
use blindmarkets.Gateway.Env.{Env}
use blindmarkets.Gateway.Websocket.{Event, message, broadcast, replay, tick, open_socket, run}
use blindmarkets.Gateway.Websocket.Feed.{follow_all, begin}
use blindmarkets.Gateway.Websocket.Readable.{ReadsAll, Seals}
use blindmarkets.Gateway.Websocket.Refinement.{AllOwn, run-Refines}
use blindmarkets.Solver.Inbox.{receive}
use blindmarkets.Solver.Inbox.Received.{frames, no_channels, put_all, receive-run}
use blindmarkets.Json.{number, string}
use blindmarkets.Solver.Monitor.{key_of_text, solver_public_key, IntentFields, parse_intent}
use blindmarkets.Witnesses.Data.{env, held_db}
use blindmarkets.Witnesses.Sound.{primitives, primitives-IsSound}

abbrev copies : ℕ → ℕ → Bytes
copies zero b = []
copies (suc n) b = b ∷ copies n b

-- The private key of both sides, as text.
abbrev private_key : Bytes
private_key = copies 32 1

abbrev private_text : Text
private_text = primitives.hex_encode private_key

abbrev reader_env : Env
reader_env = record env {
  primitives = primitives;
  config = record env.config { gateway_private_key = private_text };
}

private_read : decode_key_32 primitives private_text ≡ some private_key
unfolding decode_key_32 trim_hex_prefix
private_read = refl

abbrev own : Text
own = codes "0x" ++ private_text

own_published : solver_public_key primitives private_text ≡ some own
unfolding solver_public_key key_of_text trim_hex_prefix
own_published = refl

always-Seals : Seals reader_env
always-Seals = record { seals = λ k n m h. (_, refl) }

-- A hello, the waiting intents of the table, an intent and a ping.
abbrev events : List Event
events =
    message (record { type = codes "hello"; solver_public_key = some own }) (some held_db)
      (λ n. copies 12 0) (λ n. 1700000000)
    ∷ replay true
    ∷ broadcast (new_intent (codes "0x1") (codes "7") (123 ∷ 125 ∷ [])) (copies 12 0) 1700000001
        true
    ∷ tick 1700000030 true
    ∷ []

all_own : AllOwn own events
all_own = ((λ k e. ap (λ o. unwrap_or o []) (sym e), λ n. refl), (tt, (refl, (tt, tt))))

run-Refines_example :
    ReadsAll reader_env private_text
      (run reader_env events (open_socket 1700000000 true)).sent
      (follow_all reader_env events (begin true)).given
run-Refines_example =
    run-Refines reader_env private_text own private_key private_key events 1700000000 true
      primitives-IsSound always-Seals private_read private_read own_published all_own

-- A text that is not empty is read as these fields.
abbrev from_slice : Bytes → Option IntentFields
from_slice plaintext =
    if is_empty plaintext
    then none
    else some (record {
      intent_id = [];
      user_address = codes "0xa1";
      asset_in = codes "0xb2";
      asset_out = codes "0xc3";
      amount = string (codes "500");
      min_output = number (some 400);
      deadline = number (some 1700000100);
      privacy_mode = 1;
    })

receive-run_example :
    receive reader_env.primitives private_text
      (parse_intent from_slice)
      (frames (run reader_env events (open_socket 1700000000 true)).sent)
      no_channels
    ≡ put_all
        (parse_intent from_slice)
        (follow_all reader_env events (begin true)).given
        no_channels
receive-run_example =
    receive-run reader_env private_text own private_key private_key (parse_intent from_slice) events
      1700000000 true primitives-IsSound always-Seals private_read private_read own_published
      all_own
