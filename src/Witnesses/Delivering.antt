-- ===== src/Witnesses/Delivering.antt =====
-- The round trips of the encrypted texts, at concrete keys.
use blindmarkets.Base.{ℕ, zero, suc, ◌≡◌, refl, List, [], ◌∷◌, ◌++◌, some, Text, codes}
use blindmarkets.Gateway.Crypto.{
  Bytes, EncryptionPayload, trim_hex_prefix, decode_key_32, decrypt_from_client, encrypt_for_solver,
}
use blindmarkets.Base.{
  none, retain, text_eq, starts_with, len, all, is_ascii_digit, any, if◌then◌else◌,
}
use blindmarkets.Gateway.Types.{Intent}
use blindmarkets.Gateway.Exec.{ok, World, ◌>>=◌, pure, query, round_trip, get_db}
use blindmarkets.Gateway.Auth.{require_api_key}
use blindmarkets.Gateway.Env.{Env, Call, decipher}
use blindmarkets.Gateway.SolverFetch.{
  SolverEncryptedIntent, ids_of, wanted, solver_key_of, reencrypt, reencrypt_all,
  get_solver_batch_intents,
}
use blindmarkets.Gateway.SolverFetch.Delivery.{Delivered, get_solver_batch_intents-ok}
use blindmarkets.Witnesses.Data.{env, call, row, held_world}
use blindmarkets.Client.Encryption.{
  EncryptedIntentPayload, Draws, from_bytes, encrypt_intent, compute_shared_secret, encrypt_for,
  public_key_of, encrypt_intent_for_gateway,
}
use blindmarkets.Client.Delivery.{decrypt_from_client-encrypt_intent_for_gateway}
use blindmarkets.Solver.Monitor.{key_of_text, decrypt_bytes, solver_public_key}
use blindmarkets.Solver.Reception.{decrypt_bytes-encrypt_for_solver}
use blindmarkets.Witnesses.Sound.{primitives, primitives-IsSound}

abbrev repeated : ℕ → ℕ → Bytes
repeated zero b = []
repeated (suc n) b = b ∷ repeated n b

abbrev text_of : Bytes → Text
text_of = primitives.hex_encode

abbrev gateway_private : Bytes
gateway_private = repeated 32 1

abbrev solver_private : Bytes
solver_private = repeated 32 2

abbrev json : Bytes
json = 123 ∷ 125 ∷ []

abbrev draws : Draws
draws = record {
  private_key = repeated 32 3;
  session_key = repeated 32 1;
  intent_nonce = repeated 12 0;
  key_nonce = repeated 12 1;
}

abbrev payload : EncryptedIntentPayload
payload = record {
  ciphertext_hex = codes "0x" ++ text_of (repeated 12 0 ++ 124 ∷ 126 ∷ []);
  client_public_key_hex = codes "0x" ++ text_of (repeated 32 3);
  encrypted_session_key_hex = codes "0x" ++ text_of (repeated 12 1 ++ repeated 32 2);
}

abbrev solver_payload : EncryptionPayload
solver_payload = record {
  ciphertext_hex = codes "0x" ++ text_of (repeated 12 0 ++ 124 ∷ 126 ∷ []);
  sender_public_key_hex = codes "0x" ++ text_of gateway_private;
}

gateway_key : decode_key_32 primitives (text_of gateway_private) ≡ some gateway_private
unfolding decode_key_32 trim_hex_prefix
gateway_key = refl

solver_key : decode_key_32 primitives (text_of solver_private) ≡ some solver_private
unfolding decode_key_32 trim_hex_prefix
solver_key = refl

published :
    solver_public_key primitives (text_of solver_private)
    ≡ some (codes "0x" ++ text_of solver_private)
unfolding solver_public_key key_of_text trim_hex_prefix
published = refl

encrypted :
    encrypt_intent_for_gateway primitives draws (some json) (primitives.public_key gateway_private)
    ≡ some payload
unfolding encrypt_intent_for_gateway encrypt_intent encrypt_for from_bytes compute_shared_secret
    public_key_of
encrypted = refl

sealed :
    encrypt_for_solver primitives
      (repeated 12 0)
      json
      (text_of gateway_private)
      (codes "0x" ++ text_of solver_private)
    ≡ some solver_payload
unfolding encrypt_for_solver decode_key_32 trim_hex_prefix
sealed = refl

decrypt_from_client-encrypt_intent_for_gateway_example :
    decrypt_from_client primitives payload.ciphertext_hex payload.encrypted_session_key_hex
      payload.client_public_key_hex
      (text_of gateway_private)
    ≡ some json
decrypt_from_client-encrypt_intent_for_gateway_example =
    decrypt_from_client-encrypt_intent_for_gateway primitives draws json gateway_private
      (text_of gateway_private) payload primitives-IsSound refl refl refl gateway_key encrypted

decrypt_bytes-encrypt_for_solver_example :
    decrypt_bytes primitives
      (text_of solver_private)
      solver_payload.ciphertext_hex
      solver_payload.sender_public_key_hex
    ≡ some json
decrypt_bytes-encrypt_for_solver_example =
    decrypt_bytes-encrypt_for_solver primitives (repeated 12 0) json gateway_private solver_private
      (text_of gateway_private) (text_of solver_private) (codes "0x" ++ text_of solver_private)
      solver_payload primitives-IsSound refl gateway_key solver_key published sealed

-- The gateway with these primitives, a solver whose key is short in this notation, and the row as
-- the client encrypts it.
abbrev sound_env : Env
sound_env = record env {
  primitives = primitives;
  config = record env.config { gateway_private_key = text_of gateway_private };
}

abbrev short_private : Bytes
short_private = repeated 32 1

abbrev solver_call : Call
solver_call = record call {
  headers = λ name.
      if text_eq name (codes "x-solver-public-key")
      then some (codes "0x" ++ text_of short_private)
      else some (codes "key");
}

abbrev sealed_row : Intent
sealed_row = record row {
  ciphertext = payload.ciphertext_hex;
  encrypted_session_key = some payload.encrypted_session_key_hex;
  client_public_key = payload.client_public_key_hex;
}

abbrev sealed_world : World
sealed_world = record held_world { db = record held_world.db { intents = sealed_row ∷ [] } }

abbrev items : List SolverEncryptedIntent
items =
    record {
      intent_id = row.intent_id;
      encrypted_data = solver_payload.ciphertext_hex;
      gateway_public_key = solver_payload.sender_public_key_hex;
    }
    ∷ []

fetched :
    (get_solver_batch_intents sound_env solver_call
      (λ n. repeated 12 0)
      (codes "1")
      none
      sealed_world).0
    ≡ ok items
unfolding get_solver_batch_intents reencrypt_all reencrypt wanted require_api_key text_eq
    starts_with len all is_ascii_digit query round_trip get_db pure ◌>>=◌ retain decipher
    decrypt_from_client decode_key_32 trim_hex_prefix encrypt_for_solver any
fetched = refl

published_header :
    solver_public_key primitives (text_of short_private) ≡ some (solver_key_of solver_call)
unfolding solver_public_key key_of_text trim_hex_prefix text_eq
published_header = refl

get_solver_batch_intents-ok_example :
    Delivered sound_env
      (text_of short_private)
      (solver_key_of solver_call)
      (λ n. repeated 12 0)
      0
      (retain (wanted (ids_of none) (codes "1")) sealed_world.db.intents)
      items
    × ((get_solver_batch_intents sound_env solver_call
          (λ n. repeated 12 0)
          (codes "1")
          none
          sealed_world).1.db
        ≡ sealed_world.db)
get_solver_batch_intents-ok_example =
    get_solver_batch_intents-ok sound_env solver_call (λ n. repeated 12 0) (codes "1") none
      sealed_world items (text_of short_private) gateway_private short_private primitives-IsSound
      gateway_key gateway_key published_header (λ n. refl) fetched
