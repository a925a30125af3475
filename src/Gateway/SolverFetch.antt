-- ===== src/Gateway/SolverFetch.antt =====
-- `get_solver_batch_intents` of backend/gateway/src/api.rs: a solver fetches the open intents of a
-- batch, or those of the ids that it names, each encrypted anew for it. The nonce of the row at each
-- position is an argument.
pub mod Delivery
use blindmarkets.Base.{
  ℕ, suc, Bool, not, ◌&&◌, ◌||◌, List, [], ◌∷◌, map, Option, none, some, unwrap_or, is_some, Text,
  codes, text_eq, starts_with, is_empty, len, ltb, entries, ◌==◌, any, all, is_ascii_digit, trim,
  retain, if◌then◌else◌,
}
use blindmarkets.Gateway.Types.{Intent, is_open}
use blindmarkets.Gateway.Exec.{Exec, pure, ◌>>=◌, ◌>>◌, checked, query}
use blindmarkets.Gateway.Crypto.{Bytes, EncryptionPayload, encrypt_for_solver}
use blindmarkets.Gateway.Auth.{require_api_key}
use blindmarkets.Gateway.Hex.{hex_prefix}
use blindmarkets.Gateway.Validate.{refuse_if}
use blindmarkets.Gateway.Env.{Env, Call, decipher}

pub record SolverEncryptedIntent : Type 0 where
  pub intent_id : Text
  pub encrypted_data : Text
  pub gateway_public_key : Text

unfoldable pub explicit_ids : Text → List Text
explicit_ids raw = entries raw

abbrev pub ids_of : Option Text → Option (List Text)
ids_of none = none
ids_of (some raw) = some (explicit_ids raw)

-- The WHERE of the two queries.
unfoldable pub wanted : Option (List Text) → Text → Intent → Bool
wanted none batch_id row =
    text_eq row.batch_id batch_id && is_open row.status && is_some row.encrypted_session_key
wanted (some ids) batch_id row =
    any (text_eq row.intent_id) ids && is_open row.status && is_some row.encrypted_session_key

abbrev pub item_of : Text → EncryptionPayload → SolverEncryptedIntent
item_of intent_id payload = record {
  intent_id = intent_id;
  encrypted_data = payload.ciphertext_hex;
  gateway_public_key = payload.sender_public_key_hex;
}

abbrev pub sealed_item : Text → Option EncryptionPayload → Option SolverEncryptedIntent
sealed_item intent_id none = none
sealed_item intent_id (some payload) = some (item_of intent_id payload)

abbrev encrypt_row : Env → Text → Bytes → Text → Option Bytes → Option SolverEncryptedIntent
encrypt_row env solver_public_key nonce intent_id none = none
encrypt_row env solver_public_key nonce intent_id (some plaintext) = sealed_item intent_id (
    encrypt_for_solver env.primitives nonce plaintext env.config.gateway_private_key
      solver_public_key)

abbrev pub plaintext_of : Env → Intent → Option Text → Option Bytes
plaintext_of env row none = none
plaintext_of env row (some key) = decipher env row.ciphertext key row.client_public_key

-- One round of the loop; none where it is a `continue`.
unfoldable pub reencrypt : Env → Text → Bytes → Intent → Option SolverEncryptedIntent
reencrypt env solver_public_key nonce row =
    encrypt_row env solver_public_key nonce row.intent_id
      (plaintext_of env row row.encrypted_session_key)

abbrev pub push :
    Option SolverEncryptedIntent → List SolverEncryptedIntent → List SolverEncryptedIntent
push none intents = intents
push (some intent) intents = intent ∷ intents

unfoldable pub reencrypt_all :
    Env → Text → (ℕ → Bytes) → ℕ → List Intent → List SolverEncryptedIntent
unfolding reencrypt
reencrypt_all env solver_public_key nonces i [] = []
reencrypt_all env solver_public_key nonces i (row ∷ rows) =
    push (reencrypt env solver_public_key (nonces i) row)
      (reencrypt_all env solver_public_key nonces (suc i) rows)

abbrev pub solver_key_of : Call → Text
solver_key_of call = unwrap_or (call.headers (codes "x-solver-public-key")) []

unfoldable pub get_solver_batch_intents :
    Env → Call → (ℕ → Bytes) → Text → Option Text → Exec (List SolverEncryptedIntent)
unfolding explicit_ids wanted reencrypt_all
get_solver_batch_intents env call nonces batch_id intent_ids = do
  checked (require_api_key call.headers env.config)
  let solver_public_key = solver_key_of call
  checked (
      refuse_if (
        not (starts_with solver_public_key hex_prefix)
        || (ltb (len solver_public_key) 66 || ltb 66 (len solver_public_key))))
  checked (refuse_if (not (all is_ascii_digit batch_id)))
  rows ← query (λ d. retain (wanted (ids_of intent_ids) batch_id) d.intents)
  pure (reencrypt_all env solver_public_key nonces 0 rows)
