-- ===== src/Solver/Monitor.antt =====
-- `decrypt_intent` and `solver_public_key` of solver-reference/src/intent_monitor.rs, over the
-- primitives of the gateway's cryptography. Every error is none here.
use blindmarkets.Base.{ℕ, not, ◌++◌, Option, some, Text, codes, length, take, drop, ltb, ◌==◌}
use blindmarkets.Gateway.Crypto.{Bytes, Primitives, ◌>>=◌, ◌>>◌, ensure, trim_hex_prefix}
use blindmarkets.Json.{Value, deserialize_u128, deserialize_u64}
use blindmarkets.Solver.Matching.{SolverIntent}

-- What serde_json reads of a `DecryptedIntent`. The fields that the solver does not use are left out,
-- but for the deadline, which must parse.
pub record IntentFields : Type 0 where
  pub intent_id : Text
  pub user_address : Text
  pub asset_in : Text
  pub asset_out : Text
  pub amount : Value
  pub min_output : Value
  pub deadline : Value
  pub privacy_mode : ℕ  -- u8

-- `serde_json::from_slice::<DecryptedIntent>`, with its `deserialize_with`.
unfoldable pub parse_intent : (Bytes → Option IntentFields) → Bytes → Option SolverIntent
parse_intent from_slice plaintext = do
  fields ← from_slice plaintext
  amount ← deserialize_u128 fields.amount
  min_output ← deserialize_u128 fields.min_output
  _ ← deserialize_u64 fields.deadline
  some (record {
    intent_id = fields.intent_id;
    user_address = fields.user_address;
    asset_in = fields.asset_in;
    asset_out = fields.asset_out;
    amount = amount;
    min_output = min_output;
    privacy_mode = fields.privacy_mode;
  })

module _ (p : Primitives) (solver_private_key : Text) where
  unfoldable pub key_of_text : Text → Option Bytes
  key_of_text value = do
    key ← p.hex_decode (trim_hex_prefix value)
    ensure (length key == 32)
    some key

  -- What comes before the parsing of the JSON text.
  unfoldable pub decrypt_bytes : Text → Text → Option Bytes
  unfolding key_of_text
  decrypt_bytes encrypted_data gateway_public_key = do
    ciphertext ← p.hex_decode (trim_hex_prefix encrypted_data)
    ensure (not (ltb (length ciphertext) 12))
    private_key ← key_of_text solver_private_key
    public_key ← key_of_text gateway_public_key
    let shared_secret = p.diffie_hellman private_key public_key
    p.aes_decrypt shared_secret (take 12 ciphertext) (drop 12 ciphertext)

  unfoldable pub decrypt_intent : (Bytes → Option SolverIntent) → Text → Text → Option SolverIntent
  unfolding decrypt_bytes
  decrypt_intent parse encrypted_data gateway_public_key = do
    plaintext ← decrypt_bytes encrypted_data gateway_public_key
    parse plaintext

  unfoldable pub solver_public_key : Option Text
  unfolding key_of_text
  solver_public_key = do
    private_key ← key_of_text solver_private_key
    some (codes "0x" ++ p.hex_encode (p.public_key private_key))
