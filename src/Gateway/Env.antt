-- ===== src/Gateway/Env.antt =====
-- What a handler is given beside its request: the settings, the code that is not the gateway's, and
-- the call's header, address and clock readings.
use blindmarkets.Base.{ℕ, List, Option, some, Text}
use blindmarkets.Json.{Value, deserialize_u128, deserialize_u64}
use blindmarkets.Gateway.Types.{Config, DecryptedIntent, IntentCommitment}
use blindmarkets.Gateway.Crypto.{Bytes, Primitives, ◌>>=◌, decrypt_from_client}
use blindmarkets.Gateway.Auth.{Rpc}

pub record IntentFields : Type 0 where
  pub user_address : Text
  pub asset_in : Text
  pub asset_out : Text
  pub amount : Value
  pub amount_commitment : Text
  pub min_output : Value
  pub max_fee_bps : ℕ  -- u16
  pub deadline : Value
  pub privacy_mode : ℕ  -- u8
  pub nonce : Text

pub record Env : Type 0 where
  pub config : Config
  pub primitives : Primitives
  pub rpc : Rpc
  -- What serde_json reads of the fields of a `DecryptedIntent`.
  pub from_slice : Bytes → Option IntentFields
  pub felt_from_hex : Text → Option ℕ
  pub pedersen_hash : ℕ → ℕ → ℕ
  -- The chain's answers to a commit and to a cancel: a transaction hash, or an error.
  pub commit_onchain : IntentCommitment → List Text → Option Text
  pub cancel_onchain : Text → List Text → Option Text

-- `headers` gives a header's value where it is text. The clock is read at several places; `stamp`
-- is `Utc::now()`.
pub record Call : Type 0 where
  pub headers : Text → Option Text
  pub client_ip : Text
  pub batch_clock : Option ℕ
  pub execution_clock : Option ℕ
  pub deadline_clock : Option ℕ
  pub stamp : ℕ

-- A stored or submitted intent, deciphered with the gateway's key.
unfoldable pub decipher : Env → Text → Text → Text → Option Bytes
decipher env ciphertext session_key client_public_key =
    decrypt_from_client env.primitives ciphertext session_key client_public_key
      env.config.gateway_private_key

-- `serde_json::from_slice::<DecryptedIntent>`, with its `deserialize_with`.
unfoldable pub parse_intent : Env → Bytes → Option DecryptedIntent
parse_intent env plaintext = do
  fields ← env.from_slice plaintext
  amount ← deserialize_u128 fields.amount
  min_output ← deserialize_u128 fields.min_output
  deadline ← deserialize_u64 fields.deadline
  some (record {
    user_address = fields.user_address;
    asset_in = fields.asset_in;
    asset_out = fields.asset_out;
    amount = amount;
    amount_commitment = fields.amount_commitment;
    min_output = min_output;
    max_fee_bps = fields.max_fee_bps;
    deadline = deadline;
    privacy_mode = fields.privacy_mode;
    nonce = fields.nonce;
  })
