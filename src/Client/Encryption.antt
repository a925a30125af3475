-- ===== src/Client/Encryption.antt =====
-- client-sdk/src/encryption.rs over the primitives of the gateway's cryptography. What the random
-- generator gives is an argument, and so is the JSON text of the intent, none where serde_json fails.
-- Every `SdkError` is none here.
use blindmarkets.Base.{not, ◌++◌, Option, some, Text, codes, length, take, drop, ltb, ◌==◌}
use blindmarkets.Gateway.Crypto.{Bytes, Primitives, ◌>>=◌, ◌>>◌, ensure}

pub record EncryptedIntentPayload : Type 0 where
  pub ciphertext_hex : Text
  pub client_public_key_hex : Text
  pub encrypted_session_key_hex : Text

-- `ECDHKeyPair`, whose public key `public_key` derives, and `EncryptionKey`
pub record EcdhKeyPair : Type 0 where
  pub private_key : Bytes

pub record EncryptionKey : Type 0 where
  pub key_bytes : Bytes

-- The draws of `generate` for the key pair and the key, and of the two nonces.
pub record Draws : Type 0 where
  pub private_key : Bytes
  pub session_key : Bytes
  pub intent_nonce : Bytes
  pub key_nonce : Bytes

unfoldable pub from_bytes : Bytes → Option EncryptionKey
from_bytes key_bytes = do ensure (length key_bytes == 32); some (record { key_bytes = key_bytes })

module _ (p : Primitives) where
  unfoldable pub public_key_of : EcdhKeyPair → Bytes
  public_key_of pair = p.public_key pair.private_key

  unfoldable pub encrypt_intent : EncryptionKey → Bytes → Option Bytes → Option Bytes
  encrypt_intent key nonce_bytes intent_json = do
    json ← intent_json
    ciphertext ← p.aes_encrypt key.key_bytes nonce_bytes json
    some (nonce_bytes ++ ciphertext)

  -- `parse` reads the JSON text.
  unfoldable pub decrypt_intent {ℓ} :
      {A : Type ℓ} → (Bytes → Option A) → EncryptionKey → Bytes → Option A
  decrypt_intent parse key encrypted_data = do
    ensure (not (ltb (length encrypted_data) 12))
    plaintext ← p.aes_decrypt key.key_bytes (take 12 encrypted_data) (drop 12 encrypted_data)
    parse plaintext

  unfoldable pub compute_shared_secret : EcdhKeyPair → Bytes → Option Bytes
  compute_shared_secret pair other_public_key = do
    ensure (length other_public_key == 32)
    some (p.diffie_hellman pair.private_key other_public_key)

  unfoldable pub encrypt_for : EcdhKeyPair → Bytes → Bytes → Bytes → Option Bytes
  unfolding from_bytes compute_shared_secret
  encrypt_for pair nonce_bytes other_public_key plaintext = do
    shared_secret ← compute_shared_secret pair other_public_key
    key ← from_bytes shared_secret
    ciphertext ← p.aes_encrypt key.key_bytes nonce_bytes plaintext
    some (nonce_bytes ++ ciphertext)

  unfoldable pub decrypt_from : EcdhKeyPair → Bytes → Bytes → Option Bytes
  unfolding from_bytes compute_shared_secret
  decrypt_from pair other_public_key ciphertext_with_nonce = do
    ensure (not (ltb (length ciphertext_with_nonce) 12))
    shared_secret ← compute_shared_secret pair other_public_key
    key ← from_bytes shared_secret
    p.aes_decrypt key.key_bytes (take 12 ciphertext_with_nonce) (drop 12 ciphertext_with_nonce)

  -- `format!("0x{}", hex::encode(bytes))`
  abbrev pub hex_text : Bytes → Text
  hex_text bytes = codes "0x" ++ p.hex_encode bytes

  unfoldable pub encrypt_intent_for_gateway :
      Draws → Option Bytes → Bytes → Option EncryptedIntentPayload
  unfolding public_key_of encrypt_intent compute_shared_secret encrypt_for
  encrypt_intent_for_gateway draws intent_json gateway_public_key = do
    let keypair : EcdhKeyPair = record { private_key = draws.private_key }
    let key : EncryptionKey = record { key_bytes = draws.session_key }
    shared_secret ← compute_shared_secret keypair gateway_public_key
    encrypted ← encrypt_intent key draws.intent_nonce intent_json
    encrypted_session_key ← encrypt_for keypair draws.key_nonce gateway_public_key key.key_bytes
    some (record {
      ciphertext_hex = hex_text encrypted;
      client_public_key_hex = hex_text (public_key_of keypair);
      encrypted_session_key_hex = hex_text encrypted_session_key;
    })
