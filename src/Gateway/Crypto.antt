-- ===== src/Gateway/Crypto.antt =====
-- backend/gateway/src/crypto.rs. The primitives of the crates hex, x25519-dalek and aes-gcm are
-- parameters; the bytes that the random generator gives are arguments.
use blindmarkets.Base.{
  ℕ, Bool, not, ◌&&◌, List, [], ◌∷◌, ◌++◌, Option, none, some, Text, codes, length, take, drop, ltb,
  ◌==◌, if◌then◌else◌,
}

abbrev pub Bytes : Type 0
Bytes = List ℕ

pub record Primitives : Type 0 where
  pub hex_decode : Text → Option Bytes
  pub hex_encode : Bytes → Text
  pub public_key : Bytes → Bytes
  pub diffie_hellman : Bytes → Bytes → Bytes
  -- key, nonce, message
  pub aes_encrypt : Bytes → Bytes → Bytes → Option Bytes
  pub aes_decrypt : Bytes → Bytes → Bytes → Option Bytes

pub record EncryptionPayload : Type 0 where
  pub ciphertext_hex : Text
  pub sender_public_key_hex : Text

-- `trim_start_matches("0x")`, which takes the prefix off as often as it stands there
unfoldable pub trim_hex_prefix : Text → Text
trim_hex_prefix [] = []
trim_hex_prefix (a ∷ []) = a ∷ []
trim_hex_prefix (a ∷ b ∷ s) = if a == b'0' && b == b'x' then trim_hex_prefix s else a ∷ b ∷ s

infixl 5 ◌>>=◌ ◌>>◌
abbrev pub ◌>>=◌ {ℓ κ} : {A : Type ℓ} {B : Type κ} → Option A → (A → Option B) → Option B
none >>= f = none
some a >>= f = f a

abbrev pub ◌>>◌ {ℓ} : {B : Type ℓ} → Option (Unit {0}) → Option B → Option B
m >> n = m >>= λ _. n

abbrev pub ensure : Bool → Option (Unit {0})
ensure b = if b then some tt else none

module _ (p : Primitives) where
  unfoldable pub decode_key_32 : Text → Option Bytes
  decode_key_32 value = do
    decoded ← p.hex_decode (trim_hex_prefix value)
    ensure (length decoded == 32)
    some decoded

  unfoldable pub public_key_from_private : Text → Option Text
  unfolding decode_key_32
  public_key_from_private private_key_hex = do
    private_key ← decode_key_32 private_key_hex
    some (codes "0x" ++ p.hex_encode (p.public_key private_key))

  -- What stands behind the first 12 bytes, deciphered with these as the nonce.
  abbrev open_sealed : Bytes → Bytes → Option Bytes
  open_sealed key sealed = p.aes_decrypt key (take 12 sealed) (drop 12 sealed)

  unfoldable pub decrypt_from_client : Text → Text → Text → Text → Option Bytes
  unfolding decode_key_32
  decrypt_from_client ciphertext_hex session_key_hex client_public_key_hex private_key_hex = do
    ciphertext ← p.hex_decode (trim_hex_prefix ciphertext_hex)
    ensure (not (ltb (length ciphertext) 12))
    encrypted_session_key ← p.hex_decode (trim_hex_prefix session_key_hex)
    ensure (not (ltb (length encrypted_session_key) 12))
    gateway_private_key ← decode_key_32 private_key_hex
    client_public_key ← decode_key_32 client_public_key_hex
    let shared_secret = p.diffie_hellman gateway_private_key client_public_key
    session_key ← open_sealed shared_secret encrypted_session_key
    ensure (length session_key == 32)
    open_sealed session_key ciphertext

  unfoldable pub encrypt_for_solver : Bytes → Bytes → Text → Text → Option EncryptionPayload
  unfolding decode_key_32
  encrypt_for_solver nonce_bytes plaintext private_key_hex solver_public_key_hex = do
    gateway_private_key ← decode_key_32 private_key_hex
    solver_public_key ← decode_key_32 solver_public_key_hex
    let shared_secret = p.diffie_hellman gateway_private_key solver_public_key
    ciphertext ← p.aes_encrypt shared_secret nonce_bytes plaintext
    some (record {
      ciphertext_hex = codes "0x" ++ p.hex_encode (nonce_bytes ++ ciphertext);
      sender_public_key_hex = codes "0x" ++ p.hex_encode (p.public_key gateway_private_key);
    })
