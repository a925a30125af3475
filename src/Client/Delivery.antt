-- ===== src/Client/Delivery.antt =====
-- What the client encrypts, the gateway deciphers.
use mathlib.Core.Path.{subst}
use blindmarkets.Base.{
  unwrap_or, length-append, ◌≡◌, refl, ap, ◌∙◌, true, false, List, [], ◌∷◌, ◌++◌, Option, some,
  Text, codes, length, take, drop, ltb, all, is_ascii_hexdigit, is_ascii_digit, arith,
}
use blindmarkets.Gateway.Crypto.{
  Bytes, Primitives, trim_hex_prefix, decode_key_32, decrypt_from_client,
}
use blindmarkets.Client.Encryption.{
  EncryptedIntentPayload, EncryptionKey, decrypt_intent, Draws, from_bytes, encrypt_intent,
  compute_shared_secret, encrypt_for, public_key_of, hex_text, encrypt_intent_for_gateway,
}

-- What the crates promise: hexadecimal text of bytes decodes to them and has hexadecimal digits only,
-- the keys have 32 bytes, both sides of an exchange compute the same secret, and what is encrypted
-- with a key and a nonce is deciphered with them.
pub record IsSound (p : Primitives) : Type 0 where
  pub hex_digits : (b : Bytes) → all is_ascii_hexdigit (p.hex_encode b) ≡ true
  pub hex_roundtrip : (b : Bytes) → p.hex_decode (p.hex_encode b) ≡ some b
  pub key_length : (k : Bytes) → length (p.public_key k) ≡ 32
  pub secret_length : (a k : Bytes) → length (p.diffie_hellman a k) ≡ 32
  pub exchange :
      (a b : Bytes) → p.diffie_hellman a (p.public_key b) ≡ p.diffie_hellman b (p.public_key a)
  pub aes_roundtrip :
      (k n m c : Bytes) → p.aes_encrypt k n m ≡ some c → p.aes_decrypt k n c ≡ some m

trim-hexdigits : (s : Text) → all is_ascii_hexdigit s ≡ true → trim_hex_prefix s ≡ s
unfolding all trim_hex_prefix is_ascii_hexdigit is_ascii_digit
trim-hexdigits [] h = refl
trim-hexdigits (a ∷ []) h = refl
trim-hexdigits (a ∷ b ∷ s) h = ground arith

trim-codes : (s : Text) → trim_hex_prefix (codes "0x" ++ s) ≡ trim_hex_prefix s
unfolding trim_hex_prefix
trim-codes s = refl

pub decode-hex_text :
    (p : Primitives) (b : Bytes)
    → IsSound p
    → p.hex_decode (trim_hex_prefix (hex_text p b)) ≡ some b
decode-hex_text p b h =
    ap p.hex_decode (trim-codes (p.hex_encode b) ∙ trim-hexdigits (p.hex_encode b) (h.hex_digits b))
    ∙ h.hex_roundtrip b

pub decode_key_32-hex_text :
    (p : Primitives) (k : Bytes)
    → IsSound p
    → decode_key_32 p (hex_text p (p.public_key k)) ≡ some (p.public_key k)
unfolding decode_key_32
decode_key_32-hex_text p k h = ground (arith, decode-hex_text p (p.public_key k) h, h.key_length k)

module _ {ℓ} {A : Type ℓ} where
  take-append : (xs ys : List A) → take (length xs) (xs ++ ys) ≡ xs
  take-append [] ys = refl
  take-append (x ∷ xs) ys = ap (λ t. x ∷ t) (take-append xs ys)

  drop-append : (xs ys : List A) → drop (length xs) (xs ++ ys) ≡ ys
  drop-append [] ys = refl
  drop-append (x ∷ xs) ys = drop-append xs ys

-- What stands behind a nonce of 12 bytes.
pub open-sealed :
    (p : Primitives) (k n m c : Bytes)
    → IsSound p
    → length n ≡ 12
    → p.aes_encrypt k n m ≡ some c
    → (p.aes_decrypt k (take 12 (n ++ c)) (drop 12 (n ++ c)) ≡ some m)
      × (ltb (length (n ++ c)) 12 ≡ false)
open-sealed p k n m c h twelve sealed = (
  subst (λ l. p.aes_decrypt k (take l (n ++ c)) (drop l (n ++ c)) ≡ some m) twelve
      (ap (λ x. p.aes_decrypt k x (drop (length n) (n ++ c))) (take-append n c)
        ∙ ap (p.aes_decrypt k n) (drop-append n c)
        ∙ h.aes_roundtrip k n m c sealed),
  ground (arith, length-append n c),
)

-- The client's two ciphertexts, where `encrypt_intent_for_gateway` returns.
record IsPayload (p : Primitives) (draws : Draws) (json gateway_key : Bytes)
    (payload : EncryptedIntentPayload) : Type 0 where
  pub sealed : Bytes
  pub sealed_key : Bytes
  pub seals : p.aes_encrypt draws.session_key draws.intent_nonce json ≡ some sealed
  pub seals_key :
      p.aes_encrypt
        (p.diffie_hellman draws.private_key gateway_key)
        draws.key_nonce
        draws.session_key
      ≡ some sealed_key
  pub text : payload.ciphertext_hex ≡ hex_text p (draws.intent_nonce ++ sealed)
  pub key_text : payload.encrypted_session_key_hex ≡ hex_text p (draws.key_nonce ++ sealed_key)
  pub public_text : payload.client_public_key_hex ≡ hex_text p (p.public_key draws.private_key)

encrypt_intent_for_gateway-IsPayload :
    (p : Primitives) (draws : Draws) (json gateway_key : Bytes) (payload : EncryptedIntentPayload)
    → encrypt_intent_for_gateway p draws (some json) gateway_key ≡ some payload
    → IsPayload p draws json gateway_key payload
unfolding encrypt_intent_for_gateway encrypt_intent encrypt_for from_bytes compute_shared_secret
    public_key_of
encrypt_intent_for_gateway-IsPayload p draws json gateway_key payload h = record {
  sealed = unwrap_or (p.aes_encrypt draws.session_key draws.intent_nonce json) [];
  sealed_key =
      unwrap_or
        (p.aes_encrypt (p.diffie_hellman draws.private_key gateway_key) draws.key_nonce
          draws.session_key)
        [];
  seals = ground arith;
  seals_key = ground arith;
  text = ground arith;
  key_text = ground arith;
  public_text = ground arith;
}

-- What the client encrypts for the gateway's public key, under any draws of 32 bytes for the session
-- key and 12 for the nonces, the gateway deciphers to the JSON text of the intent, with its
-- private key, from the three texts of the request.
pub decrypt_from_client-encrypt_intent_for_gateway :
    (p : Primitives) (draws : Draws) (json gateway_private : Bytes) (private_key_hex : Text)
    (payload : EncryptedIntentPayload)
    → IsSound p
    → length draws.session_key ≡ 32
    → length draws.intent_nonce ≡ 12
    → length draws.key_nonce ≡ 12
    → decode_key_32 p private_key_hex ≡ some gateway_private
    → encrypt_intent_for_gateway p draws (some json) (p.public_key gateway_private) ≡ some payload
    → decrypt_from_client p payload.ciphertext_hex payload.encrypted_session_key_hex
        payload.client_public_key_hex private_key_hex
      ≡ some json
unfolding decrypt_from_client
decrypt_from_client-encrypt_intent_for_gateway p draws json gateway_private private_key_hex payload
      h ks ns nk key sent =
    let f =
      encrypt_intent_for_gateway-IsPayload p draws json (p.public_key gateway_private) payload
        sent in
    let (opened, long) =
      open-sealed p draws.session_key draws.intent_nonce json f.sealed h ns f.seals in
    let shared = p.diffie_hellman draws.private_key (p.public_key gateway_private) in
    let (opened_key, long_key) =
      open-sealed p shared draws.key_nonce draws.session_key f.sealed_key h nk f.seals_key in
    ground (
      arith,
      ap (λ t. p.hex_decode (trim_hex_prefix t)) f.text
          ∙ decode-hex_text p (draws.intent_nonce ++ f.sealed) h,
      long,
      ap (λ t. p.hex_decode (trim_hex_prefix t)) f.key_text
          ∙ decode-hex_text p (draws.key_nonce ++ f.sealed_key) h,
      long_key,
      key,
      ap (decode_key_32 p) f.public_text ∙ decode_key_32-hex_text p draws.private_key h,
      ap
            (λ s.
              p.aes_decrypt s (take 12 (draws.key_nonce ++ f.sealed_key))
                (drop 12 (draws.key_nonce ++ f.sealed_key)))
            (h.exchange gateway_private draws.private_key)
          ∙ opened_key,
      ks,
      opened,
    )

-- What the client encrypts with a key, it reads back with the key.
pub decrypt_intent-encrypt_intent :
    {A : Type 0} (p : Primitives) (parse : Bytes → Option A) (key : EncryptionKey)
    (nonce json encrypted_data : Bytes)
    → IsSound p
    → length nonce ≡ 12
    → encrypt_intent p key nonce (some json) ≡ some encrypted_data
    → decrypt_intent p parse key encrypted_data ≡ parse json
unfolding encrypt_intent decrypt_intent
decrypt_intent-encrypt_intent p parse key nonce json encrypted_data h twelve sent =
    let c = unwrap_or (p.aes_encrypt key.key_bytes nonce json) [] in
    let sealed : p.aes_encrypt key.key_bytes nonce json ≡ some c = ground arith in
    let whole : encrypted_data ≡ nonce ++ c = ground arith in
    let (opened, long) = open-sealed p key.key_bytes nonce json c h twelve sealed in
    rw whole (ground (arith, opened, long))
