-- ===== src/Solver/Reception.antt =====
-- What the gateway encrypts for a solver, the solver deciphers.
use blindmarkets.Base.{
  ◌≡◌, refl, ap, ◌∙◌, [], ◌++◌, some, Text, unwrap_or, length, take, drop, arith,
}
use blindmarkets.Gateway.Crypto.{
  Bytes, Primitives, EncryptionPayload, trim_hex_prefix, decode_key_32, encrypt_for_solver,
}
use blindmarkets.Client.Encryption.{hex_text}
use blindmarkets.Client.Delivery.{IsSound, decode-hex_text, decode_key_32-hex_text, open-sealed}
use blindmarkets.Solver.Monitor.{key_of_text, decrypt_bytes, solver_public_key}

-- The solver reads its keys as the gateway does.
key_of_text-decode_key_32 :
    (p : Primitives) (own value : Text) → key_of_text p own value ≡ decode_key_32 p value
unfolding key_of_text decode_key_32
key_of_text-decode_key_32 p own value = refl

record IsSealed (p : Primitives) (nonce plaintext gateway_private solver_public : Bytes)
    (payload : EncryptionPayload) : Type 0 where
  pub sealed : Bytes
  pub seals :
      p.aes_encrypt (p.diffie_hellman gateway_private solver_public) nonce plaintext ≡ some sealed
  pub text : payload.ciphertext_hex ≡ hex_text p (nonce ++ sealed)
  pub sender : payload.sender_public_key_hex ≡ hex_text p (p.public_key gateway_private)

encrypt_for_solver-IsSealed :
    (p : Primitives) (nonce plaintext gateway_private solver_public : Bytes)
    (gateway_hex solver_hex : Text) (payload : EncryptionPayload)
    → decode_key_32 p gateway_hex ≡ some gateway_private
    → decode_key_32 p solver_hex ≡ some solver_public
    → encrypt_for_solver p nonce plaintext gateway_hex solver_hex ≡ some payload
    → IsSealed p nonce plaintext gateway_private solver_public payload
unfolding encrypt_for_solver
encrypt_for_solver-IsSealed p nonce plaintext gateway_private solver_public gateway_hex solver_hex
      payload g s h =
    record {
      sealed =
          unwrap_or (p.aes_encrypt (p.diffie_hellman gateway_private solver_public) nonce plaintext)
            [];
      seals = ground arith;
      text = ground arith;
      sender = ground arith;
    }

-- The text of the public key that a solver publishes.
pub solver_public_key-hex_text :
    (p : Primitives) (solver_private : Bytes) (solver_hex solver_public_hex : Text)
    → decode_key_32 p solver_hex ≡ some solver_private
    → solver_public_key p solver_hex ≡ some solver_public_hex
    → solver_public_hex ≡ hex_text p (p.public_key solver_private)
unfolding solver_public_key
solver_public_key-hex_text p solver_private solver_hex solver_public_hex s published =
    ground (arith, published, s, key_of_text-decode_key_32 p solver_hex solver_hex)

pub decode_key_32-published :
    (p : Primitives) (solver_private : Bytes) (solver_hex solver_public_hex : Text)
    → IsSound p
    → decode_key_32 p solver_hex ≡ some solver_private
    → solver_public_key p solver_hex ≡ some solver_public_hex
    → decode_key_32 p solver_public_hex ≡ some (p.public_key solver_private)
decode_key_32-published p solver_private solver_hex solver_public_hex h s published =
    ap (decode_key_32 p)
      (solver_public_key-hex_text p solver_private solver_hex solver_public_hex s published)
    ∙ decode_key_32-hex_text p solver_private h

-- A solver publishes the key that it derives from its private key. What the gateway encrypts for it,
-- with a nonce of 12 bytes, the solver deciphers to the plaintext, from the two texts of the message.
pub decrypt_bytes-encrypt_for_solver :
    (p : Primitives) (nonce plaintext gateway_private solver_private : Bytes)
    (gateway_hex solver_hex solver_public_hex : Text) (payload : EncryptionPayload)
    → IsSound p
    → length nonce ≡ 12
    → decode_key_32 p gateway_hex ≡ some gateway_private
    → decode_key_32 p solver_hex ≡ some solver_private
    → solver_public_key p solver_hex ≡ some solver_public_hex
    → encrypt_for_solver p nonce plaintext gateway_hex solver_public_hex ≡ some payload
    → decrypt_bytes p solver_hex payload.ciphertext_hex payload.sender_public_key_hex
      ≡ some plaintext
unfolding decrypt_bytes
decrypt_bytes-encrypt_for_solver p nonce plaintext gateway_private solver_private gateway_hex
      solver_hex solver_public_hex payload h twelve g s published sent =
    let readable =
      decode_key_32-published p solver_private solver_hex solver_public_hex h s published in
    let f =
      encrypt_for_solver-IsSealed p nonce plaintext gateway_private (p.public_key solver_private)
        gateway_hex solver_public_hex payload g readable sent in
    let shared = p.diffie_hellman gateway_private (p.public_key solver_private) in
    let (opened, long) = open-sealed p shared nonce plaintext f.sealed h twelve f.seals in
    ground (
      arith,
      ap (λ t. p.hex_decode (trim_hex_prefix t)) f.text ∙ decode-hex_text p (nonce ++ f.sealed) h,
      long,
      key_of_text-decode_key_32 p solver_hex solver_hex ∙ s,
      key_of_text-decode_key_32 p solver_hex payload.sender_public_key_hex
          ∙ ap (decode_key_32 p) f.sender
          ∙ decode_key_32-hex_text p gateway_private h,
      ap (λ k. p.aes_decrypt k (take 12 (nonce ++ f.sealed)) (drop 12 (nonce ++ f.sealed)))
            (h.exchange solver_private gateway_private)
          ∙ opened,
    )
