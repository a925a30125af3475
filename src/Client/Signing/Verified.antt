-- ===== src/Client/Signing/Verified.antt =====
-- That a signature of the client verifies.
use blindmarkets.Base.{
  ℕ, ◌≡◌, true, List, [], ◌∷◌, some, unwrap_or, Text, codes, starts_with, arith,
}
use blindmarkets.Client.Builder.{IntentCommitment, Felts}
use blindmarkets.Client.Signing.{
  Ecdsa, StarknetSigner, felt_from_hex, sign_commitment, get_public_key, verify_signature,
}

-- What the crate promises: a field element prints as a text with the prefix that reads back to it,
-- and a signature verifies under the key of its private key.
pub record IsCrate (f : Felts) (e : Ecdsa) : Type 0 where
  pub prefixed : (n : ℕ) → starts_with (f.to_hex n) (codes "0x") ≡ true
  pub reads_back : (n : ℕ) → f.from_hex_be (f.to_hex n) ≡ some n
  pub verifies :
      (key hash r s : ℕ)
      → e.sign key hash ≡ some (r, s)
      → e.verify (e.get_public_key key) hash r s ≡ some true

module _ (f : Felts) (e : Ecdsa) (h : IsCrate f e) where
  felt_from_hex-to_hex : (n : ℕ) → felt_from_hex f (f.to_hex n) ≡ some n
  unfolding felt_from_hex
  felt_from_hex-to_hex n = ground (arith, h.prefixed n, h.reads_back n)

-- What the client signs with its key, it verifies with the public key that it publishes.
pub verify_signature-sign_commitment :
    (f : Felts) (e : Ecdsa) (signer : StarknetSigner) (commitment : IntentCommitment)
    (signature : List Text) (public_key : Text)
    → IsCrate f e
    → sign_commitment f e signer commitment ≡ some signature
    → get_public_key f e signer ≡ some public_key
    → verify_signature f e commitment signature public_key ≡ some true
unfolding sign_commitment get_public_key verify_signature
verify_signature-sign_commitment f e signer commitment signature public_key h signed published =
    let key = unwrap_or (felt_from_hex f signer.private_key) 0 in
    let hash = unwrap_or (felt_from_hex f commitment.intent_hash) 0 in
    let key_felt : felt_from_hex f signer.private_key ≡ some key = ground arith in
    let hash_felt : felt_from_hex f commitment.intent_hash ≡ some hash = ground arith in
    let pair = unwrap_or (e.sign key hash) (0, 0) in
    let made : e.sign key hash ≡ some pair = ground arith in
    let texts : signature ≡ f.to_hex pair.0 ∷ f.to_hex pair.1 ∷ [] = ground arith in
    let key_text : public_key ≡ f.to_hex (e.get_public_key key) = ground arith in
    let holds = h.verifies key hash pair.0 pair.1 made in
    rw (texts, key_text)
      (ground (
        arith,
        hash_felt,
        felt_from_hex-to_hex f e h (e.get_public_key key),
        felt_from_hex-to_hex f e h pair.0,
        felt_from_hex-to_hex f e h pair.1,
        holds,
      ))
