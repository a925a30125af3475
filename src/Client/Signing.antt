-- ===== src/Client/Signing.antt =====
-- client-sdk/src/signing.rs. ECDSA is that of the crate starknet-crypto; every error is none.
pub mod Verified
use blindmarkets.Base.{
  ℕ, Bool, List, [], ◌∷◌, Option, none, some, Text, codes, ◌++◌, starts_with, if◌then◌else◌,
}
use blindmarkets.Gateway.Crypto.{◌>>=◌}
use blindmarkets.Client.Builder.{IntentCommitment, Felts}

pub record Ecdsa : Type 0 where
  pub sign : (private_key message_hash : ℕ) → Option (ℕ × ℕ)
  pub verify : (public_key message_hash r s : ℕ) → Option Bool
  pub get_public_key : ℕ → ℕ

pub record StarknetSigner : Type 0 where
  pub private_key : Text

module _ (f : Felts) where
  unfoldable pub felt_from_hex : Text → Option ℕ
  felt_from_hex value =
      f.from_hex_be (if starts_with value (codes "0x") then value else codes "0x" ++ value)

module _ (f : Felts) (e : Ecdsa) where
  unfoldable pub sign_commitment : StarknetSigner → IntentCommitment → Option (List Text)
  unfolding felt_from_hex
  sign_commitment signer commitment = do
    message_hash ← felt_from_hex f commitment.intent_hash
    private_key ← felt_from_hex f signer.private_key
    (r, s) ← e.sign private_key message_hash
    some (f.to_hex r ∷ f.to_hex s ∷ [])

  unfoldable pub get_public_key : StarknetSigner → Option Text
  unfolding felt_from_hex
  get_public_key signer = do
    private_key ← felt_from_hex f signer.private_key
    some (f.to_hex (e.get_public_key private_key))

  unfoldable pub verify_signature : IntentCommitment → List Text → Text → Option Bool
  unfolding felt_from_hex
  verify_signature commitment (r_text ∷ s_text ∷ []) public_key = do
    message_hash ← felt_from_hex f commitment.intent_hash
    public_key_felt ← felt_from_hex f public_key
    r ← felt_from_hex f r_text
    s ← felt_from_hex f s_text
    e.verify public_key_felt message_hash r s
  verify_signature commitment _ public_key = none
