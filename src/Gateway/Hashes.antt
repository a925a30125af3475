-- ===== src/Gateway/Hashes.antt =====
-- The commitments of backend/gateway/src/api.rs. A field element is its number; the hash and the
-- reading of hexadecimal are those of the crates starknet-crypto and starknet, parameters here. A
-- u128 is below the field's prime, so `Felt::from` is the identity on it.
use blindmarkets.Base.{ℕ, Option, Text, starts_with, if◌then◌else◌}
use blindmarkets.Gateway.Exec.{Result, ok, err, or_fail}
use blindmarkets.Gateway.Hex.{hex_prefix}
use blindmarkets.Gateway.Validate.{bad}

infixl 5 ◌>>=◌ ◌>>◌
abbrev pub ◌>>=◌ : {A B : Type 0} → Result A → (A → Result B) → Result B
ok a >>= f = f a
err e >>= f = err e

abbrev pub ◌>>◌ : {B : Type 0} → Result (Unit {0}) → Result B → Result B
m >> n = m >>= λ _. n

abbrev pub value_of : Result ℕ → ℕ
value_of (ok n) = n
value_of (err e) = 0

module _ (felt_from_hex : Text → Option ℕ) where
  unfoldable pub field_element_from_hex : Text → Result ℕ
  field_element_from_hex value =
      if starts_with value hex_prefix then or_fail (felt_from_hex value) bad else err bad

module _ (felt_from_hex : Text → Option ℕ) (pedersen_hash : ℕ → ℕ → ℕ) where
  unfoldable pub compute_amount_commitment : ℕ → Text → Result ℕ
  compute_amount_commitment amount nonce_hex = do
    nonce_fe ← field_element_from_hex felt_from_hex nonce_hex
    ok (pedersen_hash amount nonce_fe)

  -- The hash of the field elements, in the order in which the code folds them.
  unfoldable pub intent_hash_of : ℕ → ℕ → ℕ → ℕ → ℕ → ℕ → ℕ → ℕ → ℕ → ℕ
  intent_hash_of user asset_in asset_out amount_commitment min_output fee deadline privacy nonce =
      let hash = pedersen_hash user asset_in in
      let hash = pedersen_hash hash asset_out in
      let hash = pedersen_hash hash amount_commitment in
      let min_output_hash = pedersen_hash min_output 0 in
      let hash = pedersen_hash hash min_output_hash in
      let hash = pedersen_hash hash fee in
      let hash = pedersen_hash hash deadline in
      let hash = pedersen_hash hash privacy in pedersen_hash hash nonce

  unfoldable pub compute_intent_hash : Text → Text → Text → ℕ → ℕ → ℕ → ℕ → ℕ → Text → Result ℕ
  compute_intent_hash user_hex in_hex out_hex amount_commitment min_output fee deadline privacy n =
      do
        user ← field_element_from_hex felt_from_hex user_hex
        asset_in ← field_element_from_hex felt_from_hex in_hex
        asset_out ← field_element_from_hex felt_from_hex out_hex
        nonce ← field_element_from_hex felt_from_hex n
        ok (
            intent_hash_of user asset_in asset_out amount_commitment min_output fee deadline privacy
              nonce)

  unfoldable pub compute_intent_id : Text → Text → ℕ → Result ℕ
  compute_intent_id user_hex nonce_hex intent_hash = do
    user ← field_element_from_hex felt_from_hex user_hex
    nonce ← field_element_from_hex felt_from_hex nonce_hex
    ok (pedersen_hash (pedersen_hash user nonce) intent_hash)
