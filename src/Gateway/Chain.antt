-- ===== src/Gateway/Chain.antt =====
-- backend/gateway/src/starknet_client.rs: the calls of the intent registry, whose signing and sending
-- are those of the crate starknet, and the reading of a status.
pub mod Registry
use blindmarkets.Base.{ℕ, List, [], ◌∷◌, ◌++◌, Option, some, none, Text, length, to_hex}
use blindmarkets.Gateway.Types.{IntentCommitment}
use blindmarkets.Gateway.Crypto.{◌>>=◌}
use blindmarkets.Chain.{FeltReader, ContractCall, parse_felt, parse_felts}

module _ (r : FeltReader) where
  unfoldable pub parse_signature : List Text → Option (List ℕ)
  parse_signature [] = none
  parse_signature (value ∷ values) = parse_felts r (value ∷ values)

  unfoldable pub commit_calldata : IntentCommitment → List Text → Option (List ℕ)
  unfolding parse_signature
  commit_calldata commitment user_signature = do
    intent_id ← parse_felt r commitment.intent_id
    user_address ← parse_felt r commitment.user_address
    intent_hash ← parse_felt r commitment.intent_hash
    nonce ← parse_felt r commitment.nonce
    asset_in ← parse_felt r commitment.asset_in
    asset_out ← parse_felt r commitment.asset_out
    amount_commitment ← parse_felt r commitment.amount_commitment
    min_output ← parse_felt r commitment.min_output
    signature_fields ← parse_signature user_signature
    some (
        intent_id
        ∷ user_address
        ∷ intent_hash
        ∷ nonce
        ∷ asset_in
        ∷ asset_out
        ∷ amount_commitment
        ∷ min_output
        ∷ 0
        ∷ commitment.max_fee_bps
        ∷ commitment.deadline
        ∷ commitment.privacy_mode
        ∷ length signature_fields
        ∷ signature_fields)

module _ (r : FeltReader) (intent_registry_address : ℕ) where
  unfoldable pub commit_intent : IntentCommitment → List Text → Option ContractCall
  unfolding commit_calldata
  commit_intent commitment user_signature = do
    calldata ← commit_calldata r commitment user_signature
    some (record { to = intent_registry_address; selector = "commit_intent"; calldata = calldata })

  unfoldable pub cancel_intent : Text → List Text → Option ContractCall
  unfolding parse_signature
  cancel_intent intent_id signature = do
    id ← parse_felt r intent_id
    signature_fields ← parse_signature r signature
    some (record {
      to = intent_registry_address;
      selector = "cancel_intent";
      calldata = id ∷ length signature_fields ∷ signature_fields;
    })

  abbrev first_or_zero : List ℕ → ℕ
  first_or_zero [] = 0
  first_or_zero (felt ∷ felts) = felt

  -- `provider` is what the call of the contract gives.
  unfoldable pub get_intent_status : (ContractCall → Option (List ℕ)) → Text → Option Text
  get_intent_status provider intent_id = do
    id ← parse_felt r intent_id
    response ← provider (record {
      to = intent_registry_address;
      selector = "get_intent_status";
      calldata = id ∷ [];
    })
    some (to_hex (first_or_zero response))
