-- ===== src/Gateway/Submit/Checks.antt =====
-- The checks of `submit_intent` of backend/gateway/src/api.rs between the rate limits and the
-- transaction, in the order of the code. `rejected` stands for `reject(code)`, `aborted` for `?`.
use blindmarkets.Base.{
  ℕ, ◌+◌, ◌-◌, ◌^◌, Bool, not, ◌||◌, Option, Text, text_eq, is_empty, ltb, leb, ◌==◌, if◌then◌else◌,
}
use blindmarkets.Gateway.Types.{
  SubmissionMode, gateway, self_commit, SubmitIntentRequest, DecryptedIntent, bad_request,
  unauthorized, internal_server_error,
}
use blindmarkets.Gateway.Exec.{
  Result, ok, err, rejected, aborted, status_of, guard, or_fail, ◌then_check◌,
}
use blindmarkets.Gateway.Hex.{is_hex_felt}
use blindmarkets.Gateway.Crypto.{Bytes}
use blindmarkets.Gateway.Auth.{verify_signature}
use blindmarkets.Gateway.Validate.{bad, extract_user_address_from_intent}
use blindmarkets.Gateway.Hashes.{
  ◌>>=◌, ◌>>◌, field_element_from_hex, compute_amount_commitment, compute_intent_hash,
  compute_intent_id,
}
use blindmarkets.Gateway.Env.{Env, Call, decipher, parse_intent}

-- `if let Err(code) = .. { return reject(code) }`
abbrev pub as_rejected {ℓ} : {A : Type ℓ} → Result A → Result A
as_rejected (ok a) = ok a
as_rejected (err e) = err (rejected (status_of e))

-- `if b { return reject(StatusCode::BAD_REQUEST) }`
abbrev reject_if : Bool → Result (Unit {0})
reject_if b = guard (not b) (rejected bad_request)

unfoldable pub message_hash_of : SubmissionMode → SubmitIntentRequest → Result Text
message_hash_of gateway p = ok p.commitment
message_hash_of self_commit p = or_fail p.authorization_hash bad

unfoldable pub check_signature : Env → Text → Text → SubmitIntentRequest → Result (Unit {0})
check_signature env user message_hash p = do
  is_valid ←
      or_fail (verify_signature env.rpc env.config.rpc_url user message_hash p.user_signature)
        (aborted unauthorized)
  guard is_valid (rejected unauthorized)

unfoldable pub check_intent : SubmitIntentRequest → DecryptedIntent → Result (Unit {0})
check_intent p d =
    reject_if (not (text_eq d.user_address p.user_address))
    then_check reject_if (not (is_hex_felt d.asset_in))
    then_check reject_if (d.amount == 0)
    then_check reject_if (not (is_hex_felt d.amount_commitment))
    then_check reject_if (not (is_hex_felt d.nonce))
    then_check reject_if (not (text_eq d.nonce p.nonce))
    then_check reject_if (is_empty d.asset_out || not (is_hex_felt d.asset_out))
    then_check reject_if (d.min_output == 0)
    then_check reject_if (ltb 10000 d.max_fee_bps)
    then_check reject_if (ltb 2 d.privacy_mode)

unfoldable pub check_hashes : Env → SubmitIntentRequest → DecryptedIntent → Result (Unit {0})
check_hashes env p d = do
  computed ← compute_amount_commitment env.felt_from_hex env.pedersen_hash d.amount d.nonce
  provided ← field_element_from_hex env.felt_from_hex d.amount_commitment
  reject_if (not (computed == provided))
  computed_hash ←
      compute_intent_hash env.felt_from_hex env.pedersen_hash p.user_address d.asset_in d.asset_out
        computed d.min_output d.max_fee_bps d.deadline d.privacy_mode d.nonce
  provided_hash ← field_element_from_hex env.felt_from_hex p.commitment
  reject_if (not (computed_hash == provided_hash))
  computed_id ←
      compute_intent_id env.felt_from_hex env.pedersen_hash p.user_address d.nonce computed_hash
  provided_id ← field_element_from_hex env.felt_from_hex p.intent_id
  reject_if (not (computed_id == provided_id))

abbrev pub saturating_add_u64 : ℕ → ℕ → ℕ
saturating_add_u64 a b = if ltb (a + b) (2 ^ 64) then a + b else 2 ^ 64 - 1

-- The clock before the epoch is an error here.
unfoldable pub check_deadline : Option ℕ → ℕ → ℕ → Result (Unit {0})
check_deadline clock deadline_seconds deadline = do
  now ← or_fail clock (aborted internal_server_error)
  reject_if (leb deadline now)
  reject_if (ltb (saturating_add_u64 now deadline_seconds) deadline)

-- The plaintext and the intent in it, if all checks pass.
unfoldable pub review :
    Env → Call → SubmitIntentRequest → SubmissionMode → Result (Bytes × DecryptedIntent)
review env call p mode = do
  message_hash ← message_hash_of mode p
  user ← extract_user_address_from_intent p
  check_signature env user message_hash p
  plaintext ← or_fail (decipher env p.ciphertext p.encrypted_session_key p.client_public_key) bad
  d ← or_fail (parse_intent env plaintext) bad
  check_intent p d
  check_hashes env p d
  check_deadline call.deadline_clock env.config.intent_deadline_seconds d.deadline
  ok (plaintext, d)
