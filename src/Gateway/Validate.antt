-- ===== src/Gateway/Validate.antt =====
-- The request validators of backend/gateway/src/api.rs; each `return Err(BAD_REQUEST)` is one
-- check, in the order of the code.
use blindmarkets.Base.{
  Bool, false, not, ◌&&◌, ◌||◌, List, [], ◌∷◌, Option, none, some, Text, is_positive, is_negative,
  codes, text_eq, starts_with, length, len, is_empty, ltb, all, is_ascii_digit, trim,
  to_ascii_uppercase, get_or, if◌then◌else◌,
}
use blindmarkets.Gateway.Types.{
  SubmissionMode, gateway, self_commit, SubmitIntentRequest, OnchainLifecycleRequest,
  CancelIntentRequest, CloseBatchRequest, SettleBatchRequest, FailedBatchRequest, bad_request,
}
use blindmarkets.Gateway.Exec.{Failure, Result, ok, err, aborted, guard, ◌then_check◌}
use blindmarkets.Gateway.Hex.{hex_prefix, is_hex_felt, is_hex_bytes}

abbrev pub bad : Failure
bad = aborted bad_request

-- `if b { return Err(StatusCode::BAD_REQUEST) }`
abbrev pub refuse_if : Bool → Result (Unit {0})
refuse_if b = guard (not b) bad

abbrev pub lacks_prefix : Text → Bool
lacks_prefix s = is_empty s || not (starts_with s hex_prefix)

unfoldable pub normalize : Text → Text
normalize mode = to_ascii_uppercase (trim mode)

abbrev is_unknown_mode : Option Text → Bool
is_unknown_mode none = false
is_unknown_mode (some mode) =
    not (text_eq (normalize mode) (codes "GATEWAY"))
    && not (text_eq (normalize mode) (codes "SELF_COMMIT"))

abbrev is_bad_felt : Option Text → Bool
is_bad_felt none = false
is_bad_felt (some s) = not (is_hex_felt s)

-- The fields that the loop at the end of `validate_submit_request` goes through.
abbrev felt_fields : SubmitIntentRequest → List Text
felt_fields p =
    p.intent_id
    ∷ p.commitment
    ∷ p.client_public_key
    ∷ get_or p.user_signature 0 []
    ∷ get_or p.user_signature 1 []
    ∷ p.nonce
    ∷ []

unfoldable pub validate_submit_request : SubmitIntentRequest → Result (Unit {0})
validate_submit_request p =
    refuse_if (is_empty p.intent_id || ltb 66 (len p.intent_id))
    then_check refuse_if (not (starts_with p.intent_id hex_prefix))
    then_check refuse_if (lacks_prefix p.commitment)
    then_check refuse_if (is_empty p.ciphertext)
    then_check refuse_if (not (is_hex_bytes p.ciphertext))
    then_check refuse_if (lacks_prefix p.client_public_key)
    then_check refuse_if (lacks_prefix p.encrypted_session_key)
    then_check refuse_if (not (is_hex_bytes p.encrypted_session_key))
    then_check refuse_if (not (is_hex_bytes p.client_public_key))
    then_check refuse_if (ltb (len p.client_public_key) 66 || ltb 66 (len p.client_public_key))
    then_check refuse_if (ltb (length p.user_signature) 2)
    then_check refuse_if (is_unknown_mode p.submission_mode)
    then_check refuse_if (not (all is_hex_felt (felt_fields p)))
    then_check refuse_if (is_bad_felt p.authorization_hash)

abbrev mode_of_text : Text → Result SubmissionMode
mode_of_text mode =
    if text_eq mode (codes "GATEWAY")
    then ok gateway
    else if text_eq mode (codes "SELF_COMMIT")
    then ok self_commit
    else err bad

unfoldable pub parse_submission_mode : Option Text → Result SubmissionMode
parse_submission_mode none = ok gateway
parse_submission_mode (some mode) = mode_of_text (normalize mode)

-- The address that `extract_user_address_from_intent` returns is the request's own.
unfoldable pub extract_user_address_from_intent : SubmitIntentRequest → Result Text
extract_user_address_from_intent p =
    refuse_if (is_empty p.user_address)
    then_check refuse_if (not (starts_with p.user_address hex_prefix))
    then_check ok p.user_address

abbrev is_no_number : Text → Bool
is_no_number batch_id = is_empty batch_id || not (all is_ascii_digit batch_id)

unfoldable pub validate_close_batch_request : CloseBatchRequest → Result (Unit {0})
validate_close_batch_request p =
    refuse_if (is_no_number p.batch_id)
    then_check refuse_if (not (is_positive p.close_time) || not (is_positive p.auction_deadline))
    then_check refuse_if (is_negative p.intent_count)

unfoldable pub validate_settle_batch_request : SettleBatchRequest → Result (Unit {0})
validate_settle_batch_request p =
    refuse_if (is_no_number p.batch_id) then_check refuse_if (not (is_positive p.settled_at))

unfoldable pub validate_failed_batch_request : FailedBatchRequest → Result (Unit {0})
validate_failed_batch_request p =
    refuse_if (is_no_number p.batch_id)
    then_check refuse_if (not (is_positive p.failed_at))
    then_check refuse_if (lacks_prefix p.failure_reason)
    then_check refuse_if (not (is_hex_felt p.failure_reason))

unfoldable pub validate_onchain_lifecycle_request : OnchainLifecycleRequest → Result (Unit {0})
validate_onchain_lifecycle_request p =
    let action = normalize p.action in
    refuse_if (not (text_eq action (codes "COMMITTED")) && not (text_eq action (codes "CANCELED")))
    then_check refuse_if (not (is_hex_felt p.user_address))
    then_check refuse_if (not (is_hex_felt p.tx_hash))

-- The checks of the request at the head of `cancel_intent`.
unfoldable pub validate_cancel_request : CancelIntentRequest → Result (Unit {0})
validate_cancel_request p =
    refuse_if (not (starts_with p.user_address hex_prefix) || not (is_hex_felt p.user_address))
    then_check refuse_if (ltb (length p.signature) 2 || ltb 2 (length p.signature))
    then_check refuse_if
        (not (is_hex_felt (get_or p.signature 0 [])) || not (is_hex_felt (get_or p.signature 1 [])))
