-- ===== src/Witnesses/Submitting.antt =====
-- `submit_intent` and its theorems at one request.
use blindmarkets.Base.{
  parse_unsigned, from_decimal, ◌≡◌, ◌≢◌, refl, ◌⊎◌, true, false, codes, [], ◌∷◌, ◌++◌, some,
}
use blindmarkets.Gateway.Types.{
  SubmissionMode, gateway, SubmitIntentResponse, DecryptedIntent, bad_gateway,
}
use blindmarkets.Gateway.Exec.{ok, err, aborted}
use blindmarkets.Base.{
  update_where, is_ascii_digit, is_ascii_hexdigit, to_ascii_uppercase, trim, to_decimal, to_hex,
  any, all, retain, text_eq, len, starts_with, find_where, eq_ignore_ascii_case, count_where,
}
use blindmarkets.Gateway.Exec.{
  ◌>>=◌, pure, execute, execute_rows, get_db, modify_db, round_trip, transaction, attempt, send,
  modify_metrics, fail, count_rejections, query,
}
use blindmarkets.Gateway.Auth.{require_api_key, validate_signature_format, verify_signature}
use blindmarkets.Gateway.Validate.{
  validate_submit_request, parse_submission_mode, normalize, extract_user_address_from_intent,
  validate_cancel_request, validate_onchain_lifecycle_request, validate_close_batch_request,
  validate_settle_batch_request, validate_failed_batch_request,
}
use blindmarkets.Gateway.Hex.{is_hex_bytes, is_hex_felt}
use blindmarkets.Gateway.RateLimit.{
  check_ip_limit, check_user_limit, check_rate_limit, count_of, incr, expire,
}
use blindmarkets.Gateway.Clock.{batch_number, compute_current_batch_id, compute_execution_time}
use blindmarkets.Gateway.Crypto.{decode_key_32, decrypt_from_client, trim_hex_prefix}
use blindmarkets.Json.{deserialize_u128, deserialize_u64}
use blindmarkets.Gateway.Env.{decipher, parse_intent}
use blindmarkets.Gateway.Table.{
  add_pending, delete_nonce, has_nonce, insert_intent, insert_nonce, release_pending,
  update_intents, upsert_balance, find_intent, release_pending_of, open_auction, mark_failed,
  mark_settled, sum_amounts, release_group, release_settled,
}
use blindmarkets.Gateway.Types.{initial_intent_status, as_db_value}
use blindmarkets.Gateway.Hashes.{
  compute_amount_commitment, compute_intent_hash, compute_intent_id, field_element_from_hex,
  intent_hash_of,
}
use blindmarkets.Gateway.Submit.Checks.{
  check_deadline, check_hashes, check_intent, check_signature, message_hash_of, review,
}
use blindmarkets.Gateway.Submit.{
  submit_intent, screen, accept, store_intent, commit_intent, settle_commit, undo_intent,
  record_commit, commitment_of, new_row,
}
use blindmarkets.Gateway.Table.{is_intent, pending_of}
use blindmarkets.Gateway.Crypto.{Bytes}
use blindmarkets.Gateway.Submit.Acceptance.{IsReviewed, review-IsReviewed}
use blindmarkets.Gateway.Submit.Effects.{Accepted, stored, undone}
use blindmarkets.Gateway.Submit.Failures.{AcceptFailed}
use blindmarkets.Gateway.Submit.Outcome.{submit_intent-ok, submit_intent-err, submit_intent_replay}
use blindmarkets.Gateway.Submit.Accounting.{undone-stored, failed_row}
use blindmarkets.Witnesses.Data.{
  env, refusing, call, request, plain, plaintext, answer, empty_db, fresh_world, held_world,
}

submitted : (submit_intent env call request fresh_world).0 ≡ ok answer
unfolding update_where is_ascii_digit is_ascii_hexdigit to_ascii_uppercase trim to_decimal to_hex
    any all retain text_eq len starts_with find_where eq_ignore_ascii_case count_where ◌>>=◌ pure
    execute execute_rows get_db modify_db round_trip transaction attempt send modify_metrics fail
    count_rejections query require_api_key validate_signature_format verify_signature
    validate_submit_request parse_submission_mode normalize extract_user_address_from_intent
    validate_cancel_request validate_onchain_lifecycle_request validate_close_batch_request
    validate_settle_batch_request validate_failed_batch_request is_hex_bytes is_hex_felt
    check_ip_limit check_user_limit check_rate_limit count_of incr expire batch_number
    compute_current_batch_id compute_execution_time decode_key_32 decrypt_from_client
    trim_hex_prefix decipher parse_intent deserialize_u128 deserialize_u64 parse_unsigned
    from_decimal add_pending delete_nonce has_nonce insert_intent insert_nonce release_pending
    update_intents upsert_balance find_intent release_pending_of open_auction mark_failed
    mark_settled sum_amounts release_group release_settled initial_intent_status as_db_value
    compute_amount_commitment compute_intent_hash compute_intent_id field_element_from_hex
    intent_hash_of check_deadline check_hashes check_intent check_signature message_hash_of review
    submit_intent screen accept store_intent commit_intent settle_commit undo_intent record_commit
    commitment_of new_row
submitted = refl

refused : (submit_intent refusing call request fresh_world).0 ≡ err (aborted bad_gateway)
unfolding update_where is_ascii_digit is_ascii_hexdigit to_ascii_uppercase trim to_decimal to_hex
    any all retain text_eq len starts_with find_where eq_ignore_ascii_case count_where ◌>>=◌ pure
    execute execute_rows get_db modify_db round_trip transaction attempt send modify_metrics fail
    count_rejections query require_api_key validate_signature_format verify_signature
    validate_submit_request parse_submission_mode normalize extract_user_address_from_intent
    validate_cancel_request validate_onchain_lifecycle_request validate_close_batch_request
    validate_settle_batch_request validate_failed_batch_request is_hex_bytes is_hex_felt
    check_ip_limit check_user_limit check_rate_limit count_of incr expire batch_number
    compute_current_batch_id compute_execution_time decode_key_32 decrypt_from_client
    trim_hex_prefix decipher parse_intent deserialize_u128 deserialize_u64 parse_unsigned
    from_decimal add_pending delete_nonce has_nonce insert_intent insert_nonce release_pending
    update_intents upsert_balance find_intent release_pending_of open_auction mark_failed
    mark_settled sum_amounts release_group release_settled initial_intent_status as_db_value
    compute_amount_commitment compute_intent_hash compute_intent_id field_element_from_hex
    intent_hash_of check_deadline check_hashes check_intent check_signature message_hash_of review
    submit_intent screen accept store_intent commit_intent settle_commit undo_intent record_commit
    commitment_of new_row
refused = refl

reviewed : review env call request gateway ≡ ok (plaintext, plain)
unfolding update_where is_ascii_digit is_ascii_hexdigit to_ascii_uppercase trim to_decimal to_hex
    any all retain text_eq len starts_with find_where eq_ignore_ascii_case count_where ◌>>=◌ pure
    execute execute_rows get_db modify_db round_trip transaction attempt send modify_metrics fail
    count_rejections query require_api_key validate_signature_format verify_signature
    validate_submit_request parse_submission_mode normalize extract_user_address_from_intent
    validate_cancel_request validate_onchain_lifecycle_request validate_close_batch_request
    validate_settle_batch_request validate_failed_batch_request is_hex_bytes is_hex_felt
    check_ip_limit check_user_limit check_rate_limit count_of incr expire batch_number
    compute_current_batch_id compute_execution_time decode_key_32 decrypt_from_client
    trim_hex_prefix decipher parse_intent deserialize_u128 deserialize_u64 parse_unsigned
    from_decimal add_pending delete_nonce has_nonce insert_intent insert_nonce release_pending
    update_intents upsert_balance find_intent release_pending_of open_auction mark_failed
    mark_settled sum_amounts release_group release_settled initial_intent_status as_db_value
    compute_amount_commitment compute_intent_hash compute_intent_id field_element_from_hex
    intent_hash_of check_deadline check_hashes check_intent check_signature message_hash_of review
    submit_intent screen accept store_intent commit_intent settle_commit undo_intent record_commit
    commitment_of new_row
reviewed = refl

parsed : parse_intent env plaintext ≡ some plain
unfolding parse_intent deserialize_u128 deserialize_u64 parse_unsigned from_decimal all
    is_ascii_digit
parsed = refl

deciphered :
    decipher env request.ciphertext request.encrypted_session_key request.client_public_key
    ≡ some plaintext
unfolding decipher decrypt_from_client decode_key_32 trim_hex_prefix
deciphered = refl

used : has_nonce request.user_address plain.nonce held_world.db ≡ true
unfolding has_nonce any text_eq
used = refl

new_nonce : has_nonce request.user_address plain.nonce empty_db ≡ false
unfolding has_nonce any
new_nonce = refl

new_id : any (is_intent request.intent_id) empty_db.intents ≡ false
unfolding any
new_id = refl

submit_intent-ok_example :
    (mode : SubmissionMode) × (plaintext : Bytes) × (d : DecryptedIntent) × (parse_submission_mode
        request.submission_mode
      ≡ ok mode)
    × IsReviewed env call request mode plaintext d
    × (has_nonce request.user_address d.nonce fresh_world.db ≡ false)
    × (any (is_intent request.intent_id) fresh_world.db.intents ≡ false)
    × Accepted env call request d fresh_world.db
        (submit_intent env call request fresh_world).1.db
        mode
submit_intent-ok_example = submit_intent-ok env call request fresh_world answer submitted

submit_intent-err_example :
    ((submit_intent refusing call request fresh_world).1.db ≡ fresh_world.db)
    ⊎ ((plaintext : Bytes) × (d : DecryptedIntent) × IsReviewed refusing call request gateway
          plaintext d
        × AcceptFailed refusing call request gateway d fresh_world
            (submit_intent refusing call request fresh_world).1)
submit_intent-err_example =
    submit_intent-err refusing call request fresh_world (aborted bad_gateway) refused

submit_intent_replay_example :
    ((r : SubmitIntentResponse) → (submit_intent env call request held_world).0 ≢ ok r)
    × ((submit_intent env call request held_world).1.db ≡ held_world.db)
submit_intent_replay_example =
    submit_intent_replay env call request held_world plaintext plain deciphered parsed used

review-IsReviewed_example : IsReviewed env call request gateway plaintext plain
review-IsReviewed_example = review-IsReviewed env call request gateway plaintext plain reviewed

undone-stored_example :
    let db' = undone request plain (stored request plain gateway (codes "1") empty_db) in
    (pending_of (codes "0xa1") (codes "0xb2") db'
      ≡ pending_of (codes "0xa1") (codes "0xb2") empty_db)
    × (db'.user_nonces ≡ empty_db.user_nonces)
    × (db'.intents ≡ empty_db.intents ++ failed_row request plain gateway (codes "1") ∷ [])
    × (db'.batches ≡ empty_db.batches)
undone-stored_example =
    undone-stored request plain gateway (codes "1") empty_db (codes "0xa1") (codes "0xb2") refl
      new_nonce new_id
