-- ===== src/Gateway/Submit/Acceptance.antt =====
-- What is known of an intent that `submit_intent` has let through its checks.
use blindmarkets.Base.{
  ℕ, ◌+◌, ◌≤◌, ◌<◌, ◌≡◌, refl, true, [], Option, none, some, Text, text_eq_iff, arith,
}
use blindmarkets.Gateway.Types.{SubmissionMode, SubmitIntentRequest, DecryptedIntent}
use blindmarkets.Gateway.Exec.{Result, ok, err}
use blindmarkets.Gateway.Hex.{is_hex_felt}
use blindmarkets.Gateway.Crypto.{Bytes}
use blindmarkets.Gateway.Auth.{verify_signature}
use blindmarkets.Gateway.Validate.{extract_user_address_from_intent}
use blindmarkets.Gateway.Hashes.{
  value_of, field_element_from_hex, compute_amount_commitment, intent_hash_of, compute_intent_hash,
  compute_intent_id,
}
use blindmarkets.Gateway.Env.{Env, Call, decipher, parse_intent}
use blindmarkets.Gateway.Submit.Checks.{
  message_hash_of, check_signature, check_intent, check_hashes, check_deadline, review,
}

-- The plaintext is that of the request, and its fields are in range.
pub record FieldsFit (p : SubmitIntentRequest) (d : DecryptedIntent) : Type 0 where
  pub same_user : d.user_address ≡ p.user_address
  pub same_nonce : d.nonce ≡ p.nonce
  pub amount_pos : 0 < d.amount
  pub min_output_pos : 0 < d.min_output
  pub fee_bounded : d.max_fee_bps ≤ 10000
  pub privacy_bounded : d.privacy_mode ≤ 2
  pub asset_in_hex : is_hex_felt d.asset_in ≡ true
  pub asset_out_hex : is_hex_felt d.asset_out ≡ true
  pub commitment_hex : is_hex_felt d.amount_commitment ≡ true
  pub nonce_hex : is_hex_felt d.nonce ≡ true

-- The hashes that the client sent are those of the plaintext: the amount is bound by the commitment,
-- the whole intent by its hash, and its id is the hash's under the user and the nonce.
pub record HashesFit (env : Env) (p : SubmitIntentRequest) (d : DecryptedIntent) : Type 0 where
  pub user : ℕ
  pub asset_in : ℕ
  pub asset_out : ℕ
  pub nonce : ℕ
  pub user_felt : field_element_from_hex env.felt_from_hex p.user_address ≡ ok user
  pub in_felt : field_element_from_hex env.felt_from_hex d.asset_in ≡ ok asset_in
  pub out_felt : field_element_from_hex env.felt_from_hex d.asset_out ≡ ok asset_out
  pub nonce_felt : field_element_from_hex env.felt_from_hex d.nonce ≡ ok nonce
  pub amount_bound :
      field_element_from_hex env.felt_from_hex d.amount_commitment
      ≡ ok (env.pedersen_hash d.amount nonce)
  pub intent_bound :
      field_element_from_hex env.felt_from_hex p.commitment
      ≡ ok (
          intent_hash_of env.felt_from_hex env.pedersen_hash user asset_in asset_out
            (env.pedersen_hash d.amount nonce)
            d.min_output
            d.max_fee_bps
            d.deadline
            d.privacy_mode
            nonce)
  pub id_bound :
      field_element_from_hex env.felt_from_hex p.intent_id
      ≡ ok (
          env.pedersen_hash (env.pedersen_hash user nonce) (
            intent_hash_of env.felt_from_hex env.pedersen_hash user asset_in asset_out
              (env.pedersen_hash d.amount nonce)
              d.min_output
              d.max_fee_bps
              d.deadline
              d.privacy_mode
              nonce))

check_intent-FieldsFit :
    (p : SubmitIntentRequest) (d : DecryptedIntent) → check_intent p d ≡ ok tt → FieldsFit p d
unfolding check_intent
check_intent-FieldsFit p d h =
    ground (arith, text_eq_iff d.user_address p.user_address, text_eq_iff d.nonce p.nonce)

check_deadline_lem :
    (clock : Option ℕ) (limit deadline : ℕ)
    → check_deadline clock limit deadline ≡ ok tt
    → (now : ℕ) × (clock ≡ some now) × (now < deadline) × (deadline ≤ now + limit)
unfolding check_deadline
check_deadline_lem none limit deadline h = ground arith
check_deadline_lem (some now) limit deadline h = (now, refl, ground arith, ground arith)

check_signature_lem :
    (env : Env) (user message : Text) (p : SubmitIntentRequest)
    → check_signature env user message p ≡ ok tt
    → verify_signature env.rpc env.config.rpc_url user message p.user_signature ≡ some true
unfolding check_signature
check_signature_lem env user message p h = ground arith

check_hashes-HashesFit :
    (env : Env) (p : SubmitIntentRequest) (d : DecryptedIntent)
    → check_hashes env p d ≡ ok tt
    → HashesFit env p d
unfolding check_hashes compute_amount_commitment compute_intent_hash compute_intent_id
check_hashes-HashesFit env p d h = record {
  user = value_of (felt p.user_address);
  asset_in = value_of (felt d.asset_in);
  asset_out = value_of (felt d.asset_out);
  nonce = value_of (felt d.nonce);
  user_felt = ground arith;
  in_felt = ground arith;
  out_felt = ground arith;
  nonce_felt = ground arith;
  amount_bound = ground arith;
  intent_bound = ground arith;
  id_bound = ground arith;
}
  where
    felt : Text → Result ℕ
    felt = field_element_from_hex env.felt_from_hex

-- What `submit_intent` has made sure of when it begins its transaction: the request deciphers to the
-- plaintext, which parses to the intent; the account has accepted the signature over the
-- commitment, or over the authorization hash for an intent that the wallet commits itself; the
-- fields are in range, the hashes fit, and the deadline lies after the clock by no more than the
-- configured time.
pub record IsReviewed (env : Env) (call : Call) (p : SubmitIntentRequest) (mode : SubmissionMode)
    (plaintext : Bytes) (d : DecryptedIntent) : Type 0 where
  pub deciphered :
      decipher env p.ciphertext p.encrypted_session_key p.client_public_key ≡ some plaintext
  pub parsed : parse_intent env plaintext ≡ some d
  pub message : Text
  pub message_fits : message_hash_of mode p ≡ ok message
  pub signed :
      verify_signature env.rpc env.config.rpc_url p.user_address message p.user_signature
      ≡ some true
  pub fields : FieldsFit p d
  pub hashes : HashesFit env p d
  pub now : ℕ
  pub clock : call.deadline_clock ≡ some now
  pub deadline_after : now < d.deadline
  pub deadline_near : d.deadline ≤ now + env.config.intent_deadline_seconds

abbrev text_of : Result Text → Text
text_of (ok s) = s
text_of (err e) = []

-- An intent that passes the checks is reviewed in this sense.
pub review-IsReviewed :
    (env : Env) (call : Call) (p : SubmitIntentRequest) (mode : SubmissionMode) (plaintext : Bytes)
    (d : DecryptedIntent)
    → review env call p mode ≡ ok (plaintext, d)
    → IsReviewed env call p mode plaintext d
unfolding review
review-IsReviewed env call p mode plaintext d h = record {
  deciphered = ground arith;
  parsed = ground arith;
  message = message;
  message_fits = ground arith;
  signed = check_signature_lem env p.user_address message p sign_ok;
  fields = check_intent-FieldsFit p d (ground arith);
  hashes = check_hashes-HashesFit env p d (ground arith);
  now = deadline_facts.0;
  clock = deadline_facts.1;
  deadline_after = deadline_facts.2;
  deadline_near = deadline_facts.3;
}
  where
    message : Text
    message = text_of (message_hash_of mode p)

    sign_ok : check_signature env p.user_address message p ≡ ok tt
    sign_ok = unfold extract_user_address_from_intent in ground arith

    deadline_facts :
        (now : ℕ) × (call.deadline_clock ≡ some now)
        × (now < d.deadline)
        × (d.deadline ≤ now + env.config.intent_deadline_seconds)
    deadline_facts =
        check_deadline_lem call.deadline_clock env.config.intent_deadline_seconds d.deadline
          (ground arith)
