-- ===== src/Gateway/Submit.antt =====
-- `submit_intent` of backend/gateway/src/api.rs. The checks of the signature, of the plaintext and
-- of the hashes change nothing; then come one transaction, the commit on the chain, and the
-- broadcast.
pub mod Checks
pub mod Acceptance
pub mod Effects
pub mod Failures
pub mod Outcome
pub mod Accounting
use blindmarkets.Base.{
  ℕ, ◌+◌, Bool, true, List, [], ◌∷◌, Option, none, some, Text, text_eq, to_decimal, is_some,
}
use blindmarkets.Gateway.Types.{
  SubmissionMode, gateway, self_commit, IntentStatus, Intent, SubmitIntentRequest,
  SubmitIntentResponse, DecryptedIntent, IntentCommitment, Db, Metrics, new_intent,
  initial_intent_status, conflict, bad_gateway,
}
use blindmarkets.Gateway.Exec.{
  Exec, pure, fail, ◌>>=◌, ◌>>◌, checked, guard, rejected, aborted, execute, execute_rows,
  transaction, attempt, send, modify_metrics, count_rejections,
}
use blindmarkets.Gateway.Table.{
  is_intent, insert_nonce, delete_nonce, add_pending, release_pending, insert_intent,
  update_intents,
}
use blindmarkets.Gateway.Clock.{compute_current_batch_id, compute_execution_time}
use blindmarkets.Gateway.Crypto.{Bytes}
use blindmarkets.Gateway.Auth.{require_api_key}
use blindmarkets.Gateway.RateLimit.{check_ip_limit, check_user_limit}
use blindmarkets.Gateway.Validate.{validate_submit_request, parse_submission_mode}
use blindmarkets.Gateway.Env.{Env, Call}
use Checks.{as_rejected, review}

-- The row of the INSERT into `intents`.
unfoldable pub new_row : SubmitIntentRequest → DecryptedIntent → SubmissionMode → Text → Intent
new_row p d mode batch_id = record {
  intent_id = p.intent_id;
  user_address = p.user_address;
  asset_in = some d.asset_in;
  asset_out = d.asset_out;
  amount = some d.amount;
  amount_commitment = d.amount_commitment;
  min_output = d.min_output;
  max_fee_bps = d.max_fee_bps;
  privacy_mode = d.privacy_mode;
  nonce = p.nonce;
  ciphertext = p.ciphertext;
  encrypted_session_key = some p.encrypted_session_key;
  commitment = p.commitment;
  client_public_key = p.client_public_key;
  batch_id = batch_id;
  deadline = d.deadline;
  submission_mode = mode;
  status = initial_intent_status mode;
  onchain_tx_hash = none;
  onchain_committed_at = none;
  canceled_at = none;
}

-- The transaction of the three INSERTs.
unfoldable pub store_intent :
    SubmitIntentRequest → DecryptedIntent → SubmissionMode → Text → Exec (Unit {0})
unfolding new_row
store_intent p d mode batch_id = transaction do
  fresh ← execute_rows (insert_nonce p.user_address d.nonce)
  checked (guard fresh (rejected conflict))
  execute (add_pending p.user_address d.asset_in d.amount)
  inserted ← execute_rows (insert_intent (new_row p d mode batch_id))
  checked (guard inserted (rejected conflict))

unfoldable pub commitment_of : SubmitIntentRequest → DecryptedIntent → IntentCommitment
commitment_of p d = record {
  intent_id = p.intent_id;
  user_address = p.user_address;
  intent_hash = p.commitment;
  nonce = p.nonce;
  asset_in = d.asset_in;
  asset_out = d.asset_out;
  amount_commitment = d.amount_commitment;
  min_output = to_decimal d.min_output;
  max_fee_bps = d.max_fee_bps;
  deadline = d.deadline;
  privacy_mode = d.privacy_mode;
}

-- COALESCE(onchain_committed_at, $3)
abbrev coalesce : Option ℕ → ℕ → ℕ
coalesce none t = t
coalesce (some s) t = s

unfoldable pub record_commit : Text → Text → ℕ → Db → Db
record_commit intent_id tx_hash now d =
    update_intents (is_intent intent_id)
      (λ row. record row {
        onchain_tx_hash = some tx_hash;
        onchain_committed_at = some (coalesce row.onchain_committed_at now);
      })
      d

abbrev mark_onchain_failed : Text → Db → Db
mark_onchain_failed intent_id d =
    update_intents (is_intent intent_id)
      (λ row. record row { status = IntentStatus.onchain_failed }) d

-- The block after a failed commit. Its errors are ignored; a failing statement aborts its
-- transaction, and the rest of the block with it.
unfoldable pub undo_intent : SubmitIntentRequest → DecryptedIntent → Exec (Unit {0})
undo_intent p d = attempt (
    transaction do
      execute (mark_onchain_failed p.intent_id)
      execute (delete_nonce p.user_address p.nonce)
      execute (release_pending p.user_address d.asset_in d.amount))

count_onchain_failure : Metrics → Metrics
count_onchain_failure t = record t {
  intents_onchain_failed_total = t.intents_onchain_failed_total + 1;
  request_latency_observations = t.request_latency_observations + 1;
}

count_submission : Metrics → Metrics
count_submission t = record t {
  intents_submitted_total = t.intents_submitted_total + 1;
  request_latency_observations = t.request_latency_observations + 1;
}

-- What follows the chain's answer in the gateway mode.
unfoldable pub settle_commit :
    Call → SubmitIntentRequest → DecryptedIntent → Bytes → Text → Option Text → Exec (Unit {0})
unfolding record_commit undo_intent count_onchain_failure
settle_commit call p d plaintext batch_id (some tx_hash) = do
  execute (record_commit p.intent_id tx_hash call.stamp)
  send (new_intent p.intent_id batch_id plaintext)
settle_commit call p d plaintext batch_id none = do
  undo_intent p d
  modify_metrics count_onchain_failure
  fail (aborted bad_gateway)

unfoldable pub commit_intent :
    Env
    → Call
    → SubmitIntentRequest
    → DecryptedIntent
    → Bytes
    → Text
    → SubmissionMode
    → Exec (Unit {0})
unfolding settle_commit commitment_of
commit_intent env call p d plaintext batch_id gateway =
    settle_commit call p d plaintext batch_id
      (env.commit_onchain (commitment_of p d) p.user_signature)
commit_intent env call p d plaintext batch_id self_commit = pure tt

abbrev awaits_user : SubmissionMode → Bool
awaits_user gateway = Bool.false
awaits_user self_commit = true

-- What comes after the checks.
unfoldable pub accept :
    Env
    → Call
    → SubmitIntentRequest
    → SubmissionMode
    → Bytes × DecryptedIntent
    → Exec SubmitIntentResponse
unfolding count_submission
accept env call p mode (plaintext, d) = do
  let batch_id =
      compute_current_batch_id call.batch_clock env.config.genesis_timestamp
        env.config.batch_window_seconds
  store_intent p d mode batch_id
  commit_intent env call p d plaintext batch_id mode
  modify_metrics count_submission
  pure (record {
    intent_id = p.intent_id;
    batch_id = batch_id;
    estimated_execution_time =
        compute_execution_time call.execution_clock env.config.genesis_timestamp
          env.config.batch_window_seconds env.config.execution_delay_seconds;
    awaiting_user_transaction = awaits_user mode;
  })

-- What comes before the transaction.
unfoldable pub screen :
    Env → Call → SubmitIntentRequest → Exec (SubmissionMode × (Bytes × DecryptedIntent))
screen env call p = do
  checked (require_api_key call.headers env.config)
  checked (as_rejected (validate_submit_request p))
  mode ← checked (parse_submission_mode p.submission_mode)
  check_ip_limit env.config call.client_ip
  check_user_limit env.config p.user_address
  reviewed ← checked (review env call p mode)
  pure (mode, reviewed)

unfoldable pub submit_intent : Env → Call → SubmitIntentRequest → Exec SubmitIntentResponse
submit_intent env call p =
    count_rejections do screened ← screen env call p; accept env call p screened.0 screened.1
