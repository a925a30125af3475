-- ===== src/Gateway/Cancel.antt =====
-- `cancel_intent` of backend/gateway/src/api.rs.
pub mod Outcome
use blindmarkets.Base.{ℕ, Option, none, some, Text, text_eq}
use blindmarkets.Gateway.Types.{
  IntentStatus, Intent, DecryptedIntent, CancelIntentRequest, Db, is_open, forbidden, not_found,
  internal_server_error, unauthorized, bad_gateway,
}
use blindmarkets.Gateway.Exec.{
  Exec, pure, ◌>>=◌, ◌>>◌, checked, guard, or_fail, aborted, execute, query, transaction,
}
use blindmarkets.Gateway.Table.{is_intent, find_intent, release_pending, update_intents}
use blindmarkets.Gateway.Auth.{require_api_key, verify_signature}
use blindmarkets.Gateway.RateLimit.{check_ip_limit}
use blindmarkets.Gateway.Validate.{bad, validate_cancel_request}
use blindmarkets.Gateway.Env.{Env, Call, decipher, parse_intent}

unfoldable pub mark_canceled : Text → Text → ℕ → Db → Db
mark_canceled intent_id tx_hash now d =
    update_intents (is_intent intent_id)
      (λ row. record row {
        status = IntentStatus.canceled;
        onchain_tx_hash = some tx_hash;
        canceled_at = some now;
      })
      d

-- The intent in the row, deciphered and parsed, if its owner is the one who asks.
unfoldable pub open_row : Env → CancelIntentRequest → Intent → Exec DecryptedIntent
open_row env p row = do
  session_key ← checked (or_fail row.encrypted_session_key (aborted internal_server_error))
  plaintext ← checked (or_fail (decipher env row.ciphertext session_key row.client_public_key) bad)
  d ← checked (or_fail (parse_intent env plaintext) bad)
  checked (guard (text_eq d.user_address p.user_address) bad)
  pure d

-- The signature over the intent's id.
unfoldable pub check_cancel_signature : Env → Text → CancelIntentRequest → Exec (Unit {0})
check_cancel_signature env intent_id p = do
  is_valid ← checked (
      or_fail (verify_signature env.rpc env.config.rpc_url p.user_address intent_id p.signature)
        (aborted unauthorized))
  checked (guard is_valid (aborted unauthorized))

unfoldable pub release_canceled :
    Text → Text → ℕ → CancelIntentRequest → DecryptedIntent → Exec (Unit {0})
unfolding mark_canceled
release_canceled intent_id tx_hash now p d = transaction do
  execute (mark_canceled intent_id tx_hash now)
  execute (release_pending p.user_address d.asset_in d.amount)

unfoldable pub cancel_intent : Env → Call → Text → CancelIntentRequest → Exec (Unit {0})
cancel_intent env call intent_id p = do
  checked (require_api_key call.headers env.config)
  check_ip_limit env.config call.client_ip
  checked (validate_cancel_request p)
  found ← query (find_intent intent_id)
  row ← checked (or_fail found (aborted not_found))
  checked (guard (text_eq row.user_address p.user_address) (aborted forbidden))
  checked (guard (is_open row.status) bad)
  d ← open_row env p row
  check_cancel_signature env intent_id p
  tx_hash ← checked (or_fail (env.cancel_onchain intent_id p.signature) (aborted bad_gateway))
  release_canceled intent_id tx_hash call.stamp p d
