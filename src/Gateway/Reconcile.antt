-- ===== src/Gateway/Reconcile.antt =====
-- `reconcile_onchain_intent` of backend/gateway/src/api.rs: the wallet's own commit or cancel of an
-- intent, reported by the frontend or the observer.
pub mod Outcome
use blindmarkets.Base.{
  ℕ, Bool, true, false, not, ◌&&◌, ◌||◌, Option, none, some, Text, codes, text_eq,
  eq_ignore_ascii_case, is_some, if◌then◌else◌,
}
use blindmarkets.Gateway.Types.{
  IntentStatus, pending, auction, settled, canceled, onchain_failed, awaiting_onchain, Intent,
  OnchainLifecycleRequest, Db, new_intent, is_gateway, forbidden, not_found, internal_server_error,
}
use blindmarkets.Gateway.Exec.{
  Exec, pure, fail, ◌>>=◌, ◌>>◌, checked, guard, or_fail, aborted, execute, query, transaction,
  send,
}
use blindmarkets.Gateway.Table.{is_intent, find_intent, release_pending_of, update_intents}
use blindmarkets.Gateway.Clock.{compute_current_batch_id}
use blindmarkets.Gateway.Auth.{require_api_key}
use blindmarkets.Gateway.RateLimit.{check_ip_limit}
use blindmarkets.Gateway.Validate.{bad, normalize, validate_onchain_lifecycle_request}
use blindmarkets.Gateway.Env.{Env, Call, decipher}
use blindmarkets.Gateway.Submit.{record_commit}
use blindmarkets.Gateway.Cancel.{mark_canceled}

-- `onchain_tx_hash.is_some_and(|existing| existing.eq_ignore_ascii_case(tx_hash))`
abbrev pub has_hash : Option Text → Text → Bool
has_hash none tx_hash = false
has_hash (some existing) tx_hash = eq_ignore_ascii_case existing tx_hash

abbrev pub awaits_commit : IntentStatus → Bool
awaits_commit awaiting_onchain = true
awaits_commit onchain_failed = true
awaits_commit _ = false

abbrev pub is_committed : IntentStatus → Bool
is_committed pending = true
is_committed auction = true
is_committed settled = true
is_committed _ = false

abbrev pub is_cancelable : IntentStatus → Bool
is_cancelable awaiting_onchain = true
is_cancelable pending = true
is_cancelable onchain_failed = true
is_cancelable auction = true
is_cancelable _ = false

abbrev is_canceled : IntentStatus → Bool
is_canceled canceled = true
is_canceled _ = false

unfoldable pub mark_committed : Text → Text → Text → ℕ → Db → Db
mark_committed intent_id tx_hash batch_id now d =
    update_intents (is_intent intent_id)
      (λ row. record row {
        status = pending;
        batch_id = batch_id;
        onchain_tx_hash = some tx_hash;
        onchain_committed_at = some now;
      })
      d

-- The intent of the wallet becomes pending, in the batch of now, and goes to the solvers under the
-- batch that the row had before.
unfoldable pub activate : Env → Call → Text → OnchainLifecycleRequest → Intent → Exec (Unit {0})
unfolding mark_committed
activate env call intent_id p row = do
  let batch_id =
      compute_current_batch_id call.batch_clock env.config.genesis_timestamp
        env.config.batch_window_seconds
  execute (mark_committed intent_id p.tx_hash batch_id call.stamp)
  session_key ← checked (or_fail row.encrypted_session_key (aborted internal_server_error))
  plaintext ← checked (or_fail (decipher env row.ciphertext session_key row.client_public_key) bad)
  send (new_intent intent_id row.batch_id plaintext)

unfoldable pub reconcile_commit :
    Env → Call → Text → OnchainLifecycleRequest → Intent → Exec (Unit {0})
reconcile_commit env call intent_id p row =
    if has_hash row.onchain_tx_hash p.tx_hash
    then pure tt
    else if awaits_commit row.status
    then activate env call intent_id p row
    else if is_gateway row.submission_mode
        && is_committed row.status
        && not (is_some row.onchain_tx_hash)
    then execute (record_commit intent_id p.tx_hash call.stamp)
    else fail bad

-- The transaction of a cancel, with what was pending for the intent.
unfoldable pub release_reconciled :
    Call → Text → OnchainLifecycleRequest → Intent → ℕ → Exec (Unit {0})
release_reconciled call intent_id p row amount = transaction do
  execute (mark_canceled intent_id p.tx_hash call.stamp)
  execute (release_pending_of p.user_address row.asset_in amount)

unfoldable pub reconcile_cancel : Call → Text → OnchainLifecycleRequest → Intent → Exec (Unit {0})
reconcile_cancel call intent_id p row =
    if is_canceled row.status && has_hash row.onchain_tx_hash p.tx_hash then pure tt else do
      checked (guard (is_cancelable row.status) bad)
      amount ← checked (or_fail row.amount (aborted internal_server_error))
      release_reconciled call intent_id p row amount

-- The branches on the action.
unfoldable pub dispatch : Env → Call → Text → OnchainLifecycleRequest → Intent → Exec (Unit {0})
dispatch env call intent_id p row =
    if text_eq (normalize p.action) (codes "COMMITTED")
    then reconcile_commit env call intent_id p row
    else if text_eq (normalize p.action) (codes "CANCELED")
    then reconcile_cancel call intent_id p row
    else fail bad

unfoldable pub reconcile_onchain_intent :
    Env → Call → Text → OnchainLifecycleRequest → Exec (Unit {0})
reconcile_onchain_intent env call intent_id p = do
  checked (require_api_key call.headers env.config)
  check_ip_limit env.config call.client_ip
  checked (validate_onchain_lifecycle_request p)
  found ← query (find_intent intent_id)
  row ← checked (or_fail found (aborted not_found))
  checked (guard (text_eq row.user_address p.user_address) (aborted forbidden))
  dispatch env call intent_id p row
