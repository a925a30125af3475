-- ===== src/Gateway/Batches.antt =====
-- `close_batch`, `fail_batch` and `settle_batch` of backend/gateway/src/api.rs.
pub mod Outcome
pub mod Requeue
pub mod Release
use blindmarkets.Base.{ℕ, ◌+◌, Bool, ◌&&◌, List, [], ◌∷◌, Option, none, some, Text, text_eq, retain}
use blindmarkets.Gateway.Types.{
  IntentStatus, Intent, DecryptedIntent, CloseBatchRequest, SettleBatchRequest, FailedBatchRequest,
  Db, Metrics, batch_closed, is_open, is_pending, is_auction,
}
use blindmarkets.Gateway.Exec.{
  Exec, pure, ◌>>=◌, ◌>>◌, checked, or_fail, execute, query, get_db, round_trip, database_error,
  transaction, send, modify_metrics,
}
use blindmarkets.Gateway.Table.{
  release_pending, release_settled, update_intents, open_auction, mark_failed, mark_settled,
}
use blindmarkets.Gateway.Clock.{compute_current_batch_id}
use blindmarkets.Gateway.Auth.{require_api_key}
use blindmarkets.Gateway.RateLimit.{check_ip_limit}
use blindmarkets.Gateway.Validate.{
  bad, validate_close_batch_request, validate_settle_batch_request, validate_failed_batch_request,
}
use blindmarkets.Gateway.Env.{Env, Call, decipher, parse_intent}

-- UPDATE intents SET status = 'AUCTION' WHERE batch_id = $1 AND status = 'PENDING'
unfoldable pub start_auction : Text → Db → Db
start_auction batch_id d =
    update_intents (λ row. text_eq row.batch_id batch_id && is_pending row.status)
      (λ row. record row { status = IntentStatus.auction }) d

-- UPDATE intents SET batch_id = $2, status = 'PENDING' WHERE batch_id = $1 AND status = 'AUCTION'
unfoldable pub requeue : Text → Text → Db → Db
requeue batch_id requeue_batch_id d =
    update_intents (λ row. text_eq row.batch_id batch_id && is_auction row.status)
      (λ row. record row { batch_id = requeue_batch_id; status = IntentStatus.pending }) d

abbrev pub in_open_batch : Text → Intent → Bool
in_open_batch batch_id row = text_eq row.batch_id batch_id && is_open row.status

-- UPDATE intents SET status = 'SETTLED' WHERE batch_id = $1 AND status IN ('PENDING', 'AUCTION')
unfoldable pub settle_intents : Text → Db → Db
settle_intents batch_id d =
    update_intents (in_open_batch batch_id) (λ row. record row { status = IntentStatus.settled }) d

count_closed : Metrics → Metrics
count_closed t = record t { batches_closed_total = t.batches_closed_total + 1 }

count_failed : Metrics → Metrics
count_failed t = record t { batches_failed_total = t.batches_failed_total + 1 }

count_settled : Metrics → Metrics
count_settled t = record t { batches_settled_total = t.batches_settled_total + 1 }

unfoldable pub close_batch : Env → Call → CloseBatchRequest → Exec (Unit {0})
unfolding count_closed
close_batch env call p = do
  checked (require_api_key call.headers env.config)
  checked (validate_close_batch_request p)
  check_ip_limit env.config call.client_ip
  execute (open_auction p)
  execute (start_auction p.batch_id)
  send (batch_closed p.batch_id p.close_time p.intent_count p.auction_deadline)
  modify_metrics count_closed

unfoldable pub fail_tables : FailedBatchRequest → Text → Exec (Unit {0})
fail_tables p requeue_batch_id =
    transaction do execute (mark_failed p); execute (requeue p.batch_id requeue_batch_id)

-- The batch that the intents go to is the answer's `requeued_batch_id`.
unfoldable pub fail_batch : Env → Call → FailedBatchRequest → Exec Text
unfolding count_failed
fail_batch env call p = do
  checked (require_api_key call.headers env.config)
  checked (validate_failed_batch_request p)
  check_ip_limit env.config call.client_ip
  let requeue_batch_id =
      compute_current_batch_id call.batch_clock env.config.genesis_timestamp
        env.config.batch_window_seconds
  fail_tables p requeue_batch_id
  modify_metrics count_failed
  pure requeue_batch_id

-- One round of the loop of `settle_batch`.
unfoldable pub release_intent : Env → Intent → Exec (Unit {0})
release_intent env row = do
  session_key ← checked (or_fail row.encrypted_session_key bad)
  plaintext ← checked (or_fail (decipher env row.ciphertext session_key row.client_public_key) bad)
  d ← checked (or_fail (parse_intent env plaintext) bad)
  execute (release_pending row.user_address d.asset_in d.amount)

unfoldable pub release_intents : Env → List Intent → Exec (Unit {0})
release_intents env [] = pure tt
release_intents env (row ∷ rows) = do release_intent env row; release_intents env rows

unfoldable pub settle_tables : Env → SettleBatchRequest → Exec (Unit {0})
settle_tables env p = transaction do
  rows ← query (λ d. retain (in_open_batch p.batch_id) d.intents)
  release_intents env rows
  execute (settle_intents p.batch_id)
  execute (mark_settled p)
  execute (release_settled p.batch_id)

unfoldable pub settle_batch : Env → Call → SettleBatchRequest → Exec (Unit {0})
unfolding count_settled
settle_batch env call p = do
  checked (require_api_key call.headers env.config)
  checked (validate_settle_batch_request p)
  check_ip_limit env.config call.client_ip
  settle_tables env p
  modify_metrics count_settled
