-- ===== src/Gateway/Lifecycle/Atomicity.antt =====
-- That the requests with one transaction are all or nothing.
use blindmarkets.Base.{Text}
use blindmarkets.Gateway.Types.{CancelIntentRequest, SettleBatchRequest, FailedBatchRequest}
use blindmarkets.Gateway.Exec.Rules.{Atomic}
use blindmarkets.Gateway.Env.{Env, Call}
use blindmarkets.Gateway.Cancel.{cancel_intent}
use blindmarkets.Gateway.Cancel.Outcome.{cancel_intent-Atomic}
use blindmarkets.Gateway.Batches.{fail_batch, settle_batch}
use blindmarkets.Gateway.Batches.Outcome.{fail_batch-Atomic, settle_batch-Atomic}

-- A cancel, a report of a failed batch and a settlement that are answered by an error have changed
-- nothing in the tables, whatever they ask for and at whichever round trip they failed.
pub handlers-Atomic :
    (env : Env) (call : Call) (intent_id : Text) (cancel : CancelIntentRequest)
    (failed : FailedBatchRequest) (settled : SettleBatchRequest)
    → Atomic (cancel_intent env call intent_id cancel)
      × Atomic (fail_batch env call failed)
      × Atomic (settle_batch env call settled)
handlers-Atomic env call intent_id cancel failed settled = (
  cancel_intent-Atomic env call intent_id cancel,
  fail_batch-Atomic env call failed,
  settle_batch-Atomic env call settled,
)
