-- ===== src/Gateway/Lifecycle.antt =====
-- The gateway over time: its requests that write to the tables (backend/gateway/src/api.rs, routed in
-- main.rs), one after the other, and how a row of `intents` may change from one to the next.
pub mod Rows
pub mod Statements
pub mod Submission
pub mod Handlers
pub mod Reach
pub mod Atomicity
use blindmarkets.Base.{ℕ, ◌≡◌, ◌⊎◌, Bool, true, false, List, [], ◌∷◌, Option, none, Text, any}
use blindmarkets.Gateway.Types.{
  IntentStatus, pending, auction, settled, canceled, onchain_failed, awaiting_onchain, Intent,
  SubmitIntentRequest, CancelIntentRequest, OnchainLifecycleRequest, CloseBatchRequest,
  SettleBatchRequest, FailedBatchRequest, is_open,
}
use blindmarkets.Gateway.Exec.{World}
use blindmarkets.Gateway.Table.{is_intent}
use blindmarkets.Gateway.Env.{Env, Call}
use blindmarkets.Gateway.Submit.{submit_intent}
use blindmarkets.Gateway.Cancel.{cancel_intent}
use blindmarkets.Gateway.Reconcile.{awaits_commit, is_cancelable, reconcile_onchain_intent}
use blindmarkets.Gateway.Batches.{close_batch, fail_batch, settle_batch}
use blindmarkets.Gateway.Batches.Release.{Opens}

pub data Request : Type 0 where
  submit : SubmitIntentRequest → Request
  cancel : (intent_id : Text) → CancelIntentRequest → Request
  reconcile : (intent_id : Text) → OnchainLifecycleRequest → Request
  close : CloseBatchRequest → Request
  fail : FailedBatchRequest → Request
  settle : SettleBatchRequest → Request

-- The world after a request, whatever the answer.
unfoldable pub handle : Env → Call → Request → World → World
handle env call (submit p) w = (submit_intent env call p w).1
handle env call (cancel id p) w = (cancel_intent env call id p w).1
handle env call (reconcile id p) w = (reconcile_onchain_intent env call id p w).1
handle env call (close p) w = (close_batch env call p w).1
handle env call (fail p) w = (fail_batch env call p w).1
handle env call (settle p) w = (settle_batch env call p w).1

pub data Reaches (env : Env) : World → World → Type 0 where
  here : {w : World} → Reaches env w w
  after :
      {w w' : World} (call : Call) (r : Request)
      → Reaches env (handle env call r w) w'
      → Reaches env w w'

-- How a request may change a status.
pub data StatusStep : IntentStatus → IntentStatus → Type 0 where
  stays : {s : IntentStatus} → StatusStep s s
  enters_auction : StatusStep pending auction
  leaves_auction : StatusStep auction pending
  settles : {s : IntentStatus} → is_open s ≡ true → StatusStep s settled
  cancels : {s : IntentStatus} → is_cancelable s ≡ true → StatusStep s canceled
  activates : {s : IntentStatus} → awaits_commit s ≡ true → StatusStep s pending

-- The columns that no request changes.
abbrev pub identity : Intent → Intent
identity row = record row {
  status = pending;
  batch_id = [];
  onchain_tx_hash = none;
  onchain_committed_at = none;
  canceled_at = none;
}

pub record RowStep (row row' : Intent) : Type 0 where
  pub same : identity row' ≡ identity row
  pub moves : StatusStep row.status row'.status

abbrev pub starts : IntentStatus → Bool
starts pending = true
starts awaiting_onchain = true
starts onchain_failed = true
starts _ = false

-- The rows after a request: each old one in its place, and one more at most.
pub data Evolves (env : Env) : List Intent → List Intent → Type 0 where
  nothing : Evolves env [] []
  added : (row : Intent) → Opens env row → starts row.status ≡ true → Evolves env [] (row ∷ [])
  kept :
      {row row' : Intent} {rows rows' : List Intent}
      → RowStep row row'
      → Evolves env rows rows'
      → Evolves env (row ∷ rows) (row' ∷ rows')

-- `intent_id` is the primary key.
pub data Distinct : List Intent → Type 0 where
  no_rows : Distinct []
  one_more :
      {row : Intent} {rows : List Intent}
      → any (is_intent row.intent_id) rows ≡ false
      → Distinct rows
      → Distinct (row ∷ rows)

pub record Step (env : Env) (rows rows' : List Intent) : Type 0 where
  pub evolves : Evolves env rows rows'
  pub distinct : Distinct rows'
