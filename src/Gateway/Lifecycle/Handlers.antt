-- ===== src/Gateway/Lifecycle/Handlers.antt =====
-- Every request is a step of each row.
use mathlib.Core.Path.{subst}
use blindmarkets.Base.{◌≡◌, refl, sym, ◌∙◌, inl, inr, List, [], ◌∷◌, Text}
use blindmarkets.Gateway.Types.{
  Intent, CancelIntentRequest, CloseBatchRequest, SettleBatchRequest, FailedBatchRequest,
  OnchainLifecycleRequest, Db,
}
use blindmarkets.Gateway.Exec.{Result, ok, err, World}
use blindmarkets.Gateway.Table.{open_auction, mark_failed, mark_settled, release_settled}
use blindmarkets.Gateway.Env.{Env, Call}
use blindmarkets.Gateway.Submit.Effects.{batch_of}
use blindmarkets.Gateway.Cancel.{mark_canceled, cancel_intent}
use blindmarkets.Gateway.Cancel.Outcome.{cancel_intent-ok, cancel_intent-Atomic}
use blindmarkets.Gateway.Reconcile.Outcome.{
  Reconciled, unchanged, committed, confirmed, canceled_onchain, reconcile_onchain_intent_lem,
}
use blindmarkets.Gateway.Batches.{
  start_auction, requeue, settle_intents, close_batch, fail_batch, settle_batch,
}
use blindmarkets.Gateway.Batches.Outcome.{
  close_batch_lem, fail_batch-ok, fail_batch-Atomic, Released, done, next, settle_batch-ok,
  settle_batch-Atomic,
}
use blindmarkets.Gateway.Lifecycle.{
  Request, submit, cancel, reconcile, close, fail, settle, handle, Distinct, Step,
}
use blindmarkets.Gateway.Lifecycle.Rows.{Step-refl}
use blindmarkets.Gateway.Lifecycle.Statements.{
  Step-start_auction, Step-requeue, Step-settle_intents, is_open-is_cancelable, Step-mark_canceled,
  Step-mark_committed, Step-record_commit, intents-release_pending_of, intents-release_pending,
}
use blindmarkets.Gateway.Lifecycle.Submission.{Step-submit}

Step-Reconciled :
    (env : Env) (call : Call) (id : Text) (p : OnchainLifecycleRequest) (db db' : Db)
    → Reconciled env call id p db db'
    → Distinct db.intents
    → Step env db.intents db'.intents
Step-Reconciled env call id p db _ unchanged h = Step-refl env db.intents h
Step-Reconciled env call id p db _ (committed row f _ _ awaits) h =
    Step-mark_committed env id p.tx_hash (batch_of env call) call.stamp row db f.found awaits h
Step-Reconciled env call id p db _ (confirmed row f _ _ _ _) h =
    Step-record_commit env id p.tx_hash call.stamp db h
Step-Reconciled env call id p db _ (canceled_onchain row n f _ able _) h =
    subst (Step env db.intents)
      (sym (
        intents-release_pending_of p.user_address row.asset_in n
          (mark_canceled id p.tx_hash call.stamp db)))
      (Step-mark_canceled env id p.tx_hash call.stamp row db f.found able h)

Step-cancel :
    (env : Env) (call : Call) (id : Text) (p : CancelIntentRequest) (w : World)
    → Distinct w.db.intents
    → Step env w.db.intents (cancel_intent env call id p w).1.db.intents
Step-cancel env call id p w h = go (cancel_intent env call id p w).0 refl
  where
    go :
        (r : Result (Unit {0}))
        → (cancel_intent env call id p w).0 ≡ r
        → Step env w.db.intents (cancel_intent env call id p w).1.db.intents
    go (ok tt) q =
        let c = cancel_intent-ok env call id p w q in
        rw c.tables rw
          (intents-release_pending p.user_address c.intent.asset_in c.intent.amount
            (mark_canceled id c.tx_hash call.stamp w.db))
          (Step-mark_canceled env id c.tx_hash call.stamp c.row w.db c.found
            (is_open-is_cancelable c.row.status c.was_open) h)
    go (err e) q = rw ((cancel_intent-Atomic env call id p).at w e q) (Step-refl env w.db.intents h)

intents-open_auction : (p : CloseBatchRequest) (db : Db) → (open_auction p db).intents ≡ db.intents
unfolding open_auction
intents-open_auction p db = refl

Step-close :
    (env : Env) (call : Call) (p : CloseBatchRequest) (w : World)
    → Distinct w.db.intents
    → Step env w.db.intents (close_batch env call p w).1.db.intents
Step-close env call p w h = go (close_batch env call p w).0 refl
  where
    opened : Step env w.db.intents (open_auction p w.db).intents
    opened = rw (intents-open_auction p w.db) (Step-refl env w.db.intents h)

    started : Step env w.db.intents (start_auction p.batch_id (open_auction p w.db)).intents
    started =
        let same = intents-open_auction p w.db in
        subst (λ rows. Step env rows (start_auction p.batch_id (open_auction p w.db)).intents) same
          (Step-start_auction env p.batch_id (open_auction p w.db) (subst Distinct (sym same) h))

    go :
        (r : Result (Unit {0}))
        → (close_batch env call p w).0 ≡ r
        → Step env w.db.intents (close_batch env call p w).1.db.intents
    go (ok tt) q = rw ((close_batch_lem env call p w).0 q) started
    go (err e) q = elim ((close_batch_lem env call p w).1 e q) [
      | inl same ↦ rw same (Step-refl env w.db.intents h)
      | inr tables ↦ rw tables opened
    ]

intents-mark_failed : (p : FailedBatchRequest) (db : Db) → (mark_failed p db).intents ≡ db.intents
unfolding mark_failed
intents-mark_failed p db = refl

Step-fail :
    (env : Env) (call : Call) (p : FailedBatchRequest) (w : World)
    → Distinct w.db.intents
    → Step env w.db.intents (fail_batch env call p w).1.db.intents
Step-fail env call p w h = go (fail_batch env call p w).0 refl
  where
    go :
        (r : Result Text)
        → (fail_batch env call p w).0 ≡ r
        → Step env w.db.intents (fail_batch env call p w).1.db.intents
    go (ok b) q =
        let same = intents-mark_failed p w.db in
        rw ((fail_batch-ok env call p w b q).1) (
          subst (λ rows. Step env rows (requeue p.batch_id b (mark_failed p w.db)).intents) same
            (Step-requeue env p.batch_id b (mark_failed p w.db) (subst Distinct (sym same) h)))
    go (err e) q = rw ((fail_batch-Atomic env call p).at w e q) (Step-refl env w.db.intents h)

intents-Released :
    (env : Env) (rows : List Intent) (db db' : Db)
    → Released env rows db db'
    → db'.intents ≡ db.intents
intents-Released env [] db _ done = refl
intents-Released env (row ∷ rows) db db' (next _ _ d _ _ _ rest) =
    intents-Released env rows _ db' rest
    ∙ intents-release_pending row.user_address d.asset_in d.amount db

intents-settle :
    (p : SettleBatchRequest) (db : Db)
    → (release_settled p.batch_id (mark_settled p (settle_intents p.batch_id db))).intents
      ≡ (settle_intents p.batch_id db).intents
unfolding release_settled mark_settled
intents-settle p db = refl

Step-settle :
    (env : Env) (call : Call) (p : SettleBatchRequest) (w : World)
    → Distinct w.db.intents
    → Step env w.db.intents (settle_batch env call p w).1.db.intents
Step-settle env call p w h = go (settle_batch env call p w).0 refl
  where
    go :
        (r : Result (Unit {0}))
        → (settle_batch env call p w).0 ≡ r
        → Step env w.db.intents (settle_batch env call p w).1.db.intents
    go (ok tt) q =
        let (db, released, tables) = settle_batch-ok env call p w q in
        let same = intents-Released env _ w.db db released in
        rw tables rw (intents-settle p db) (
          subst (λ rows. Step env rows (settle_intents p.batch_id db).intents) same
            (Step-settle_intents env p.batch_id db (subst Distinct (sym same) h)))
    go (err e) q = rw ((settle_batch-Atomic env call p).at w e q) (Step-refl env w.db.intents h)

-- Every request, whatever its answer, is a step of each row: where the ids are distinct they stay so,
-- no row goes away or changes its place or the columns that say whose intent it is and what it
-- trades, each status makes at most one of the moves `StatusStep`, and at most one row is added, which
-- opens to its columns.
pub handle-Step :
    (env : Env) (call : Call) (r : Request) (w : World)
    → Distinct w.db.intents
    → Step env w.db.intents (handle env call r w).db.intents
unfolding handle
handle-Step env call (submit p) w h = Step-submit env call p w h
handle-Step env call (cancel id p) w h = Step-cancel env call id p w h
handle-Step env call (reconcile id p) w h =
    Step-Reconciled env call id p w.db _ (reconcile_onchain_intent_lem env call id p w) h
handle-Step env call (close p) w h = Step-close env call p w h
handle-Step env call (fail p) w h = Step-fail env call p w h
handle-Step env call (settle p) w h = Step-settle env call p w h
