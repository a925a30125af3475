-- ===== src/Gateway/Batches/Outcome.antt =====
-- What the answers of the batch handlers say of the tables.
use mathlib.Core.Path.{subst, subst₂}
use blindmarkets.Base.{some, suc, ◌≡◌, sym, ap, ◌∙◌, ◌⊎◌, List, [], ◌∷◌, Text, retain, arith}
use blindmarkets.Gateway.Types.{
  Intent, DecryptedIntent, CloseBatchRequest, SettleBatchRequest, FailedBatchRequest, Db,
}
use blindmarkets.Gateway.Exec.{
  Failure, ok, err, World, Exec, ◌>>=◌, pure, execute, query, round_trip, get_db, modify_db,
  modify_metrics, send, transaction,
}
use blindmarkets.Gateway.Exec.Rules.{
  Atomic, atomic_rules, >>=-eq-ok, Quiet-query, query_ok, ok-injective, or_fail_ok,
}
use blindmarkets.Gateway.Table.{
  release_pending, release_settled, open_auction, mark_failed, mark_settled,
}
use blindmarkets.Gateway.Clock.{compute_current_batch_id}
use blindmarkets.Gateway.RateLimit.{check_ip_limit, check_ip_limit-db, Quiet-check_ip_limit}
use blindmarkets.Gateway.Crypto.{Bytes}
use blindmarkets.Gateway.Env.{Env, Call, decipher, parse_intent}
use blindmarkets.Gateway.Batches.{
  start_auction, requeue, settle_intents, in_open_batch, close_batch, fail_tables, fail_batch,
  release_intent, release_intents, settle_tables, settle_batch,
}

-- A closed batch has its auction opened and its pending intents moved into it; an error leaves the
-- tables as they were, or with the batch's auction opened and no intent in it. The two statements
-- are no transaction.
pub close_batch_lem :
    (env : Env) (call : Call) (p : CloseBatchRequest) (w : World)
    → let db' = (close_batch env call p w).1.db in
      ((close_batch env call p w).0 ≡ ok tt → db' ≡ start_auction p.batch_id (open_auction p w.db))
      × ((e : Failure)
          → (close_batch env call p w).0 ≡ err e
          → (db' ≡ w.db) ⊎ (db' ≡ open_auction p w.db))
unfolding close_batch execute round_trip modify_db send modify_metrics ◌>>=◌
close_batch_lem env call p w = (
  λ h. ground (arith, check_ip_limit-db env.config call.client_ip w),
  λ e h. ground (arith, check_ip_limit-db env.config call.client_ip w),
)

Atomic-fail_tables : (p : FailedBatchRequest) (b : Text) → Atomic (fail_tables p b)
unfolding fail_tables
Atomic-fail_tables p b = search atomic_rules

-- A report of a failed batch that is answered by an error has changed nothing in the tables.
pub fail_batch-Atomic :
    (env : Env) (call : Call) (p : FailedBatchRequest) → Atomic (fail_batch env call p)
unfolding fail_batch
fail_batch-Atomic env call p =
    search (atomic_rules, Quiet-check_ip_limit, Atomic-fail_tables) depth 14

Atomic-settle_tables : (env : Env) (p : SettleBatchRequest) → Atomic (settle_tables env p)
unfolding settle_tables
Atomic-settle_tables env p = search atomic_rules

-- A settlement that is answered by an error has changed nothing in the tables.
pub settle_batch-Atomic :
    (env : Env) (call : Call) (p : SettleBatchRequest) → Atomic (settle_batch env call p)
unfolding settle_batch
settle_batch-Atomic env call p =
    search (atomic_rules, Quiet-check_ip_limit, Atomic-settle_tables) depth 12

fail_tables_ok :
    (p : FailedBatchRequest) (b : Text) (w : World)
    → (fail_tables p b w).0 ≡ ok tt
    → (fail_tables p b w).1.db ≡ requeue p.batch_id b (mark_failed p w.db)
unfolding fail_tables transaction execute round_trip get_db modify_db ◌>>=◌
fail_tables_ok p b w h = ground arith

-- The answer OK of `fail_batch` names the batch of the clock, the batch is marked as failed, and the
-- intents of its auction are pending in the named batch.
pub fail_batch-ok :
    (env : Env) (call : Call) (p : FailedBatchRequest) (w : World) (b : Text)
    → (fail_batch env call p w).0 ≡ ok b
    → (b
        ≡ compute_current_batch_id call.batch_clock env.config.genesis_timestamp
            env.config.batch_window_seconds)
      × ((fail_batch env call p w).1.db ≡ requeue p.batch_id b (mark_failed p w.db))
unfolding fail_batch pure modify_metrics
fail_batch-ok env call p w b h =
    let (u1, q1, h1, e1) = >>=-eq-ok _ _ w h in
    let (u2, q2, h2, e2) = >>=-eq-ok _ _ _ h1 in
    let (u3, q3, h3, e3) = >>=-eq-ok _ _ _ h2 in
    let (u4, q4, h4, e4) = >>=-eq-ok _ _ _ h3 in
    let (u5, q5, h5, e5) = >>=-eq-ok _ _ _ h4 in
    let w3 = (check_ip_limit env.config call.client_ip w).1 in
    let now =
      compute_current_batch_id call.batch_clock env.config.genesis_timestamp
        env.config.batch_window_seconds in
    let named = ok-injective h5 in
    let moved =
      fail_tables_ok p now w3 q4
      ∙ ap (λ (x : Db). requeue p.batch_id now (mark_failed p x))
          (check_ip_limit-db env.config call.client_ip w) in
    (sym named, e1 ∙ e2 ∙ e3 ∙ e4 ∙ e5 ∙ rw (← named) moved)

-- The loop of `settle_batch` over its rows, where no round fails: each row deciphers and parses, and
-- its amount is released.
pub data Released (env : Env) : List Intent → Db → Db → Type 0 where
  done : {db : Db} → Released env [] db db
  next :
      {row : Intent} {rows : List Intent} {db db' : Db} (key : Text) (plaintext : Bytes)
      (d : DecryptedIntent)
      → row.encrypted_session_key ≡ some key
      → decipher env row.ciphertext key row.client_public_key ≡ some plaintext
      → parse_intent env plaintext ≡ some d
      → Released env rows (release_pending row.user_address d.asset_in d.amount db) db'
      → Released env (row ∷ rows) db db'

execute_ok : (f : Db → Db) (w : World) → (execute f w).0 ≡ ok tt → (execute f w).1.db ≡ f w.db
unfolding execute round_trip modify_db ◌>>=◌
execute_ok f w h = ground arith

release_intents_ok :
    (env : Env) (rows : List Intent) (w : World)
    → (release_intents env rows w).0 ≡ ok tt
    → Released env rows w.db (release_intents env rows w).1.db
unfolding release_intents release_intent pure
release_intents_ok env [] w h = done
release_intents_ok env (row ∷ rows) w h =
    let (u1, q1, h1, e1) = >>=-eq-ok _ _ w h in
    let (key, q2, h2, e2) = >>=-eq-ok _ _ w q1 in
    let (plaintext, q3, h3, e3) = >>=-eq-ok _ _ _ h2 in
    let (d, q4, h4, e4) = >>=-eq-ok _ _ _ h3 in
    let w1 = (release_intent env row w).1 in
    let released = e2 ∙ e3 ∙ e4 ∙ execute_ok _ w h4 in
    let rest = release_intents_ok env rows w1 h1 in
    next key plaintext d (or_fail_ok _ _ q2) (or_fail_ok _ _ q3) (or_fail_ok _ _ q4)
      (subst₂ (Released env rows) released (sym e1) rest)

transaction_ok :
    (m : Exec (Unit {0})) (w : World)
    → (transaction m w).0 ≡ ok tt
    → let w' = record w { trips = suc w.trips } in
      ((m w').0 ≡ ok tt) × ((transaction m w).1.db ≡ (m w').1.db)
unfolding transaction round_trip get_db ◌>>=◌
transaction_ok m w h = ground arith

settle_tables_ok :
    (env : Env) (p : SettleBatchRequest) (w : World)
    → (settle_tables env p w).0 ≡ ok tt
    → (db : Db) × Released env (retain (in_open_batch p.batch_id) w.db.intents) w.db db
      × ((settle_tables env p w).1.db
          ≡ release_settled p.batch_id (mark_settled p (settle_intents p.batch_id db)))
unfolding settle_tables
settle_tables_ok env p w h =
    let w' = record w { trips = suc w.trips } in
    let (h0, e0) = transaction_ok _ w h in
    let pick = λ (d : Db). retain (in_open_batch p.batch_id) d.intents in
    let (rows, q1, h1, e1) = >>=-eq-ok _ _ w' h0 in
    let w1 = (query pick w').1 in
    let (u2, q2, h2, e2) = >>=-eq-ok _ _ w1 h1 in
    let w2 = (release_intents env rows w1).1 in
    let (u3, q3, h3, e3) = >>=-eq-ok _ _ w2 h2 in
    let (u4, q4, h4, e4) = >>=-eq-ok _ _ _ h3 in
    let w3 = (execute (settle_intents p.batch_id) w2).1 in
    let w4 = (execute (mark_settled p) w3).1 in
    (
      w2.db,
      subst₂ (λ x y. Released env x y w2.db) (query_ok pick w' q1) ((Quiet-query pick).at w')
          (release_intents_ok env rows w1 q2),
      e0
          ∙ e1
          ∙ e2
          ∙ e3
          ∙ e4
          ∙ execute_ok _ w4 h4
          ∙ ap (release_settled p.batch_id)
              (execute_ok _ w3 q4 ∙ ap (mark_settled p) (execute_ok _ w2 q3)),
    )

-- The answer OK of `settle_batch`: the loop over the open intents of the batch released the amount
-- of each, then they were marked as settled, the batch too, and the amounts of all its settled
-- intents were released.
pub settle_batch-ok :
    (env : Env) (call : Call) (p : SettleBatchRequest) (w : World)
    → (settle_batch env call p w).0 ≡ ok tt
    → (db : Db) × Released env (retain (in_open_batch p.batch_id) w.db.intents) w.db db
      × ((settle_batch env call p w).1.db
          ≡ release_settled p.batch_id (mark_settled p (settle_intents p.batch_id db)))
unfolding settle_batch modify_metrics
settle_batch-ok env call p w h =
    let (u1, q1, h1, e1) = >>=-eq-ok _ _ w h in
    let (u2, q2, h2, e2) = >>=-eq-ok _ _ _ h1 in
    let (u3, q3, h3, e3) = >>=-eq-ok _ _ _ h2 in
    let w3 = (check_ip_limit env.config call.client_ip w).1 in
    let (u4, q4, h4, e4) = >>=-eq-ok _ _ w3 h3 in
    let (db, released, tables) = settle_tables_ok env p w3 q4 in
    (
      db,
      subst (λ x. Released env (retain (in_open_batch p.batch_id) x.intents) x db)
          (check_ip_limit-db env.config call.client_ip w) released,
      e1 ∙ e2 ∙ e3 ∙ e4 ∙ tables,
    )
