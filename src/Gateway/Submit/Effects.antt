-- ===== src/Gateway/Submit/Effects.antt =====
-- What `submit_intent` does to the tables.
use blindmarkets.Base.{
  ℕ, suc, ◌≤◌, ◌<◌, ◌≡◌, refl, ◌⊎◌, inl, inr, Bool-cases, true, false, Option, none, some, Text,
  any, arith,
}
use blindmarkets.Gateway.Types.{
  SubmissionMode, gateway, self_commit, SubmitIntentRequest, SubmitIntentResponse, DecryptedIntent,
  Db,
}
use blindmarkets.Gateway.Exec.{
  Failure, ok, err, World, ◌>>=◌, ◌>>◌, execute, execute_rows, round_trip, transaction, get_db,
  modify_db, pure, attempt, send, modify_metrics, fail,
}
use blindmarkets.Gateway.Table.{
  is_intent, has_nonce, insert_nonce, add_pending, insert_intent, delete_nonce, release_pending,
}
use blindmarkets.Gateway.Clock.{compute_current_batch_id}
use blindmarkets.Gateway.Crypto.{Bytes}
use blindmarkets.Gateway.RateLimit.{
  check_ip_limit, check_ip_limit-db, check_user_limit-db, check_ip_limit-trips,
  check_user_limit-trips,
}
use blindmarkets.Gateway.Validate.{parse_submission_mode}
use blindmarkets.Gateway.Env.{Env, Call}
use blindmarkets.Gateway.Submit.Checks.{review}
use blindmarkets.Gateway.Submit.{
  new_row, store_intent, mark_onchain_failed, undo_intent, record_commit, commitment_of,
  settle_commit, commit_intent, accept, screen,
}

-- The tables with the nonce, the pending amount and the row of a new intent.
abbrev pub stored : SubmitIntentRequest → DecryptedIntent → SubmissionMode → Text → Db → Db
stored p d mode batch_id db =
    (insert_intent (new_row p d mode batch_id)
      (add_pending p.user_address d.asset_in d.amount (insert_nonce p.user_address d.nonce db).1)).1

pub store_intent_err :
    (p : SubmitIntentRequest) (d : DecryptedIntent) (mode : SubmissionMode) (b : Text) (w : World)
    (e : Failure)
    → (store_intent p d mode b w).0 ≡ err e
    → (store_intent p d mode b w).1.db ≡ w.db
unfolding store_intent transaction execute execute_rows round_trip get_db modify_db ◌>>=◌
store_intent_err p d mode b w e h = ground arith

pub store_intent_ok :
    (p : SubmitIntentRequest) (d : DecryptedIntent) (mode : SubmissionMode) (b : Text) (w : World)
    → (store_intent p d mode b w).0 ≡ ok tt
    → (has_nonce p.user_address d.nonce w.db ≡ false)
      × (any (is_intent p.intent_id) w.db.intents ≡ false)
      × ((store_intent p d mode b w).1.db ≡ stored p d mode b w.db)
unfolding store_intent transaction execute execute_rows round_trip get_db modify_db ◌>>=◌
    insert_nonce insert_intent add_pending new_row
store_intent_ok p d mode b w h = ground arith

pub screen-db :
    (env : Env) (call : Call) (p : SubmitIntentRequest) (w : World)
    → (screen env call p w).1.db ≡ w.db
unfolding screen pure ◌>>=◌
screen-db env call p w = ground (
  arith,
  check_ip_limit-db env.config call.client_ip w,
  check_user_limit-db env.config p.user_address (check_ip_limit env.config call.client_ip w).1,
)

pub screen-trips :
    (env : Env) (call : Call) (p : SubmitIntentRequest) (w : World)
    → let w' = (screen env call p w).1 in (w'.faults ≡ w.faults) × (w.trips ≤ w'.trips)
unfolding screen pure ◌>>=◌
screen-trips env call p w =
    let by_ip = check_ip_limit-trips env.config call.client_ip w in
    let by_user =
      check_user_limit-trips env.config p.user_address
        (check_ip_limit env.config call.client_ip w).1 in
    (ground (arith, by_ip, by_user), ground (arith, by_ip, by_user))

pub store_intent-trips :
    (p : SubmitIntentRequest) (d : DecryptedIntent) (mode : SubmissionMode) (b : Text) (w : World)
    → let w' = (store_intent p d mode b w).1 in (w'.faults ≡ w.faults) × (w.trips ≤ w'.trips)
unfolding store_intent transaction execute execute_rows round_trip get_db modify_db ◌>>=◌
store_intent-trips p d mode b w = (ground arith, ground arith)

pub screen_ok :
    (env : Env) (call : Call) (p : SubmitIntentRequest) (w : World) (mode : SubmissionMode)
    (plaintext : Bytes) (d : DecryptedIntent)
    → (screen env call p w).0 ≡ ok (mode, (plaintext, d))
    → (parse_submission_mode p.submission_mode ≡ ok mode)
      × (review env call p mode ≡ ok (plaintext, d))
unfolding screen pure ◌>>=◌
screen_ok env call p w mode plaintext d h = ground arith

unfoldable pub batch_of : Env → Call → Text
batch_of env call =
    compute_current_batch_id call.batch_clock env.config.genesis_timestamp
      env.config.batch_window_seconds

-- The tables that `undo_intent` leaves where none of its statements fails.
abbrev pub undone : SubmitIntentRequest → DecryptedIntent → Db → Db
undone p d db =
    release_pending p.user_address d.asset_in d.amount
      (delete_nonce p.user_address p.nonce (mark_onchain_failed p.intent_id db))

-- A round trip between the two worlds has failed.
abbrev pub Interrupted : World → World → Type 0
Interrupted w w' = (n : ℕ) × (w.trips ≤ n) × (n < w'.trips) × (w.faults n ≡ true)

-- A block of three statements in a transaction whose errors are ignored: it is done as a whole, or a
-- round trip has failed and nothing is done.
attempt-transaction :
    (f g h : Db → Db) (w : World)
    → let w' = (attempt (transaction do execute f; execute g; execute h) w).1 in
      ((w'.db ≡ w.db) × Interrupted w w') ⊎ (w'.db ≡ h (g (f w.db)))
unfolding attempt transaction execute round_trip get_db modify_db ◌>>=◌
attempt-transaction f g h w = elim (Bool-cases (w.faults w.trips)) [
  | inl a ↦ inl (ground arith, (w.trips, omega arith, ground arith, a))
  | inr a ↦ elim (Bool-cases (w.faults (suc w.trips))) [
    | inl b ↦ inl (ground arith, (suc w.trips, omega arith, ground arith, b))
    | inr b ↦ elim (Bool-cases (w.faults (suc (suc w.trips)))) [
      | inl c ↦ inl (ground arith, (suc (suc w.trips), omega arith, ground arith, c))
      | inr c ↦ elim (Bool-cases (w.faults (suc (suc (suc w.trips))))) [
        | inl e ↦ inl (ground arith, (suc (suc (suc w.trips)), omega arith, ground arith, e))
        | inr e ↦ elim (Bool-cases (w.faults (suc (suc (suc (suc w.trips)))))) [
          | inl k ↦
              inl (ground arith, (suc (suc (suc (suc w.trips))), omega arith, ground arith, k))
          | inr k ↦ inr (ground arith)
        ]
      ]
    ]
  ]
]

pub undo_intent_lem :
    (p : SubmitIntentRequest) (d : DecryptedIntent) (w : World)
    → let (answer, w') = undo_intent p d w in
      (answer ≡ ok tt) × (((w'.db ≡ w.db) × Interrupted w w') ⊎ (w'.db ≡ undone p d w.db))
unfolding undo_intent attempt
undo_intent_lem p d w = (refl, attempt-transaction _ _ _ w)

-- The tables after an accepted intent: in the gateway mode its commit is recorded, with the
-- transaction hash that the chain has answered.
pub data Accepted (env : Env) (call : Call) (p : SubmitIntentRequest) (d : DecryptedIntent)
    (db db' : Db) : SubmissionMode → Type 0 where
  by_gateway :
      (tx_hash : Text)
      → env.commit_onchain (commitment_of p d) p.user_signature ≡ some tx_hash
      → db'
        ≡ record_commit p.intent_id tx_hash call.stamp (stored p d gateway (batch_of env call) db)
      → Accepted env call p d db db' gateway
  by_wallet :
      db' ≡ stored p d self_commit (batch_of env call) db → Accepted env call p d db db' self_commit

accept_gateway :
    (env : Env) (call : Call) (p : SubmitIntentRequest) (plaintext : Bytes) (d : DecryptedIntent)
    (w : World) (tx : Option Text) (r : SubmitIntentResponse)
    → env.commit_onchain (commitment_of p d) p.user_signature ≡ tx
    → (accept env call p gateway (plaintext, d) w).0 ≡ ok r
    → (tx_hash : Text) × (tx ≡ some tx_hash)
      × (has_nonce p.user_address d.nonce w.db ≡ false)
      × (any (is_intent p.intent_id) w.db.intents ≡ false)
      × ((accept env call p gateway (plaintext, d) w).1.db
          ≡ record_commit p.intent_id tx_hash call.stamp
              (stored p d gateway (batch_of env call) w.db))
unfolding accept commit_intent settle_commit batch_of execute round_trip send modify_db
    modify_metrics pure fail ◌>>=◌
accept_gateway env call p plaintext d w none r e h = ground (arith, undo_intent_lem p d)
accept_gateway env call p plaintext d w (some tx_hash) r e h =
    let stored_ok = store_intent_ok p d gateway (batch_of env call) w in
    (tx_hash, refl, ground arith, ground arith, ground arith)

accept_wallet :
    (env : Env) (call : Call) (p : SubmitIntentRequest) (plaintext : Bytes) (d : DecryptedIntent)
    (w : World) (r : SubmitIntentResponse)
    → (accept env call p self_commit (plaintext, d) w).0 ≡ ok r
    → (has_nonce p.user_address d.nonce w.db ≡ false)
      × (any (is_intent p.intent_id) w.db.intents ≡ false)
      × ((accept env call p self_commit (plaintext, d) w).1.db
          ≡ stored p d self_commit (batch_of env call) w.db)
unfolding accept commit_intent batch_of modify_metrics pure ◌>>=◌
accept_wallet env call p plaintext d w r h =
    ground (arith, store_intent_ok p d self_commit (batch_of env call) w)

pub accept_ok :
    (env : Env) (call : Call) (p : SubmitIntentRequest) (mode : SubmissionMode) (plaintext : Bytes)
    (d : DecryptedIntent) (w : World) (r : SubmitIntentResponse)
    → (accept env call p mode (plaintext, d) w).0 ≡ ok r
    → (has_nonce p.user_address d.nonce w.db ≡ false)
      × (any (is_intent p.intent_id) w.db.intents ≡ false)
      × Accepted env call p d w.db (accept env call p mode (plaintext, d) w).1.db mode
accept_ok env call p gateway plaintext d w r h =
    let (tx_hash, answered, nonce, id, tables) =
      accept_gateway env call p plaintext d w _ r refl h in
    (nonce, id, by_gateway tx_hash answered tables)
accept_ok env call p self_commit plaintext d w r h =
    let (nonce, id, tables) = accept_wallet env call p plaintext d w r h in
    (nonce, id, by_wallet tables)
