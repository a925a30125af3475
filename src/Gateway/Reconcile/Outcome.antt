-- ===== src/Gateway/Reconcile/Outcome.antt =====
-- What `reconcile_onchain_intent` does to the tables, whatever it answers.
use mathlib.Core.Path.{subst}
use blindmarkets.Base.{
  ℕ, ◌≡◌, sym, ap, ◌∙◌, ◌⊎◌, inl, inr, true, false, none, some, Text, text_eq, text_eq→eq,
  Bool-cases, Option-cases, codes, arith,
}
use blindmarkets.Gateway.Types.{Intent, OnchainLifecycleRequest, Db, is_gateway}
use blindmarkets.Gateway.Exec.{
  World, ◌>>=◌, pure, fail, execute, round_trip, get_db, modify_db, send, transaction,
}
use blindmarkets.Gateway.Exec.Rules.{
  Quiet-checked, Quiet-query, after-Quiet, query_ok, or_fail_ok, guard_ok,
}
use blindmarkets.Gateway.Table.{find_intent, release_pending_of}
use blindmarkets.Gateway.RateLimit.{Quiet-check_ip_limit}
use blindmarkets.Gateway.Validate.{normalize}
use blindmarkets.Gateway.Env.{Env, Call}
use blindmarkets.Gateway.Submit.{record_commit}
use blindmarkets.Gateway.Submit.Effects.{batch_of}
use blindmarkets.Gateway.Cancel.{mark_canceled}
use blindmarkets.Gateway.Reconcile.{
  has_hash, awaits_commit, is_committed, is_cancelable, mark_committed, activate, reconcile_commit,
  release_reconciled, reconcile_cancel, dispatch, reconcile_onchain_intent,
}

-- The intent that the request names, and its user.
pub record IsFound (id : Text) (p : OnchainLifecycleRequest) (db : Db) (row : Intent) : Type 0 where
  pub found : find_intent id db ≡ some row
  pub owned : row.user_address ≡ p.user_address

-- The changes that a report of the chain can make.
pub data Reconciled (env : Env) (call : Call) (id : Text) (p : OnchainLifecycleRequest) (db : Db)
    : Db → Type 0 where
  unchanged : Reconciled env call id p db db
  committed :
      (row : Intent)
      → IsFound id p db row
      → text_eq (normalize p.action) (codes "COMMITTED") ≡ true
      → has_hash row.onchain_tx_hash p.tx_hash ≡ false
      → awaits_commit row.status ≡ true
      → Reconciled env call id p db (mark_committed id p.tx_hash (batch_of env call) call.stamp db)
  confirmed :
      (row : Intent)
      → IsFound id p db row
      → text_eq (normalize p.action) (codes "COMMITTED") ≡ true
      → is_gateway row.submission_mode ≡ true
      → is_committed row.status ≡ true
      → row.onchain_tx_hash ≡ none
      → Reconciled env call id p db (record_commit id p.tx_hash call.stamp db)
  canceled_onchain :
      (row : Intent) (amount : ℕ)
      → IsFound id p db row
      → text_eq (normalize p.action) (codes "CANCELED") ≡ true
      → is_cancelable row.status ≡ true
      → row.amount ≡ some amount
      → Reconciled env call id p db (
          release_pending_of p.user_address row.asset_in amount
            (mark_canceled id p.tx_hash call.stamp db))

activate_tables :
    (env : Env) (call : Call) (id : Text) (p : OnchainLifecycleRequest) (row : Intent) (w : World)
    → ((activate env call id p row w).1.db ≡ w.db)
      ⊎ ((activate env call id p row w).1.db
          ≡ mark_committed id p.tx_hash (batch_of env call) call.stamp w.db)
unfolding activate batch_of execute round_trip modify_db send ◌>>=◌
activate_tables env call id p row w = ground arith

execute_tables :
    (f : Db → Db) (w : World) → ((execute f w).1.db ≡ w.db) ⊎ ((execute f w).1.db ≡ f w.db)
unfolding execute round_trip modify_db ◌>>=◌
execute_tables f w = ground arith

release_reconciled_tables :
    (call : Call) (id : Text) (p : OnchainLifecycleRequest) (row : Intent) (n : ℕ) (w : World)
    → ((release_reconciled call id p row n w).1.db ≡ w.db)
      ⊎ ((release_reconciled call id p row n w).1.db
          ≡ release_pending_of p.user_address row.asset_in n
              (mark_canceled id p.tx_hash call.stamp w.db))
unfolding release_reconciled transaction execute round_trip get_db modify_db ◌>>=◌
release_reconciled_tables call id p row n w = ground arith

commit_cases :
    (env : Env) (call : Call) (id : Text) (p : OnchainLifecycleRequest) (row : Intent) (w : World)
    → let db' = (reconcile_commit env call id p row w).1.db in
      (db' ≡ w.db)
      ⊎ (((has_hash row.onchain_tx_hash p.tx_hash ≡ false)
            × (awaits_commit row.status ≡ true)
            × (db' ≡ mark_committed id p.tx_hash (batch_of env call) call.stamp w.db))
          ⊎ ((is_gateway row.submission_mode ≡ true)
              × (is_committed row.status ≡ true)
              × (row.onchain_tx_hash ≡ none)
              × (db' ≡ record_commit id p.tx_hash call.stamp w.db)))
unfolding reconcile_commit pure fail
commit_cases env call id p row w = ground (
  arith,
  activate_tables env call id p row w,
  execute_tables (record_commit id p.tx_hash call.stamp) w,
)

commit-Reconciled :
    (env : Env) (call : Call) (id : Text) (p : OnchainLifecycleRequest) (row : Intent) (w : World)
    → IsFound id p w.db row
    → text_eq (normalize p.action) (codes "COMMITTED") ≡ true
    → Reconciled env call id p w.db (reconcile_commit env call id p row w).1.db
commit-Reconciled env call id p row w h action = elim (commit_cases env call id p row w) [
  | inl kept ↦ rw kept unchanged
  | inr (inl (new, awaits, tables)) ↦ rw tables (committed row h action new awaits)
  | inr (inr (by_gateway, was, no_hash, tables)) ↦
      rw tables (confirmed row h action by_gateway was no_hash)
]

cancel_some :
    (call : Call) (id : Text) (p : OnchainLifecycleRequest) (row : Intent) (n : ℕ) (w : World)
    → row.amount ≡ some n
    → let db' = (reconcile_cancel call id p row w).1.db in
      (db' ≡ w.db)
      ⊎ ((is_cancelable row.status ≡ true)
          × (db'
              ≡ release_pending_of p.user_address row.asset_in n
                  (mark_canceled id p.tx_hash call.stamp w.db)))
unfolding reconcile_cancel pure ◌>>=◌
cancel_some call id p row n w h = ground (arith, release_reconciled_tables call id p row n w)

cancel_none :
    (call : Call) (id : Text) (p : OnchainLifecycleRequest) (row : Intent) (w : World)
    → row.amount ≡ none
    → (reconcile_cancel call id p row w).1.db ≡ w.db
unfolding reconcile_cancel pure ◌>>=◌
cancel_none call id p row w h = ground arith

cancel-Reconciled :
    (env : Env) (call : Call) (id : Text) (p : OnchainLifecycleRequest) (row : Intent) (w : World)
    → IsFound id p w.db row
    → text_eq (normalize p.action) (codes "CANCELED") ≡ true
    → Reconciled env call id p w.db (reconcile_cancel call id p row w).1.db
cancel-Reconciled env call id p row w h action = elim (Option-cases row.amount) [
  | inl q ↦ rw (cancel_none call id p row w q) unchanged
  | inr (n, q) ↦ elim (cancel_some call id p row n w q) [
    | inl kept ↦ rw kept unchanged
    | inr (status, tables) ↦ rw tables (canceled_onchain row n h action status q)
  ]
]

dispatch-Reconciled :
    (env : Env) (call : Call) (id : Text) (p : OnchainLifecycleRequest) (row : Intent) (w : World)
    → IsFound id p w.db row
    → Reconciled env call id p w.db (dispatch env call id p row w).1.db
unfolding dispatch fail
dispatch-Reconciled env call id p row w h =
    elim (Bool-cases (text_eq (normalize p.action) (codes "COMMITTED"))) [
      | inl t ↦ rw t (commit-Reconciled env call id p row w h t)
      | inr f ↦ elim (Bool-cases (text_eq (normalize p.action) (codes "CANCELED"))) [
        | inl t ↦ rw f rw t (cancel-Reconciled env call id p row w h t)
        | inr f' ↦ rw f rw f' unchanged
      ]
    ]

-- Whatever `reconcile_onchain_intent` answers, it has made one of the four changes `Reconciled`, each
-- under its conditions on the user, the action, the status and the transaction hash of the row.
pub reconcile_onchain_intent_lem :
    (env : Env) (call : Call) (id : Text) (p : OnchainLifecycleRequest) (w : World)
    → Reconciled env call id p w.db (reconcile_onchain_intent env call id p w).1.db
unfolding reconcile_onchain_intent
reconcile_onchain_intent_lem env call id p w =
    after-Quiet P _ _ w (Quiet-checked _) unchanged λ _ _ _.
      after-Quiet P _ _ w (Quiet-check_ip_limit env.config call.client_ip) unchanged λ _ _ s2.
        after-Quiet P _ _ _ (Quiet-checked _) (kept s2) λ _ _ _.
          after-Quiet P _ _ _ (Quiet-query _) (kept s2) λ found q4 s4.
            after-Quiet P _ _ _ (Quiet-checked _) (kept (s4 ∙ s2)) λ row q5 _.
              after-Quiet P _ _ _ (Quiet-checked _) (kept (s4 ∙ s2)) λ _ q6 _.
                let is_found : IsFound id p w.db row = record {
                  found =
                      sym (query_ok (find_intent id) _ q4 ∙ ap (find_intent id) s2)
                      ∙ or_fail_ok found _ q5;
                  owned = text_eq→eq _ _ (guard_ok _ _ q6);
                } in
                moved row _ (s4 ∙ s2) is_found
  where
    P : Db → Type 0
    P db' = Reconciled env call id p w.db db'

    kept : {db : Db} → db ≡ w.db → P db
    kept same = subst P (sym same) unchanged

    moved :
        (row : Intent) (w' : World)
        → w'.db ≡ w.db
        → IsFound id p w.db row
        → P (dispatch env call id p row w').1.db
    moved row w' same h =
        subst (λ x. Reconciled env call id p x (dispatch env call id p row w').1.db) same
          (dispatch-Reconciled env call id p row w' (subst (λ x. IsFound id p x row) (sym same) h))
