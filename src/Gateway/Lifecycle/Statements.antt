-- ===== src/Gateway/Lifecycle/Statements.antt =====
-- The gateway's statements on `intents` as steps of each row.
use mathlib.Core.Path.{subst}
use blindmarkets.Base.{ℕ, ◌≡◌, refl, sym, true, Option, some, Text, and-eq_true, arith}
use blindmarkets.Gateway.Types.{
  Intent, IntentStatus, pending, auction, Db, is_open, is_pending, is_auction,
}
use blindmarkets.Gateway.Table.{find_intent, release_pending, release_pending_of, update_intents}
use blindmarkets.Gateway.Env.{Env}
use blindmarkets.Gateway.Submit.{record_commit}
use blindmarkets.Gateway.Cancel.{mark_canceled}
use blindmarkets.Gateway.Reconcile.{awaits_commit, is_cancelable, mark_committed}
use blindmarkets.Gateway.Batches.{start_auction, requeue, settle_intents}
use blindmarkets.Gateway.Lifecycle.{
  StatusStep, stays, enters_auction, leaves_auction, settles, cancels, activates, Distinct, Step,
}
use blindmarkets.Gateway.Lifecycle.Rows.{Step-update, Step-update_id}

is_pending_eq : (s : IntentStatus) → is_pending s ≡ true → s ≡ pending
is_pending_eq s h = ground arith

is_auction_eq : (s : IntentStatus) → is_auction s ≡ true → s ≡ auction
is_auction_eq s h = ground arith

pub Step-start_auction :
    (env : Env) (b : Text) (db : Db)
    → Distinct db.intents
    → Step env db.intents (start_auction b db).intents
unfolding start_auction update_intents
Step-start_auction env b db h =
    Step-update env _ _ db.intents (λ row. refl)
      (λ row q. record {
        same = refl;
        moves =
            subst (λ s. StatusStep s auction) (sym (is_pending_eq row.status (and-eq_true _ _ q).1))
              enters_auction;
      })
      h

pub Step-requeue :
    (env : Env) (b b' : Text) (db : Db)
    → Distinct db.intents
    → Step env db.intents (requeue b b' db).intents
unfolding requeue update_intents
Step-requeue env b b' db h =
    Step-update env _ _ db.intents (λ row. refl)
      (λ row q. record {
        same = refl;
        moves =
            subst (λ s. StatusStep s pending) (sym (is_auction_eq row.status (and-eq_true _ _ q).1))
              leaves_auction;
      })
      h

pub Step-settle_intents :
    (env : Env) (b : Text) (db : Db)
    → Distinct db.intents
    → Step env db.intents (settle_intents b db).intents
unfolding settle_intents update_intents
Step-settle_intents env b db h =
    Step-update env _ _ db.intents (λ row. refl)
      (λ row q. record { same = refl; moves = settles (and-eq_true _ _ q).1 }) h

pub is_open-is_cancelable : (s : IntentStatus) → is_open s ≡ true → is_cancelable s ≡ true
is_open-is_cancelable s h = ground arith

pub Step-mark_canceled :
    (env : Env) (id tx_hash : Text) (now : ℕ) (row : Intent) (db : Db)
    → find_intent id db ≡ some row
    → is_cancelable row.status ≡ true
    → Distinct db.intents
    → Step env db.intents (mark_canceled id tx_hash now db).intents
unfolding mark_canceled update_intents find_intent
Step-mark_canceled env id tx_hash now row db found able h =
    Step-update_id env id _ db.intents row (λ _. refl) found
      (record { same = refl; moves = cancels able }) h

pub Step-mark_committed :
    (env : Env) (id tx_hash b : Text) (now : ℕ) (row : Intent) (db : Db)
    → find_intent id db ≡ some row
    → awaits_commit row.status ≡ true
    → Distinct db.intents
    → Step env db.intents (mark_committed id tx_hash b now db).intents
unfolding mark_committed update_intents find_intent
Step-mark_committed env id tx_hash b now row db found awaits h =
    Step-update_id env id _ db.intents row (λ _. refl) found
      (record { same = refl; moves = activates awaits }) h

pub Step-record_commit :
    (env : Env) (id tx_hash : Text) (now : ℕ) (db : Db)
    → Distinct db.intents
    → Step env db.intents (record_commit id tx_hash now db).intents
unfolding record_commit update_intents
Step-record_commit env id tx_hash now db h =
    Step-update env _ _ db.intents (λ _. refl) (λ _ _. record { same = refl; moves = stays }) h

pub intents-release_pending_of :
    (u : Text) (a : Option Text) (n : ℕ) (db : Db)
    → (release_pending_of u a n db).intents ≡ db.intents
unfolding release_pending_of release_pending
intents-release_pending_of u a n db = ground arith

pub intents-release_pending :
    (u a : Text) (n : ℕ) (db : Db) → (release_pending u a n db).intents ≡ db.intents
unfolding release_pending
intents-release_pending u a n db = refl
