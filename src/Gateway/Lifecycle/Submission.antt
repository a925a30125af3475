-- ===== src/Gateway/Lifecycle/Submission.antt =====
-- `submit_intent` as a step of each row.
use mathlib.Core.Path.{subst}
use blindmarkets.Base.{
  ◌≡◌, refl, sym, ap, inl, inr, true, false, ◌++◌, [], ◌∷◌, Text, text_eq_refl, any,
}
use blindmarkets.Gateway.Types.{
  Intent, SubmissionMode, gateway, self_commit, SubmitIntentRequest, SubmitIntentResponse,
  DecryptedIntent, Db, initial_intent_status,
}
use blindmarkets.Gateway.Exec.{Result, ok, err, World}
use blindmarkets.Gateway.Table.{has_nonce, is_intent, update_intents}
use blindmarkets.Gateway.Table.Laws.{update_where-append_new}
use blindmarkets.Gateway.Crypto.{Bytes}
use blindmarkets.Gateway.Env.{Env, Call}
use blindmarkets.Gateway.Submit.{new_row, record_commit, submit_intent}
use blindmarkets.Gateway.Submit.Acceptance.{IsReviewed}
use blindmarkets.Gateway.Submit.Effects.{stored, undone, Accepted, by_gateway, by_wallet}
use blindmarkets.Gateway.Submit.Failures.{AcceptFailed}
use blindmarkets.Gateway.Submit.Outcome.{submit_intent-ok, submit_intent-err}
use blindmarkets.Gateway.Submit.Accounting.{stored_effect, undone-stored}
use blindmarkets.Gateway.Batches.Release.{Opens}
use blindmarkets.Gateway.Lifecycle.{identity, starts, Distinct, Step}
use blindmarkets.Gateway.Lifecycle.Rows.{identity-Opens, Step-refl, Step-append}

-- A row that `submit_intent` stores opens to its columns.
new_row-Opens :
    (env : Env) (call : Call) (p : SubmitIntentRequest) (mode mode' : SubmissionMode)
    (plaintext : Bytes) (d : DecryptedIntent) (b : Text)
    → IsReviewed env call p mode plaintext d
    → Opens env (new_row p d mode' b)
unfolding new_row
new_row-Opens env call p mode mode' plaintext d b h = record {
  session_key = p.encrypted_session_key;
  has_key = refl;
  plaintext = plaintext;
  deciphered = h.deciphered;
  intent = d;
  parsed = h.parsed;
  asset = refl;
  amount_fits = refl;
}

start_ok : (m : SubmissionMode) → starts (initial_intent_status m) ≡ true
unfolding initial_intent_status
start_ok gateway = refl
start_ok self_commit = refl

-- The row of a new intent, with the status and the commit that `submit_intent` leaves.
Step-new_row :
    (env : Env) (call : Call) (p : SubmitIntentRequest) (mode : SubmissionMode) (plaintext : Bytes)
    (d : DecryptedIntent) (b : Text) (row : Intent) (db : Db)
    → IsReviewed env call p mode plaintext d
    → any (is_intent p.intent_id) db.intents ≡ false
    → identity row ≡ identity (new_row p d mode b)
    → starts row.status ≡ true
    → Distinct db.intents
    → Step env db.intents (db.intents ++ row ∷ [])
unfolding new_row
Step-new_row env call p mode plaintext d b row db reviewed new same start h =
    Step-append env db.intents row
      (subst (λ id. any (is_intent id) db.intents ≡ false)
        (sym (ap (λ (r : Intent). r.intent_id) same)) new)
      (identity-Opens env (new_row p d mode b) row same
        (new_row-Opens env call p mode mode plaintext d b reviewed))
      start h

Step-stored :
    (env : Env) (call : Call) (p : SubmitIntentRequest) (mode : SubmissionMode) (plaintext : Bytes)
    (d : DecryptedIntent) (b : Text) (db : Db)
    → IsReviewed env call p mode plaintext d
    → has_nonce p.user_address d.nonce db ≡ false
    → any (is_intent p.intent_id) db.intents ≡ false
    → Distinct db.intents
    → Step env db.intents (stored p d mode b db).intents
unfolding new_row
Step-stored env call p mode plaintext d b db reviewed fresh new h =
    subst (Step env db.intents) (sym (stored_effect p d mode b db [] [] fresh new).2) (
      Step-new_row env call p mode plaintext d b (new_row p d mode b) db reviewed new refl
        (start_ok mode) h)

Step-recorded :
    (env : Env) (call : Call) (p : SubmitIntentRequest) (plaintext : Bytes) (d : DecryptedIntent)
    (b tx_hash : Text) (db : Db)
    → IsReviewed env call p gateway plaintext d
    → has_nonce p.user_address d.nonce db ≡ false
    → any (is_intent p.intent_id) db.intents ≡ false
    → Distinct db.intents
    → Step env db.intents
        (record_commit p.intent_id tx_hash call.stamp (stored p d gateway b db)).intents
unfolding new_row record_commit update_intents initial_intent_status
Step-recorded env call p plaintext d b tx_hash db reviewed fresh new h =
    let at_end = (stored_effect p d gateway b db [] [] fresh new).2 in
    rw at_end rw
      (update_where-append_new (is_intent p.intent_id) _ db.intents (new_row p d gateway b) new
        (text_eq_refl p.intent_id))
      (Step-new_row env call p gateway plaintext d b _ db reviewed new refl refl h)

Step-undone :
    (env : Env) (call : Call) (p : SubmitIntentRequest) (plaintext : Bytes) (d : DecryptedIntent)
    (b : Text) (db : Db)
    → IsReviewed env call p gateway plaintext d
    → has_nonce p.user_address d.nonce db ≡ false
    → any (is_intent p.intent_id) db.intents ≡ false
    → Distinct db.intents
    → Step env db.intents (undone p d (stored p d gateway b db)).intents
Step-undone env call p plaintext d b db reviewed fresh new h =
    subst (Step env db.intents)
      (sym (undone-stored p d gateway b db [] [] (sym reviewed.fields.same_nonce) fresh new).2)
      (Step-new_row env call p gateway plaintext d b _ db reviewed new refl refl h)

Step-Accepted :
    (env : Env) (call : Call) (p : SubmitIntentRequest) (mode : SubmissionMode) (plaintext : Bytes)
    (d : DecryptedIntent) (db db' : Db)
    → IsReviewed env call p mode plaintext d
    → has_nonce p.user_address d.nonce db ≡ false
    → any (is_intent p.intent_id) db.intents ≡ false
    → Distinct db.intents
    → Accepted env call p d db db' mode
    → Step env db.intents db'.intents
Step-Accepted env call p gateway plaintext d db db' reviewed fresh new h (by_gateway tx _ tables) =
    rw tables (Step-recorded env call p plaintext d _ tx db reviewed fresh new h)
Step-Accepted env call p self_commit plaintext d db db' reviewed fresh new h (by_wallet tables) =
    rw tables (Step-stored env call p self_commit plaintext d _ db reviewed fresh new h)

Step-AcceptFailed :
    (env : Env) (call : Call) (p : SubmitIntentRequest) (plaintext : Bytes) (d : DecryptedIntent)
    (w w' : World)
    → IsReviewed env call p gateway plaintext d
    → Distinct w.db.intents
    → AcceptFailed env call p gateway d w w'
    → Step env w.db.intents w'.db.intents
Step-AcceptFailed env call p plaintext d w w' reviewed h failed = elim failed [
  | inl same ↦ rw same (Step-refl env w.db.intents h)
  | inr (_, fresh, new, inl (tables, _)) ↦
      rw tables (Step-stored env call p gateway plaintext d _ w.db reviewed fresh new h)
  | inr (_, fresh, new, inr (_, tables)) ↦
      rw tables (Step-undone env call p plaintext d _ w.db reviewed fresh new h)
]

pub Step-submit :
    (env : Env) (call : Call) (p : SubmitIntentRequest) (w : World)
    → Distinct w.db.intents
    → Step env w.db.intents (submit_intent env call p w).1.db.intents
Step-submit env call p w h = go (submit_intent env call p w).0 refl
  where
    go :
        (r : Result SubmitIntentResponse)
        → (submit_intent env call p w).0 ≡ r
        → Step env w.db.intents (submit_intent env call p w).1.db.intents
    go (ok r) q =
        let (mode, plaintext, d, _, reviewed, fresh, new, accepted) =
          submit_intent-ok env call p w r q in
        Step-Accepted env call p mode plaintext d w.db _ reviewed fresh new h accepted
    go (err e) q = elim (submit_intent-err env call p w e q) [
      | inl same ↦ rw same (Step-refl env w.db.intents h)
      | inr (plaintext, d, reviewed, failed) ↦
          Step-AcceptFailed env call p plaintext d w (submit_intent env call p w).1 reviewed h
            failed
    ]
