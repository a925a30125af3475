-- ===== src/Gateway/Cancel/Outcome.antt =====
-- What the answers of `cancel_intent` say of the tables.
use blindmarkets.Base.{ℕ, ◌≡◌, sym, ap, ◌∙◌, true, some, unwrap_or, [], Text, text_eq→eq, arith}
use blindmarkets.Gateway.Types.{Intent, DecryptedIntent, CancelIntentRequest, Db, is_open}
use blindmarkets.Gateway.Exec.{
  ok, World, ◌>>=◌, pure, execute, query, round_trip, get_db, modify_db, transaction,
}
use blindmarkets.Gateway.Exec.Rules.{
  Quiet, Atomic, quiet_rules, atomic_rules, >>=-eq-ok, query_ok, guard_ok, or_fail_ok, Quiet-query,
}
use blindmarkets.Gateway.Table.{find_intent, release_pending}
use blindmarkets.Gateway.Crypto.{Bytes}
use blindmarkets.Gateway.Auth.{verify_signature}
use blindmarkets.Gateway.RateLimit.{check_ip_limit, check_ip_limit-db, Quiet-check_ip_limit}
use blindmarkets.Gateway.Env.{Env, Call, decipher, parse_intent}
use blindmarkets.Gateway.Cancel.{
  mark_canceled, open_row, check_cancel_signature, release_canceled, cancel_intent,
}

Quiet-open_row : (env : Env) (p : CancelIntentRequest) (row : Intent) → Quiet (open_row env p row)
unfolding open_row
Quiet-open_row env p row = search quiet_rules

Quiet-check_cancel_signature :
    (env : Env) (id : Text) (p : CancelIntentRequest) → Quiet (check_cancel_signature env id p)
unfolding check_cancel_signature
Quiet-check_cancel_signature env id p = search quiet_rules

Atomic-release_canceled :
    (id tx_hash : Text) (now : ℕ) (p : CancelIntentRequest) (d : DecryptedIntent)
    → Atomic (release_canceled id tx_hash now p d)
unfolding release_canceled
Atomic-release_canceled id tx_hash now p d = search atomic_rules

-- A cancel that is answered by an error has changed nothing in the tables.
pub cancel_intent-Atomic :
    (env : Env) (call : Call) (id : Text) (p : CancelIntentRequest)
    → Atomic (cancel_intent env call id p)
unfolding cancel_intent
cancel_intent-Atomic env call id p =
    search
      (
        atomic_rules, Quiet-check_ip_limit, Quiet-open_row, Quiet-check_cancel_signature,
        Atomic-release_canceled,
      )
      depth 16

release_canceled_ok :
    (intent_id tx_hash : Text) (now : ℕ) (p : CancelIntentRequest) (d : DecryptedIntent) (w : World)
    → (release_canceled intent_id tx_hash now p d w).0 ≡ ok tt
    → (release_canceled intent_id tx_hash now p d w).1.db
      ≡ release_pending p.user_address d.asset_in d.amount
          (mark_canceled intent_id tx_hash now w.db)
unfolding release_canceled transaction execute round_trip get_db modify_db ◌>>=◌
release_canceled_ok intent_id tx_hash now p d w h = ground arith

-- What the answer OK of `cancel_intent` means for the tables before and after it.
pub record IsCanceled (env : Env) (call : Call) (id : Text) (p : CancelIntentRequest) (db db' : Db)
    : Type 0 where
  pub row : Intent
  pub found : find_intent id db ≡ some row
  pub owned : row.user_address ≡ p.user_address
  pub was_open : is_open row.status ≡ true
  pub session_key : Text
  pub has_key : row.encrypted_session_key ≡ some session_key
  pub plaintext : Bytes
  pub deciphered : decipher env row.ciphertext session_key row.client_public_key ≡ some plaintext
  pub intent : DecryptedIntent
  pub parsed : parse_intent env plaintext ≡ some intent
  pub signed : verify_signature env.rpc env.config.rpc_url p.user_address id p.signature ≡ some true
  pub tx_hash : Text
  pub answered : env.cancel_onchain id p.signature ≡ some tx_hash
  pub tables :
      db'
      ≡ release_pending p.user_address intent.asset_in intent.amount
          (mark_canceled id tx_hash call.stamp db)

check_cancel_signature_ok :
    (env : Env) (id : Text) (p : CancelIntentRequest) (w : World)
    → (check_cancel_signature env id p w).0 ≡ ok tt
    → verify_signature env.rpc env.config.rpc_url p.user_address id p.signature ≡ some true
unfolding check_cancel_signature ◌>>=◌
check_cancel_signature_ok env id p w h = ground arith

open_row_ok :
    (env : Env) (p : CancelIntentRequest) (row : Intent) (w : World) (d : DecryptedIntent)
    → (open_row env p row w).0 ≡ ok d
    → (key : Text) × (plaintext : Bytes) × (row.encrypted_session_key ≡ some key)
      × (decipher env row.ciphertext key row.client_public_key ≡ some plaintext)
      × (parse_intent env plaintext ≡ some d)
unfolding open_row ◌>>=◌ pure
open_row_ok env p row w d h = (
  unwrap_or row.encrypted_session_key [],
  unwrap_or
      (decipher env row.ciphertext (unwrap_or row.encrypted_session_key []) row.client_public_key)
      [],
  ground arith,
  ground arith,
  ground arith,
)

pub cancel_intent-ok :
    (env : Env) (call : Call) (id : Text) (p : CancelIntentRequest) (w : World)
    → (cancel_intent env call id p w).0 ≡ ok tt
    → IsCanceled env call id p w.db (cancel_intent env call id p w).1.db
unfolding cancel_intent
cancel_intent-ok env call id p w h =
    let (u1, q1, h1, e1) = >>=-eq-ok _ _ w h in
    let (u2, q2, h2, e2) = >>=-eq-ok _ _ _ h1 in
    let (u3, q3, h3, e3) = >>=-eq-ok _ _ _ h2 in
    let (found, q4, h4, e4) = >>=-eq-ok _ _ _ h3 in
    let (row, q5, h5, e5) = >>=-eq-ok _ _ _ h4 in
    let (u6, q6, h6, e6) = >>=-eq-ok _ _ _ h5 in
    let (u7, q7, h7, e7) = >>=-eq-ok _ _ _ h6 in
    let (d, q8, h8, e8) = >>=-eq-ok _ _ _ h7 in
    let (u9, q9, h9, e9) = >>=-eq-ok _ _ _ h8 in
    let (tx_hash, q10, h10, e10) = >>=-eq-ok _ _ _ h9 in
    let w2 = (check_ip_limit env.config call.client_ip w).1 in
    let w4 = (query (find_intent id) w2).1 in
    let w8 = (open_row env p row w4).1 in
    let w9 = (check_cancel_signature env id p w8).1 in
    let same2 = check_ip_limit-db env.config call.client_ip w in
    let same9 =
      (Quiet-check_cancel_signature env id p).at w8
      ∙ (Quiet-open_row env p row).at w4
      ∙ (Quiet-query (find_intent id)).at w2
      ∙ same2 in
    let (key, plaintext, has_key, deciphered, parsed) = open_row_ok env p row w4 d q8 in
    record {
      row = row;
      found =
          sym (query_ok (find_intent id) w2 q4 ∙ ap (find_intent id) same2) ∙ or_fail_ok found _ q5;
      owned = text_eq→eq _ _ (guard_ok _ _ q6);
      was_open = guard_ok _ _ q7;
      session_key = key;
      has_key = has_key;
      plaintext = plaintext;
      deciphered = deciphered;
      intent = d;
      parsed = parsed;
      signed = check_cancel_signature_ok env id p w8 q9;
      tx_hash = tx_hash;
      answered = or_fail_ok _ _ q10;
      tables =
          e1
          ∙ e2
          ∙ e3
          ∙ e4
          ∙ e5
          ∙ e6
          ∙ e7
          ∙ e8
          ∙ e9
          ∙ e10
          ∙ release_canceled_ok id tx_hash call.stamp p d w9 h10
          ∙ ap
              (λ (x : Db).
                release_pending p.user_address d.asset_in d.amount
                  (mark_canceled id tx_hash call.stamp x))
              same9;
    }
