-- ===== src/Gateway/Submit/Outcome.antt =====
-- What the answers of `submit_intent` say of the tables.
use mathlib.Core.Path.{subst}
use blindmarkets.Base.{
  ◌≤◌, ap, ◌≡◌, refl, sym, ◌∙◌, ◌≢◌, ◌⊎◌, inl, inr, true, false, some, any, arith,
}
use blindmarkets.Gateway.Types.{
  SubmissionMode, gateway, self_commit, SubmitIntentRequest, SubmitIntentResponse, DecryptedIntent,
}
use blindmarkets.Gateway.Exec.{Failure, Result, ok, err, World, ◌>>=◌, count_rejections}
use blindmarkets.Gateway.Table.{is_intent, has_nonce}
use blindmarkets.Gateway.Crypto.{Bytes}
use blindmarkets.Gateway.Validate.{parse_submission_mode}
use blindmarkets.Gateway.Env.{Env, Call, decipher, parse_intent}
use blindmarkets.Gateway.Submit.Acceptance.{IsReviewed, review-IsReviewed}
use blindmarkets.Gateway.Submit.{accept, screen, submit_intent}
use blindmarkets.Gateway.Submit.Effects.{
  Accepted, accept_ok, screen-db, screen-trips, screen_ok, stored, undone, batch_of,
}
use blindmarkets.Gateway.Submit.Failures.{AcceptFailed, Interrupted-later, accept_err}

-- After the screening `submit_intent` is `accept`, but for the count of a rejection.
submit_screened :
    (env : Env) (call : Call) (p : SubmitIntentRequest) (w : World) (mode : SubmissionMode)
    (reviewed : Bytes × DecryptedIntent)
    → (screen env call p w).0 ≡ ok (mode, reviewed)
    → let w' = (screen env call p w).1 in
      ((submit_intent env call p w).1.db ≡ (accept env call p mode reviewed w').1.db)
      × ((submit_intent env call p w).0 ≡ (accept env call p mode reviewed w').0)
      × ((submit_intent env call p w).1.trips ≡ (accept env call p mode reviewed w').1.trips)
unfolding submit_intent count_rejections ◌>>=◌
submit_screened env call p w mode reviewed q = (ground arith, ground arith, ground arith)

submit_refused :
    (env : Env) (call : Call) (p : SubmitIntentRequest) (w : World) (e : Failure)
    → (screen env call p w).0 ≡ err e
    → ((submit_intent env call p w).1.db ≡ w.db) × ((submit_intent env call p w).0 ≡ err e)
unfolding submit_intent count_rejections ◌>>=◌
submit_refused env call p w e q = ground (arith, screen-db env call p w)

-- The answer OK means: the request and its plaintext are reviewed, neither the user's nonce nor the
-- intent's id was there before, and the tables have gained the nonce, the pending amount and the
-- row. In the gateway mode the chain has answered the commit with a transaction hash, which the row
-- records.
pub submit_intent-ok :
    (env : Env) (call : Call) (p : SubmitIntentRequest) (w : World) (r : SubmitIntentResponse)
    → (submit_intent env call p w).0 ≡ ok r
    → (mode : SubmissionMode) × (plaintext : Bytes) × (d : DecryptedIntent) × (parse_submission_mode
          p.submission_mode
        ≡ ok mode)
      × IsReviewed env call p mode plaintext d
      × (has_nonce p.user_address d.nonce w.db ≡ false)
      × (any (is_intent p.intent_id) w.db.intents ≡ false)
      × Accepted env call p d w.db (submit_intent env call p w).1.db mode
submit_intent-ok env call p w r h = go (screen env call p w).0 refl
  where
    go :
        (s : Result (SubmissionMode × (Bytes × DecryptedIntent)))
        → (screen env call p w).0 ≡ s
        → (mode : SubmissionMode) × (plaintext : Bytes) × (d : DecryptedIntent)
          × (parse_submission_mode p.submission_mode ≡ ok mode)
          × IsReviewed env call p mode plaintext d
          × (has_nonce p.user_address d.nonce w.db ≡ false)
          × (any (is_intent p.intent_id) w.db.intents ≡ false)
          × Accepted env call p d w.db (submit_intent env call p w).1.db mode
    go (err e) q = absurd (ground (arith, submit_refused env call p w e q))
    go (ok (mode, (plaintext, d))) q =
        let w' = (screen env call p w).1 in
        let (tables, answer, trips) = submit_screened env call p w mode (plaintext, d) q in
        let (parsed, reviewed) = screen_ok env call p w mode plaintext d q in
        let accepted = accept_ok env call p mode plaintext d w' r (sym answer ∙ h) in
        let same = screen-db env call p w in
        (
          mode,
          plaintext,
          d,
          parsed,
          review-IsReviewed env call p mode plaintext d reviewed,
          subst (λ x. has_nonce p.user_address d.nonce x ≡ false) same accepted.0,
          subst (λ x. any (is_intent p.intent_id) x.intents ≡ false) same accepted.1,
          subst (λ x. Accepted env call p d x (submit_intent env call p w).1.db mode) same
              (rw tables accepted.2),
        )

-- What holds from the screened world to the end of `accept` holds of the whole request.
AcceptFailed-later :
    (env : Env) (call : Call) (p : SubmitIntentRequest) (d : DecryptedIntent) (w v v' w' : World)
    → v.db ≡ w.db
    → (v.faults ≡ w.faults) × (w.trips ≤ v.trips)
    → (w'.db ≡ v'.db) × (v'.trips ≡ w'.trips)
    → AcceptFailed env call p gateway d v v'
    → AcceptFailed env call p gateway d w w'
AcceptFailed-later env call p d w v v' w' same (faults, le) (tables, end) failed = elim failed [
  | inl kept ↦ inl (tables ∙ kept ∙ same)
  | inr (by, fresh, new, inl (kept, cut)) ↦ inr (
    by,
    subst (λ x. has_nonce p.user_address d.nonce x ≡ false) same fresh,
    subst (λ x. any (is_intent p.intent_id) x.intents ≡ false) same new,
    inl (
      tables ∙ kept ∙ ap (stored p d gateway (batch_of env call)) same,
      Interrupted-later w v v' w' faults le end cut,
    ),
  )
  | inr (by, fresh, new, inr (refused, gone)) ↦ inr (
    by,
    subst (λ x. has_nonce p.user_address d.nonce x ≡ false) same fresh,
    subst (λ x. any (is_intent p.intent_id) x.intents ≡ false) same new,
    inr (
      refused,
      tables ∙ gone ∙ ap (λ x. undone p d (stored p d gateway (batch_of env call) x)) same,
    ),
  )
]

-- An error answer leaves the tables as they were, but for a reviewed intent in the gateway mode, whose
-- nonce and id were new, that was stored: then the chain has refused its commit and the tables hold it
-- undone, or they hold it as stored, and one of the round trips of this very request has failed.
pub submit_intent-err :
    (env : Env) (call : Call) (p : SubmitIntentRequest) (w : World) (e : Failure)
    → (submit_intent env call p w).0 ≡ err e
    → ((submit_intent env call p w).1.db ≡ w.db)
      ⊎ ((plaintext : Bytes) × (d : DecryptedIntent) × IsReviewed env call p gateway plaintext d
          × AcceptFailed env call p gateway d w (submit_intent env call p w).1)
submit_intent-err env call p w e h = go (screen env call p w).0 refl
  where
    go :
        (s : Result (SubmissionMode × (Bytes × DecryptedIntent)))
        → (screen env call p w).0 ≡ s
        → ((submit_intent env call p w).1.db ≡ w.db)
          ⊎ ((plaintext : Bytes) × (d : DecryptedIntent) × IsReviewed env call p gateway plaintext d
              × AcceptFailed env call p gateway d w (submit_intent env call p w).1)
    go (err e') q = inl (submit_refused env call p w e' q).0
    go (ok (self_commit, (plaintext, d))) q =
        let w' = (screen env call p w).1 in
        let (tables, answer, trips) = submit_screened env call p w self_commit (plaintext, d) q in
        elim (accept_err env call p self_commit plaintext d w' e (sym answer ∙ h)) [
          | inl kept ↦ inl (tables ∙ kept ∙ screen-db env call p w)
          | inr (other, _, _, _) ↦ absurd (ground arith)
        ]
    go (ok (gateway, (plaintext, d))) q =
        let w' = (screen env call p w).1 in
        let (tables, answer, trips) = submit_screened env call p w gateway (plaintext, d) q in
        let (parsed, reviewed) = screen_ok env call p w gateway plaintext d q in
        let failed = accept_err env call p gateway plaintext d w' e (sym answer ∙ h) in
        inr (
          plaintext,
          d,
          review-IsReviewed env call p gateway plaintext d reviewed,
          AcceptFailed-later env call p d w w' (accept env call p gateway (plaintext, d) w').1
              (submit_intent env call p w).1 (screen-db env call p w) (screen-trips env call p w)
              (tables, sym trips) failed,
        )

-- Replay protection: a request whose plaintext carries a nonce that the user has used is never
-- answered OK, and leaves the tables as they were.
pub submit_intent_replay :
    (env : Env) (call : Call) (p : SubmitIntentRequest) (w : World) (plaintext : Bytes)
    (d : DecryptedIntent)
    → decipher env p.ciphertext p.encrypted_session_key p.client_public_key ≡ some plaintext
    → parse_intent env plaintext ≡ some d
    → has_nonce p.user_address d.nonce w.db ≡ true
    → ((r : SubmitIntentResponse) → (submit_intent env call p w).0 ≢ ok r)
      × ((submit_intent env call p w).1.db ≡ w.db)
submit_intent_replay env call p w plaintext d deciphered parsed used =
    (never, same (submit_intent env call p w).0 refl)
  where
    one :
        (plaintext' : Bytes) (d' : DecryptedIntent)
        → decipher env p.ciphertext p.encrypted_session_key p.client_public_key ≡ some plaintext'
        → parse_intent env plaintext' ≡ some d'
        → has_nonce p.user_address d'.nonce w.db ≡ false
        → ⊥
    one plaintext' d' e f unused = ground arith

    never : (r : SubmitIntentResponse) → (submit_intent env call p w).0 ≢ ok r
    never r h =
        let (mode, pt, d', m, reviewed, fresh, new, tables) = submit_intent-ok env call p w r h in
        one pt d' reviewed.deciphered reviewed.parsed fresh

    same :
        (s : Result SubmitIntentResponse)
        → (submit_intent env call p w).0 ≡ s
        → (submit_intent env call p w).1.db ≡ w.db
    same (ok r) q = absurd (never r q)
    same (err e) q = elim (submit_intent-err env call p w e q) [
      | inl kept ↦ kept
      | inr (pt, d', reviewed, failed) ↦ elim failed [
        | inl kept ↦ kept
        | inr (_, fresh, _, _) ↦ absurd (one pt d' reviewed.deciphered reviewed.parsed fresh)
      ]
    ]
