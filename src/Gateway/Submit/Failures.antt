-- ===== src/Gateway/Submit/Failures.antt =====
-- What a submission leaves in the tables where `accept` fails.
use blindmarkets.Base.{
  ℕ, ◌≤◌, Bool, sym, ◌≡◌, refl, ap, ◌∙◌, ◌⊎◌, inl, inr, false, Option, none, some, Text, any, arith,
}
use blindmarkets.Gateway.Types.{
  SubmissionMode, gateway, self_commit, SubmitIntentRequest, DecryptedIntent,
}
use blindmarkets.Gateway.Exec.{
  Failure, Result, ok, err, World, ◌>>=◌, execute, round_trip, modify_db, pure, send,
  modify_metrics, attempt, fail,
}
use blindmarkets.Gateway.Table.{is_intent, has_nonce}
use blindmarkets.Gateway.Crypto.{Bytes}
use blindmarkets.Gateway.Env.{Env, Call}
use blindmarkets.Gateway.Submit.{store_intent, commitment_of, settle_commit, commit_intent, accept}
use blindmarkets.Gateway.Submit.Effects.{
  stored, undone, Interrupted, store_intent-trips, batch_of, store_intent_err, store_intent_ok,
  undo_intent_lem,
}

-- Where `accept` fails: the tables are as before, or, in the gateway mode, hold the intent, since a
-- round trip has failed after it was stored, or hold it undone after the chain has refused it.
abbrev pub AcceptFailed :
    Env → Call → SubmitIntentRequest → SubmissionMode → DecryptedIntent → World → World → Type 0
AcceptFailed env call p mode d w w' =
    (w'.db ≡ w.db)
    ⊎ ((mode ≡ gateway)
        × (has_nonce p.user_address d.nonce w.db ≡ false)
        × (any (is_intent p.intent_id) w.db.intents ≡ false)
        × (((w'.db ≡ stored p d gateway (batch_of env call) w.db) × Interrupted w w')
            ⊎ ((env.commit_onchain (commitment_of p d) p.user_signature ≡ none)
                × (w'.db ≡ undone p d (stored p d gateway (batch_of env call) w.db)))))

-- What is between the second and the third world is between the first and the last.
pub Interrupted-later :
    (w v v' w' : World)
    → v.faults ≡ w.faults
    → w.trips ≤ v.trips
    → v'.trips ≡ w'.trips
    → Interrupted v v'
    → Interrupted w w'
Interrupted-later w v v' w' same le end (n, from, to, failed) = (
  n,
  omega (arith, from, le),
  ground (arith, to, end),
  ap (λ (f : ℕ → Bool). f n) (sym same) ∙ failed,
)

Result-cases {ℓ} :
    {A : Type ℓ} (r : Result A) → ((a : A) × (r ≡ ok a)) ⊎ ((e : Failure) × (r ≡ err e))
Result-cases (ok a) = inl (a, refl)
Result-cases (err e) = inr (e, refl)

commit_gateway_err :
    (env : Env) (call : Call) (p : SubmitIntentRequest) (d : DecryptedIntent) (plaintext : Bytes)
    (batch : Text) (w : World) (tx : Option Text) (e : Failure)
    → (settle_commit call p d plaintext batch tx w).0 ≡ err e
    → let w' = (settle_commit call p d plaintext batch tx w).1 in
      ((w'.db ≡ w.db) × Interrupted w w') ⊎ ((tx ≡ none) × (w'.db ≡ undone p d w.db))
unfolding settle_commit execute round_trip send modify_db modify_metrics attempt fail ◌>>=◌
commit_gateway_err env call p d plaintext batch w (some tx_hash) e h =
    inl (ground arith, (w.trips, omega arith, ground arith, ground arith))
commit_gateway_err env call p d plaintext batch w none e h = elim (undo_intent_lem p d w).1 [
  | inl (kept, cut) ↦ inl (kept, cut)
  | inr undone ↦ inr (refl, ground arith)
]

-- Past the transaction, the gateway's failures are those of the commit.
accept_stored :
    (env : Env) (call : Call) (p : SubmitIntentRequest) (mode : SubmissionMode) (plaintext : Bytes)
    (d : DecryptedIntent) (w : World) (e : Failure)
    → (store_intent p d mode (batch_of env call) w).0 ≡ ok tt
    → (accept env call p mode (plaintext, d) w).0 ≡ err e
    → let w' = (store_intent p d mode (batch_of env call) w).1 in
      let tx = env.commit_onchain (commitment_of p d) p.user_signature in
      (mode ≡ gateway)
      × ((settle_commit call p d plaintext (batch_of env call) tx w').0 ≡ err e)
      × ((accept env call p mode (plaintext, d) w).1
          ≡ (settle_commit call p d plaintext (batch_of env call) tx w').1)
unfolding accept commit_intent batch_of modify_metrics pure ◌>>=◌
accept_stored env call p gateway plaintext d w e q h = (refl, ground arith, ground arith)
accept_stored env call p self_commit plaintext d w e q h = absurd (ground arith)

pub accept_err :
    (env : Env) (call : Call) (p : SubmitIntentRequest) (mode : SubmissionMode) (plaintext : Bytes)
    (d : DecryptedIntent) (w : World) (e : Failure)
    → (accept env call p mode (plaintext, d) w).0 ≡ err e
    → AcceptFailed env call p mode d w (accept env call p mode (plaintext, d) w).1
accept_err env call p mode plaintext d w e h =
    elim (Result-cases (store_intent p d mode (batch_of env call) w).0) [
      | inr (e', q) ↦ inl (not_stored e' q)
      | inl (u, q) ↦ inr (after_store q)
    ]
  where
    b : Text
    b = batch_of env call

    not_stored :
        (e' : Failure)
        → (store_intent p d mode b w).0 ≡ err e'
        → (accept env call p mode (plaintext, d) w).1.db ≡ w.db
    not_stored e' q =
        unfold accept ◌>>=◌ batch_of in ground (arith, store_intent_err p d mode b w e' q)

    after_store :
        (store_intent p d mode b w).0 ≡ ok tt
        → let w' = (accept env call p mode (plaintext, d) w).1 in
          (mode ≡ gateway)
          × (has_nonce p.user_address d.nonce w.db ≡ false)
          × (any (is_intent p.intent_id) w.db.intents ≡ false)
          × (((w'.db ≡ stored p d gateway b w.db) × Interrupted w w')
              ⊎ ((env.commit_onchain (commitment_of p d) p.user_signature ≡ none)
                  × (w'.db ≡ undone p d (stored p d gateway b w.db))))
    after_store q =
        let (fresh, new, tables) = store_intent_ok p d mode b w q in
        let (by, failed, same) = accept_stored env call p mode plaintext d w e q h in
        let (faults, trips) = store_intent-trips p d mode b w in
        let w' = (store_intent p d mode b w).1 in
        let tables' : w'.db ≡ stored p d gateway b w.db = rw (← by) tables in
        let tx = env.commit_onchain (commitment_of p d) p.user_signature in
        let committed = (settle_commit call p d plaintext b tx w').1 in
        let accepted = (accept env call p mode (plaintext, d) w).1 in
        let same_db = ap (λ (x : World). x.db) same in
        (
          by,
          fresh,
          new,
          elim (commit_gateway_err env call p d plaintext b w' tx e failed) [
            | inl (kept, cut) ↦ inl (
              same_db ∙ kept ∙ tables',
              Interrupted-later w w' committed accepted faults trips
                  (ap (λ (x : World). x.trips) (sym same)) cut,
            )
            | inr (refused, gone) ↦ inr (refused, same_db ∙ gone ∙ ap (undone p d) tables')
          ],
        )
