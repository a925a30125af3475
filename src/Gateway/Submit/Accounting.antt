-- ===== src/Gateway/Submit/Accounting.antt =====
-- What is pending, and which rows there are, once an intent was stored or undone.
use blindmarkets.Base.{
  ◌+◌, ◌≡◌, ap, true, false, ◌++◌, [], ◌∷◌, Text, text_eq_refl, any, if◌then◌else◌, arith,
}
use blindmarkets.Gateway.Types.{
  SubmissionMode, IntentStatus, Intent, SubmitIntentRequest, DecryptedIntent, Db,
}
use blindmarkets.Gateway.Table.{
  is_intent, has_nonce, insert_nonce, delete_nonce, add_pending, release_pending, insert_intent,
  update_intents, pending_of,
}
use blindmarkets.Gateway.Table.Laws.{
  same_key, pending_of-add_pending, pending_of-release_pending, has_nonce-insert_nonce,
  delete_nonce-insert_nonce, update_where-append_new,
}
use blindmarkets.Gateway.Submit.{new_row}
use blindmarkets.Gateway.Submit.Effects.{stored, undone}

-- Storing an intent whose nonce and id are new raises what is pending of its asset by its amount and
-- of nothing else, takes its nonce, and adds its row at the end.
pub stored_effect :
    (p : SubmitIntentRequest) (d : DecryptedIntent) (mode : SubmissionMode) (b : Text) (db : Db)
    (user asset : Text)
    → has_nonce p.user_address d.nonce db ≡ false
    → any (is_intent p.intent_id) db.intents ≡ false
    → let db' = stored p d mode b db in
      (pending_of user asset db' ≡ (
        if same_key p.user_address d.asset_in user asset
        then pending_of user asset db + d.amount
        else pending_of user asset db))
      × (has_nonce p.user_address d.nonce db' ≡ true)
      × (db'.intents ≡ db.intents ++ new_row p d mode b ∷ [])
      × (db'.batches ≡ db.batches)
unfolding insert_intent insert_nonce add_pending new_row has_nonce pending_of
stored_effect p d mode b db user asset fresh new =
    let with_nonce = (insert_nonce p.user_address d.nonce db).1 in
    (
      ground
          (arith, pending_of-add_pending p.user_address d.asset_in user asset d.amount with_nonce),
      ground (arith, has_nonce-insert_nonce p.user_address d.nonce db),
      ground arith,
      ground arith,
    )

abbrev pub failed_row : SubmitIntentRequest → DecryptedIntent → SubmissionMode → Text → Intent
failed_row p d mode b = record (new_row p d mode b) { status = IntentStatus.onchain_failed }

-- Storing such an intent and undoing it gives back what is pending of every asset of every user, and
-- the nonces; of the intent its row is left, marked as failed.
pub undone-stored :
    (p : SubmitIntentRequest) (d : DecryptedIntent) (mode : SubmissionMode) (b : Text) (db : Db)
    (user asset : Text)
    → p.nonce ≡ d.nonce
    → has_nonce p.user_address d.nonce db ≡ false
    → any (is_intent p.intent_id) db.intents ≡ false
    → let db' = undone p d (stored p d mode b db) in
      (pending_of user asset db' ≡ pending_of user asset db)
      × (db'.user_nonces ≡ db.user_nonces)
      × (db'.intents ≡ db.intents ++ failed_row p d mode b ∷ [])
      × (db'.batches ≡ db.batches)
unfolding insert_intent insert_nonce add_pending new_row has_nonce pending_of delete_nonce
    release_pending update_intents
undone-stored p d mode b db user asset nonce fresh new =
    let with_nonce = (insert_nonce p.user_address d.nonce db).1 in
    let added = add_pending p.user_address d.asset_in d.amount with_nonce in
    (
      ground (
        arith,
        pending_of-add_pending p.user_address d.asset_in user asset d.amount with_nonce,
        pending_of-release_pending p.user_address d.asset_in user asset d.amount added,
      ),
      ground (
        arith,
        ap (λ (x : Db). x.user_nonces) (delete_nonce-insert_nonce p.user_address d.nonce db fresh),
      ),
      ground (
        arith,
        text_eq_refl p.intent_id,
        update_where-append_new (is_intent p.intent_id)
            (λ (row : Intent). record row { status = IntentStatus.onchain_failed }) db.intents
            (new_row p d mode b) new,
      ),
      ground arith,
    )
