-- ===== src/Observer/Events.antt =====
-- The events, and what the observer reports of each: the `handle_*` methods of
-- backend/observer/src/indexer.rs, whose errors are only logged.
pub mod Acceptance
use blindmarkets.Base.{
  ℕ, Bool, ◌||◌, List, [], ◌∷◌, Option, none, some, Text, ℤ, codes, length, leb, get_or, any,
  eq_ignore_ascii_case, to_decimal, if◌then◌else◌,
}
use blindmarkets.Gateway.Crypto.{◌>>=◌}
use blindmarkets.Observer.Config.{ObserverConfig}
use blindmarkets.Observer.Felts.{parse_hex_u128, normalize_hex_felt}
use blindmarkets.Http.{Reply}
use blindmarkets.Observer.Posting.{
  Message, batch_settled, batch_failed, intent_onchain, Desk, post_gateway_json,
}

-- The field `data` of the code is `fields` here.
pub record RawEvent : Type 0 where
  pub from_address : Text
  pub keys : List Text
  pub fields : List Text
  pub block_number : ℕ
  pub transaction_hash : Text

abbrev pub has_key : Text → RawEvent → Bool
has_key key event = any (λ k. eq_ignore_ascii_case k key) event.keys

-- `data[index]`, where there is such a field
unfoldable pub field_at : ℕ → RawEvent → Option Text
field_at index event =
    if leb (length event.fields) index then none else some (get_or event.fields index [])

unfoldable pub settlement_message : ObserverConfig → ℤ → RawEvent → Option Message
settlement_message c now event = do
  field ← field_at c.settlement_batch_id_index event
  batch_id ← parse_hex_u128 field
  some (batch_settled (record { batch_id = to_decimal batch_id; settled_at = now }))

unfoldable pub failure_message : ObserverConfig → ℤ → RawEvent → Option Message
failure_message c now event = do
  field ← field_at c.failure_batch_id_index event
  failure_reason ← field_at c.failure_reason_index event
  batch_id ← parse_hex_u128 field
  some (
      batch_failed (record {
        batch_id = to_decimal batch_id;
        failure_reason = failure_reason;
        failed_at = now;
      }))

-- The two handlers of intents differ in the action and the places of the fields.
unfoldable pub onchain_message : Text → ℕ → ℕ → RawEvent → Option Message
onchain_message action intent_id_index user_index event = do
  id_field ← field_at intent_id_index event
  user_field ← field_at user_index event
  intent_id ← normalize_hex_felt id_field
  user_address ← normalize_hex_felt user_field
  tx_hash ← normalize_hex_felt event.transaction_hash
  some (
      intent_onchain intent_id
        (record { action = action; user_address = user_address; tx_hash = tx_hash }))

abbrev pub commit_message : ObserverConfig → RawEvent → Option Message
commit_message c =
    onchain_message (codes "COMMITTED") c.intent_commit_intent_id_index c.intent_commit_user_index

abbrev pub cancel_message : ObserverConfig → RawEvent → Option Message
cancel_message c =
    onchain_message (codes "CANCELED") c.intent_cancel_intent_id_index c.intent_cancel_user_index

-- `clock n` is the time when n requests have been posted.
module _ (gateway : ℕ → Message → Reply) (clock : ℕ → ℤ) (c : ObserverConfig) where
  abbrev pub report : Option Message → Desk → Desk
  report none desk = desk
  report (some m) desk = (post_gateway_json gateway m desk).1

  abbrev pub now : Desk → ℤ
  now desk = clock (length desk.posted)

  unfoldable pub handle_settlement_event : RawEvent → Desk → Desk
  handle_settlement_event event desk =
      if has_key c.settlement_event_key event
      then report (settlement_message c (now desk) event) desk
      else desk

  unfoldable pub handle_failure_event : RawEvent → Desk → Desk
  handle_failure_event event desk =
      if has_key c.failure_event_key event
      then report (failure_message c (now desk) event) desk
      else desk

  unfoldable pub handle_intent_commit_event : RawEvent → Desk → Desk
  handle_intent_commit_event event desk =
      if has_key c.intent_commit_event_key event then report (commit_message c event) desk else desk

  unfoldable pub handle_intent_cancel_event : RawEvent → Desk → Desk
  handle_intent_cancel_event event desk =
      if has_key c.intent_cancel_event_key event then report (cancel_message c event) desk else desk

  unfoldable pub handle_event : RawEvent → Desk → Desk
  unfolding handle_settlement_event handle_failure_event handle_intent_commit_event
      handle_intent_cancel_event
  handle_event event desk =
      let desk = handle_settlement_event event desk in
      let desk = handle_failure_event event desk in
      let desk = handle_intent_commit_event event desk in handle_intent_cancel_event event desk

  unfoldable pub handle_events : List RawEvent → Desk → Desk
  unfolding handle_event
  handle_events [] desk = desk
  handle_events (event ∷ events) desk = handle_events events (handle_event event desk)
