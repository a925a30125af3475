-- ===== src/Observer/Events/Acceptance.antt =====
-- What the gateway makes of the observer's messages.
use blindmarkets.Base.{
  ℕ, ◌≤◌, ◌≡◌, refl, Bool, true, ◌||◌, [], ◌∷◌, Option, none, some, unwrap_or, Text, ℤ, is_positive,
  codes, len, get_or, all, is_empty, text_eq, starts_with, trim, to_ascii_uppercase,
  to_ascii_lowercase, is_ascii_digit, is_ascii_hexdigit, to_decimal-all_digits, is_empty-to_decimal,
  arith,
}
use blindmarkets.Gateway.Hex.{is_hex_felt}
use blindmarkets.Gateway.Exec.{ok}
use blindmarkets.Gateway.Validate.{
  normalize, validate_settle_batch_request, validate_failed_batch_request,
  validate_onchain_lifecycle_request,
}
use blindmarkets.Observer.Config.{ObserverConfig}
use blindmarkets.Observer.Felts.{raw_digits, parse_hex_u128, normalize_hex_felt}
use blindmarkets.Observer.Posting.{Message, batch_settled, batch_failed, intent_onchain}
use blindmarkets.Observer.Events.{
  RawEvent, field_at, settlement_message, failure_message, onchain_message, commit_message,
  cancel_message,
}

-- The gateway's validation lets the message through.
abbrev pub Passes : Message → Type 0
Passes (batch_settled p) = validate_settle_batch_request p ≡ ok tt
Passes (batch_failed p) = validate_failed_batch_request p ≡ ok tt
Passes (intent_onchain intent_id p) =
    (is_hex_felt intent_id ≡ true) × (validate_onchain_lifecycle_request p ≡ ok tt)

all-to_ascii_lowercase :
    (s : Text)
    → all is_ascii_hexdigit s ≡ true
    → (all is_ascii_hexdigit (to_ascii_lowercase s) ≡ true)
      × (len (to_ascii_lowercase s) ≡ len s)
      × (is_empty (to_ascii_lowercase s) ≡ is_empty s)
unfolding to_ascii_lowercase all len is_ascii_hexdigit is_ascii_digit
all-to_ascii_lowercase [] h = (refl, refl, refl)
all-to_ascii_lowercase (c ∷ s) h =
    (ground (arith, all-to_ascii_lowercase s), ground (arith, all-to_ascii_lowercase s), refl)

-- A felt of at most 64 digits is one for the gateway too, once normalized.
normalize_hex_felt-is_hex_felt :
    (value felt : Text)
    → normalize_hex_felt value ≡ some felt
    → len (raw_digits value) ≤ 64
    → is_hex_felt felt ≡ true
unfolding normalize_hex_felt is_hex_felt starts_with
normalize_hex_felt-is_hex_felt value felt h short =
    ground (arith, all-to_ascii_lowercase (raw_digits value))

-- The fields that an intent's event names are felts of at most 64 digits.
pub record IsFelts (intent_id_index user_index : ℕ) (event : RawEvent) : Type 0 where
  pub short_id : len (raw_digits (get_or event.fields intent_id_index [])) ≤ 64
  pub short_user : len (raw_digits (get_or event.fields user_index [])) ≤ 64
  pub short_hash : len (raw_digits event.transaction_hash) ≤ 64

abbrev or_empty : Option Text → Text
or_empty none = []
or_empty (some s) = s

abbrev is_known : Text → Bool
is_known action =
    text_eq (normalize action) (codes "COMMITTED") || text_eq (normalize action) (codes "CANCELED")

is_commit : is_known (codes "COMMITTED") ≡ true
unfolding normalize trim to_ascii_uppercase text_eq
is_commit = refl

is_cancel : is_known (codes "CANCELED") ≡ true
unfolding normalize trim to_ascii_uppercase text_eq
is_cancel = refl

onchain_message-Passes :
    (action : Text) (i j : ℕ) (event : RawEvent) (m : Message)
    → (text_eq (normalize action) (codes "COMMITTED")
        || text_eq (normalize action) (codes "CANCELED"))
      ≡ true
    → IsFelts i j event
    → onchain_message action i j event ≡ some m
    → Passes m
unfolding onchain_message field_at validate_onchain_lifecycle_request
onchain_message-Passes action i j event m known felts h = ground (
  arith,
  normalize_hex_felt-is_hex_felt (get_or event.fields i [])
      (or_empty (normalize_hex_felt (get_or event.fields i []))),
  normalize_hex_felt-is_hex_felt (get_or event.fields j [])
      (or_empty (normalize_hex_felt (get_or event.fields j []))),
  normalize_hex_felt-is_hex_felt event.transaction_hash
      (or_empty (normalize_hex_felt event.transaction_hash)),
)

settlement_message-Passes :
    (c : ObserverConfig) (now : ℤ) (event : RawEvent) (m : Message)
    → is_positive now ≡ true
    → settlement_message c now event ≡ some m
    → Passes m
unfolding settlement_message field_at validate_settle_batch_request
settlement_message-Passes c now event m h e =
    let n = unwrap_or (parse_hex_u128 (get_or event.fields c.settlement_batch_id_index [])) 0 in
    ground (arith, to_decimal-all_digits n, is_empty-to_decimal n)

failure_message-Passes :
    (c : ObserverConfig) (now : ℤ) (event : RawEvent) (m : Message)
    → is_positive now ≡ true
    → is_hex_felt (get_or event.fields c.failure_reason_index []) ≡ true
    → failure_message c now event ≡ some m
    → Passes m
unfolding failure_message field_at validate_failed_batch_request is_hex_felt
failure_message-Passes c now event m h r e =
    let n = unwrap_or (parse_hex_u128 (get_or event.fields c.failure_batch_id_index [])) 0 in
    ground (arith, to_decimal-all_digits n, is_empty-to_decimal n)

-- What the observer can make of an event.
pub data Reports (c : ObserverConfig) (now : ℤ) (event : RawEvent) (m : Message) : Type 0 where
  settlement : settlement_message c now event ≡ some m → Reports c now event m
  failure :
      is_hex_felt (get_or event.fields c.failure_reason_index []) ≡ true
      → failure_message c now event ≡ some m
      → Reports c now event m
  commit :
      IsFelts c.intent_commit_intent_id_index c.intent_commit_user_index event
      → commit_message c event ≡ some m
      → Reports c now event m
  cancel :
      IsFelts c.intent_cancel_intent_id_index c.intent_cancel_user_index event
      → cancel_message c event ≡ some m
      → Reports c now event m

-- Whatever the observer makes of an event, the gateway's validation of that request lets it through:
-- the batch id of a settlement or a failure is a decimal number, the id, address and hash of an
-- intent's event are felts. The clock is after 1970, a failure's reason is a felt, and the felts of
-- an intent's event have at most 64 digits.
pub Reports-Passes :
    (c : ObserverConfig) (now : ℤ) (event : RawEvent) (m : Message)
    → is_positive now ≡ true
    → Reports c now event m
    → Passes m
Reports-Passes c now event m h (settlement e) = settlement_message-Passes c now event m h e
Reports-Passes c now event m h (failure r e) = failure_message-Passes c now event m h r e
Reports-Passes c now event m h (commit felts e) =
    onchain_message-Passes (codes "COMMITTED") _ _ event m is_commit felts e
Reports-Passes c now event m h (cancel felts e) =
    onchain_message-Passes (codes "CANCELED") _ _ event m is_cancel felts e
