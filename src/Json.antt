-- ===== src/Json.antt =====
-- What the gateway and the solver make of a number in the JSON text of an intent: `deserialize_u128`
-- and `deserialize_u64` of backend/gateway/src/api.rs and solver-reference/src/intent_monitor.rs. A
-- value is what serde_json has read; a number is what `Number::as_u64` gives of it.
use blindmarkets.Base.{ℕ, ◌^◌, Option, none, Text, parse_unsigned}

pub data Value : Type 0 where
  number : Option ℕ → Value
  string : Text → Value
  other : Value

unfoldable pub deserialize_u128 : Value → Option ℕ
deserialize_u128 (number as_u64) = as_u64
deserialize_u128 (string text) = parse_unsigned (2 ^ 128) text
deserialize_u128 other = none

unfoldable pub deserialize_u64 : Value → Option ℕ
deserialize_u64 (number as_u64) = as_u64
deserialize_u64 (string text) = parse_unsigned (2 ^ 64) text
deserialize_u64 other = none
