-- ===== src/Observer/Felts.antt =====
-- `parse_hex_u128` and `normalize_hex_felt` of backend/observer/src/indexer.rs. Every error is none.
use blindmarkets.Base.{
  ℕ, ◌+◌, ◌-◌, ◌*◌, ◌^◌, not, ◌&&◌, ◌||◌, [], ◌∷◌, ◌++◌, Option, none, some, Text, codes,
  starts_with, trim, is_empty, all, ltb, leb, ◌==◌, is_ascii_digit, is_ascii_hexdigit,
  to_ascii_lowercase, if◌then◌else◌,
}
use blindmarkets.Gateway.Hex.{hex_prefix}
use blindmarkets.Gateway.Crypto.{trim_hex_prefix}

-- The value of a hexadecimal digit, in either case.
hex_value : ℕ → ℕ
hex_value c =
    if is_ascii_digit c then c - b'0' else if leb b'a' c then c - b'a' + 10 else c - b'A' + 10

unfoldable pub from_hexadecimal : ℕ → Text → ℕ
unfolding hex_value is_ascii_digit
from_hexadecimal acc [] = acc
from_hexadecimal acc (c ∷ s) = from_hexadecimal (acc * 16 + hex_value c) s

-- `u128::from_str_radix(s, 16)`: digits after an optional plus sign, and no overflow
abbrev parse_digits : Text → Option ℕ
parse_digits [] = none
parse_digits (c ∷ s) =
    if all is_ascii_hexdigit (c ∷ s) && ltb (from_hexadecimal 0 (c ∷ s)) (2 ^ 128)
    then some (from_hexadecimal 0 (c ∷ s))
    else none

abbrev from_str_radix_16 : Text → Option ℕ
from_str_radix_16 [] = none
from_str_radix_16 (c ∷ s) = if c == b'+' then parse_digits s else parse_digits (c ∷ s)

unfoldable pub parse_hex_u128 : Text → Option ℕ
parse_hex_u128 value = from_str_radix_16 (trim_hex_prefix value)

abbrev pub raw_digits : Text → Text
raw_digits value = trim_hex_prefix (trim value)

unfoldable pub normalize_hex_felt : Text → Option Text
normalize_hex_felt value =
    if not (starts_with (trim value) hex_prefix)
    then none
    else if is_empty (raw_digits value) || not (all is_ascii_hexdigit (raw_digits value))
    then none
    else some (codes "0x" ++ to_ascii_lowercase (raw_digits value))
