-- ===== src/Gateway/Hex.antt =====
-- `is_hex_felt` and `is_hex_bytes` of backend/gateway/src/api.rs.
use blindmarkets.Base.{
  ◌%◌, Bool, false, not, ◌&&◌, Text, starts_with, codes, drop, is_empty, len, leb, ◌==◌, all,
  is_ascii_hexdigit, if◌then◌else◌,
}

abbrev pub hex_prefix : Text
hex_prefix = codes "0x"

unfoldable pub is_hex_felt : Text → Bool
is_hex_felt value =
    if not (starts_with value hex_prefix)
    then false
    else let hex = drop 2 value in
      not (is_empty hex) && leb (len hex) 64 && all is_ascii_hexdigit hex

unfoldable pub is_hex_bytes : Text → Bool
is_hex_bytes value =
    if not (starts_with value hex_prefix)
    then false
    else let hex = drop 2 value in
      not (is_empty hex) && (len hex % 2 == 0) && all is_ascii_hexdigit hex
