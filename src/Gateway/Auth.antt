-- ===== src/Gateway/Auth.antt =====
-- backend/gateway/src/auth.rs, and `require_api_key` of api.rs. The JSON-RPC call to the account
-- contract is a parameter; it is none where the request, the reply or its parsing fails.
use blindmarkets.Base.{
  Bool, not, ◌&&◌, List, [], ◌∷◌, Option, none, some, unwrap_or, Text, codes, text_eq, starts_with,
  length, len, is_empty, ltb, all, to_hex, if◌then◌else◌,
}
use blindmarkets.Gateway.Types.{Config, unauthorized}
use blindmarkets.Gateway.Exec.{Result, aborted, guard, ◌then_check◌}

-- `validate_signature_format`: true where the function returns Ok
unfoldable pub validate_signature_format : Text → Text → List Text → Bool
validate_signature_format user_address message_hash signature =
    not (ltb (length signature) 2)
    && is_long_hex user_address
    && is_long_hex message_hash
    && all is_long_hex signature
  where
    is_long_hex : Text → Bool
    is_long_hex s = starts_with s (codes "0x") && not (ltb (len s) 3)

pub record JsonRpcResponse : Type 0 where
  pub result : Option (List Text)
  pub has_error : Bool

-- The call of `is_valid_signature` of the account at an address, with its calldata.
abbrev pub Rpc : Type 0
Rpc = Text → Text → List Text → Option JsonRpcResponse

abbrev is_valid_result : Option (List Text) → Bool
is_valid_result none = Bool.false
is_valid_result (some []) = Bool.false
is_valid_result (some (v ∷ vs)) = not (text_eq v (codes "0x0"))

abbrev read_response : Option JsonRpcResponse → Option Bool
read_response none = none
read_response (some r) = if r.has_error then none else some (is_valid_result r.result)

-- none where the function returns an error
unfoldable pub verify_signature : Rpc → Text → Text → Text → List Text → Option Bool
unfolding validate_signature_format
verify_signature rpc rpc_url user_address message_hash signature =
    if validate_signature_format user_address message_hash signature
    then read_response
        (rpc rpc_url user_address (message_hash ∷ to_hex (length signature) ∷ signature))
    else none

-- `headers` gives a header's value where it is text.
unfoldable pub require_api_key : (Text → Option Text) → Config → Result (Unit {0})
require_api_key headers config =
    let provided = unwrap_or (headers config.api_key_header) [] in
    guard (not (is_empty provided)) (aborted unauthorized)
    then_check guard (text_eq provided config.api_key) (aborted unauthorized)
