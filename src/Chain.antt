-- ===== src/Chain.antt =====
-- What the starknet_client.rs of backend/gateway/src and of solver-reference/src share: the reading of
-- field elements, and calls of contracts. A field element is its number; the reading of its digits is
-- that of the crate starknet, and a selector is the name that it is derived from.
pub mod Reading
use blindmarkets.Base.{
  ℕ, ◌||◌, List, [], ◌∷◌, Option, some, Text, String, codes, starts_with, if◌then◌else◌,
}
use blindmarkets.Gateway.Crypto.{◌>>=◌}

pub record FeltReader : Type 0 where
  pub from_hex : Text → Option ℕ
  pub from_dec_str : Text → Option ℕ

pub record ContractCall : Type 0 where
  pub to : ℕ
  pub selector : String
  pub calldata : List ℕ

module _ (r : FeltReader) where
  unfoldable pub parse_felt : Text → Option ℕ
  parse_felt value =
      if starts_with value (codes "0x") || starts_with value (codes "0X")
      then r.from_hex value
      else r.from_dec_str value

  unfoldable pub parse_felts : List Text → Option (List ℕ)
  unfolding parse_felt
  parse_felts [] = some []
  parse_felts (value ∷ values) = do
    felt ← parse_felt value
    felts ← parse_felts values
    some (felt ∷ felts)
