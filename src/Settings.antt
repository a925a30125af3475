-- ===== src/Settings.antt =====
-- How the services' settings are read: config.rs of backend/coordinator/src, backend/observer/src,
-- backend/gateway/src and solver-reference/src. The environment is a function from names to texts.
pub mod Reading
use blindmarkets.Base.{
  ℕ, ◌^◌, Bool, not, ◌&&◌, ◌||◌, List, [], ◌∷◌, map, Option, none, some, Text, String, codes,
  starts_with, trim, is_empty, len, ltb, ◌==◌, retain, parse_unsigned, if◌then◌else◌,
}

-- The error texts name the variable.
pub data ConfigError : Type 0 where
  not_set invalid : String → ConfigError
  bad_url bad_prefix bad_length : String → ConfigError
  empty zero_value out_of_range : String → ConfigError
  no_fill_source : ConfigError

pub data ConfigResult {ℓ} (A : Type ℓ) : Type ℓ where
  ok : A → ConfigResult A
  err : ConfigError → ConfigResult A

infixl 5 ◌>>=◌ ◌>>◌
abbrev pub ◌>>=◌ {ℓ κ} :
    {A : Type ℓ} {B : Type κ} → ConfigResult A → (A → ConfigResult B) → ConfigResult B
ok a >>= f = f a
err e >>= f = err e

abbrev pub ◌>>◌ {ℓ} : {B : Type ℓ} → ConfigResult (Unit {0}) → ConfigResult B → ConfigResult B
m >> n = m >>= λ _. n

abbrev pub Vars : Type 0
Vars = String → Option Text

abbrev pub require {ℓ} : {A : Type ℓ} → Option A → ConfigError → ConfigResult A
require none e = err e
require (some a) e = ok a

-- `env::var(name)` with its error
unfoldable pub var : Vars → String → ConfigResult Text
var vars name = require (vars name) (not_set name)

-- `.parse()` into an unsigned type whose values lie below the limit
unfoldable pub number_var : ℕ → Vars → String → ConfigResult ℕ
unfolding var
number_var limit vars name = do
  value ← var vars name
  require (parse_unsigned limit value) (invalid name)

abbrev pub u64_var : Vars → String → ConfigResult ℕ
u64_var = number_var (2 ^ 64)

-- `if b { return Err(..) }`
abbrev pub refuse_if : Bool → ConfigError → ConfigResult (Unit {0})
refuse_if b e = if b then err e else ok tt

abbrev pub is_http : Text → Bool
is_http url = starts_with url (codes "http://") || starts_with url (codes "https://")

abbrev pub has_hex_prefix : Text → Bool
has_hex_prefix s = starts_with s (codes "0x")

abbrev pub is_blank : Text → Bool
is_blank s = is_empty (trim s)
