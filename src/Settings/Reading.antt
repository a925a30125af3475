-- ===== src/Settings/Reading.antt =====
-- What a number that was read from the environment is.
use blindmarkets.Base.{ℕ, ◌<◌, ◌≡◌, some, unwrap_or, [], ◌∷◌, Text, String, parse_unsigned, arith}
use blindmarkets.Settings.{ok, Vars, var, number_var}

parse_unsigned-lt : (limit : ℕ) (s : Text) (n : ℕ) → parse_unsigned limit s ≡ some n → n < limit
unfolding parse_unsigned
parse_unsigned-lt limit [] n h = absurd (ground arith)
parse_unsigned-lt limit (c ∷ []) n h = ground arith
parse_unsigned-lt limit (c ∷ d ∷ s) n h = ground arith

-- A variable that is set to a number, and what it was read as.
pub record IsRead (limit : ℕ) (vars : Vars) (name : String) (n : ℕ) : Type 0 where
  pub value : Text
  pub set : vars name ≡ some value
  pub parsed : parse_unsigned limit value ≡ some n
  pub bounded : n < limit

pub number_var-IsRead :
    (limit : ℕ) (vars : Vars) (name : String) (n : ℕ)
    → number_var limit vars name ≡ ok n
    → IsRead limit vars name n
unfolding number_var var
number_var-IsRead limit vars name n h =
    let parsed : parse_unsigned limit (unwrap_or (vars name) []) ≡ some n = ground arith in
    record {
      value = unwrap_or (vars name) [];
      set = ground arith;
      parsed = parsed;
      bounded = parse_unsigned-lt limit _ n parsed;
    }
