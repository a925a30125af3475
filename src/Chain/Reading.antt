-- ===== src/Chain/Reading.antt =====
-- The reading of a serialized array: its length, which is read before, and its elements.
use blindmarkets.Base.{
  ℕ, zero, suc, ◌≡◌, refl, List, [], ◌∷◌, Option, none, some, unwrap_or, Text, length, arith,
}
use blindmarkets.Gateway.Crypto.{◌>>=◌}
use blindmarkets.Chain.{FeltReader, parse_felt, parse_felts}

unfoldable pub read_array : ℕ → List ℕ → Option (List ℕ)
read_array zero [] = some []
read_array (suc n) (felt ∷ felts) = do rest ← read_array n felts; some (felt ∷ rest)
read_array _ _ = none

pub read_array-parse_felts :
    (r : FeltReader) (values : List Text) (felts : List ℕ)
    → parse_felts r values ≡ some felts
    → read_array (length values) felts ≡ some felts
unfolding parse_felts read_array
read_array-parse_felts r [] felts h = let e : felts ≡ [] = ground arith in rw e refl
read_array-parse_felts r (value ∷ values) felts h =
    let later = unwrap_or (parse_felts r values) [] in
    let later_felts : parse_felts r values ≡ some later = ground arith in
    let all_felts : felts ≡ unwrap_or (parse_felt r value) 0 ∷ later = ground arith in
    let found = read_array-parse_felts r values later later_felts in rw (all_felts, found) refl
