-- ===== src/Base/Decimal.antt =====
-- `u64::to_string`, and reading it back.
use Prim.Native.Nat.{ℕ, zero, suc, ◌+◌, ◌*◌, ◌/◌, ◌%◌, ◌-◌, ◌<◌}
use mathlib.Core.Path.{◌≡◌, refl}
use mathlib.Core.Bool.{true, false, ◌&&◌}
use mathlib.Core.List.{[], ◌∷◌, ◌++◌}
use mathlib.Core.Option.{Option, none, some}
use native.Mathlib.Omega.{arith}
use blindmarkets.Base.Tests.{ltb, ◌==◌, if◌then◌else◌}
use blindmarkets.Base.Lists.{all, all-append, is_empty}
use blindmarkets.Base.Chars.{Text, is_ascii_digit}

-- The digits, given at least as much fuel as there are digits; the number itself is enough.
decimal : ℕ → ℕ → Text
decimal zero n = []
decimal (suc f) n =
    let rest = decimal f (n / 10) in
    if ltb n 10 then (b'0' + n) ∷ [] else rest ++ (b'0' + n % 10) ∷ []

unfoldable pub to_decimal : ℕ → Text
unfolding decimal
to_decimal n = decimal (suc n) n

hex_digit : ℕ → ℕ
hex_digit d = if ltb d 10 then b'0' + d else b'a' + (d - 10)

hexadecimal : ℕ → ℕ → Text
unfolding hex_digit
hexadecimal zero n = []
hexadecimal (suc f) n =
    let rest = hexadecimal f (n / 16) in
    if ltb n 16 then hex_digit n ∷ [] else rest ++ hex_digit (n % 16) ∷ []

-- `format!("{:#x}", n)`
unfoldable pub to_hex : ℕ → Text
unfolding hexadecimal
to_hex n = b'0' ∷ b'x' ∷ hexadecimal (suc n) n

abbrev read_digit : ℕ → ℕ → ℕ
read_digit acc c = acc * 10 + (c - b'0')

-- The number that a row of digits stands for.
unfoldable pub from_decimal : ℕ → Text → ℕ
from_decimal acc [] = acc
from_decimal acc (c ∷ s) = from_decimal (read_digit acc c) s

from_decimal-append :
    (acc : ℕ) (s t : Text) → from_decimal acc (s ++ t) ≡ from_decimal (from_decimal acc s) t
unfolding from_decimal
from_decimal-append acc [] t = refl
from_decimal-append acc (c ∷ s) t = from_decimal-append (read_digit acc c) s t

from_decimal-decimal : (f n : ℕ) → n < f → from_decimal 0 (decimal f n) ≡ n
unfolding decimal from_decimal
from_decimal-decimal zero n h = absurd (omega arith)
from_decimal-decimal (suc f) n h = ground (
  arith,
  from_decimal-decimal f (n / 10),
  from_decimal-append 0 (decimal f (n / 10)) ((b'0' + n % 10) ∷ []),
)

pub from_decimal-to_decimal : (n : ℕ) → from_decimal 0 (to_decimal n) ≡ n
unfolding to_decimal
from_decimal-to_decimal n = from_decimal-decimal (suc n) n (omega arith)

digit-IsDigit : (d : ℕ) → d < 10 → is_ascii_digit (b'0' + d) ≡ true
unfolding is_ascii_digit
digit-IsDigit d h = ground arith

decimal-all_digits : (f n : ℕ) → all is_ascii_digit (decimal f n) ≡ true
unfolding decimal all
decimal-all_digits zero n = refl
decimal-all_digits (suc f) n = ground (
  arith,
  decimal-all_digits f (n / 10),
  all-append is_ascii_digit (decimal f (n / 10)) ((b'0' + n % 10) ∷ []),
  digit-IsDigit n,
  digit-IsDigit (n % 10),
)

pub to_decimal-all_digits : (n : ℕ) → all is_ascii_digit (to_decimal n) ≡ true
unfolding to_decimal
to_decimal-all_digits n = decimal-all_digits (suc n) n

is_empty-append : (s : Text) (c : ℕ) → is_empty (s ++ c ∷ []) ≡ false
is_empty-append [] c = refl
is_empty-append (b ∷ s) c = refl

pub is_empty-to_decimal : (n : ℕ) → is_empty (to_decimal n) ≡ false
unfolding to_decimal
is_empty-to_decimal n = ground (arith, is_empty-append (decimal n (n / 10)) (b'0' + n % 10))

pub to_decimal-injective : (m n : ℕ) → to_decimal m ≡ to_decimal n → m ≡ n
to_decimal-injective m n e = ground (arith, from_decimal-to_decimal m, from_decimal-to_decimal n)

-- `text.parse::<u64>()`: digits after an optional plus sign, and no overflow. A text of digits
-- alone, or the sign alone, is told apart by the digits that are left.
abbrev parse_digits : ℕ → Text → Option ℕ
parse_digits limit [] = none
parse_digits limit (c ∷ s) =
    if all is_ascii_digit (c ∷ s) && ltb (from_decimal 0 (c ∷ s)) limit
    then some (from_decimal 0 (c ∷ s))
    else none

unfoldable pub parse_unsigned : ℕ → Text → Option ℕ
parse_unsigned limit [] = none
parse_unsigned limit (c ∷ s) =
    if c == b'+' then parse_digits limit s else parse_digits limit (c ∷ s)
