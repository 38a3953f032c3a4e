-- ===== src/Int64.antt =====
-- `str::parse::<i64>`: an optional sign and at least one ASCII digit, within the range of an `i64`.
pub mod Range
use Prim.Native.Char.{Char, code}
use Prim.Native.String.{[] as nil, ◌∷◌ as ◌∷ₛ◌}
use collecta.Prelude.{
  ℕ, zero, suc, ◌+◌, ◌-◌, ◌*◌, ◌^◌, String, Bool, ◌&&◌, Option, none, some, leb, ltb, ◌==◌, ◌>>=◌,
  if◌then◌else◌,
}
use collecta.F64.{ℤ, pos, negsuc}

-- The number that the digits continue.
parse_digits : String → ℕ → Option ℕ
parse_digits nil acc = some acc
parse_digits (c ∷ₛ s) acc =
    if leb b'0' (code c) && leb (code c) b'9'
    then parse_digits s (acc * 10 + (code c - b'0'))
    else none

parse_nat : String → Option ℕ
parse_nat nil = none
parse_nat (c ∷ₛ s) = parse_digits (c ∷ₛ s) 0

abbrev negate : ℕ → ℤ
negate zero = pos 0
negate (suc n) = negsuc n

parse_positive : String → Option ℤ
parse_positive s = do n ← parse_nat s; if ltb n (2 ^ 63) then some (pos n) else none

parse_negative : String → Option ℤ
parse_negative s = do n ← parse_nat s; if leb n (2 ^ 63) then some (negate n) else none

unfoldable pub parse_i64 : String → Option ℤ
unfolding parse_positive parse_negative parse_nat parse_digits
parse_i64 nil = none
parse_i64 (c ∷ₛ s) =
    if code c == b'-'
    then parse_negative s
    else if code c == b'+'
    then parse_positive s
    else parse_positive (c ∷ₛ s)
