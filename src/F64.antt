-- ===== src/F64.antt =====
-- 64-bit floats as their IEEE 754 bit patterns, with the comparison and the conversion from `i64`
-- that the validation engine uses. Printing and parsing decimal text stay parameters.
mod Tests
use collecta.Prelude.{
  ℕ, zero, suc, ◌+◌, ◌-◌, ◌*◌, ◌/◌, ◌%◌, ◌^◌, String, Bool, true, false, ◌&&◌, ◌||◌, not, Option,
  ltb, leb, ◌==◌, if◌then◌else◌,
}

-- The bit pattern of an `f64`.
abbrev pub F64 : Type 0
F64 = ℕ

-- `i64`: `negsuc n` is -(n + 1).
pub data ℤ : Type 0 where
  pos : ℕ → ℤ
  negsuc : ℕ → ℤ

-- The standard library's `f64` printer and parser, which are not in the repository.
pub record FloatText : Type 0 where
  pub show : F64 → String
  pub parse : String → Option F64

unfoldable pub magnitude : F64 → ℕ
magnitude x = x % 2 ^ 63

unfoldable pub negative : F64 → Bool
negative x = leb (2 ^ 63) x

unfoldable pub is_nan : F64 → Bool
unfolding magnitude
is_nan x = ltb 0x7ff0_0000_0000_0000 (magnitude x)

-- `a < b` on magnitudes and signs, for numbers that are not NaN.
ordered_lt : Bool → Bool → ℕ → ℕ → Bool
ordered_lt true true m n = ltb n m
ordered_lt true false m n = ltb 0 m || ltb 0 n
ordered_lt false true m n = false
ordered_lt false false m n = ltb m n

-- `a < b`, which is false if either is NaN.
unfoldable pub lt : F64 → F64 → Bool
unfolding magnitude negative is_nan ordered_lt
lt a b =
    not (is_nan a)
    && not (is_nan b)
    && ordered_lt (negative a) (negative b) (magnitude a) (magnitude b)

bit_length_fuel : ℕ → ℕ → ℕ
bit_length_fuel zero n = 0
bit_length_fuel (suc f) n = let rest = bit_length_fuel f (n / 2) in if n == 0 then 0 else suc rest

-- The mantissa of `m`, which has `bits` bits, rounded to nearest with ties to even.
mantissa : ℕ → ℕ → ℕ
mantissa bits m =
    if leb bits 53
    then m * 2 ^ (53 - bits)
    else let shift = 2 ^ (bits - 53) in
      let q = m / shift in
      let twice = 2 * (m % shift) in
      if ltb shift twice || (twice == shift && q % 2 == 1) then q + 1 else q

positive_bits : ℕ → F64
positive_bits m =
    let bits = bit_length_fuel 64 m in
    if m == 0 then 0 else (bits + 1022) * 2 ^ 52 + mantissa bits m - 2 ^ 52

-- `n as f64`
unfoldable pub of_i64 : ℤ → F64
unfolding positive_bits mantissa bit_length_fuel
of_i64 (pos n) = positive_bits n
of_i64 (negsuc n) = 2 ^ 63 + positive_bits (suc n)

-- `a <= b`, which is false if either is NaN.
unfoldable pub le : F64 → F64 → Bool
unfolding is_nan lt
le a b = not (is_nan a) && not (is_nan b) && not (lt b a)

-- `a == b`
unfoldable pub eq : F64 → F64 → Bool
unfolding le
eq a b = le a b && le b a

-- Neither NaN nor an infinity
unfoldable pub is_finite : F64 → Bool
unfolding magnitude
is_finite x = ltb (magnitude x) 0x7ff0_0000_0000_0000
