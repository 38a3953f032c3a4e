-- ===== src/F64/Tests.antt =====
-- Runs of the float operations at values whose bit patterns are known.
use collecta.Prelude.{◌≡◌, refl, true, false}
use collecta.F64.{pos, negsuc, lt, of_i64}

forty : of_i64 (pos 40) ≡ 0x4044_0000_0000_0000
unfolding of_i64
forty = refl

minus_five : of_i64 (negsuc 4) ≡ 0xc014_0000_0000_0000
unfolding of_i64
minus_five = refl

-- 2^53 + 1 is no float: it rounds to the even neighbour.
tie_to_even : of_i64 (pos 9007199254740993) ≡ of_i64 (pos 9007199254740992)
unfolding of_i64
tie_to_even = refl

orders : lt (of_i64 (negsuc 4)) (of_i64 (pos 0)) ≡ true
unfolding of_i64 lt
orders = refl

-- Minus zero is not below zero.
zeros : lt 0x8000_0000_0000_0000 0 ≡ false
unfolding lt
zeros = refl
