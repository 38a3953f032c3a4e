-- ===== src/Int64/Range.antt =====
-- The integers that `parse::<i64>` gives.
use Prim.Native.Char.{code}
use Prim.Native.String.{[] as nil, ◌∷◌ as ◌∷ₛ◌}
use collecta.Prelude.{
  ℕ, zero, suc, ◌<◌, ◌^◌, String, true, none, some, ◌≡◌, leb, ltb, arith, Bool-cases, Option-cases,
  inl, inr, some_inj, ◌==◌,
}
use collecta.F64.{ℤ, pos, negsuc}
use collecta.Int64.{parse_i64, parse_positive, parse_negative, parse_nat, negate}

-- An integer of 64 bits.
abbrev pub IsI64 : ℤ → Type 0
IsI64 (pos n) = n < 2 ^ 63
IsI64 (negsuc n) = n < 2 ^ 63

negate-IsI64 : (n : ℕ) → leb n (2 ^ 63) ≡ true → IsI64 (negate n)
negate-IsI64 zero h = omega arith
negate-IsI64 (suc n) h = ground (arith, h)

parse_positive-IsI64 : (s : String) (n : ℤ) → parse_positive s ≡ some n → IsI64 n
unfolding parse_positive
parse_positive-IsI64 s n h = elim (Option-cases (parse_nat s)) [
  | inl e ↦ cc (rw e at h)
  | inr (m, e) ↦ elim (Bool-cases (ltb m (2 ^ 63))) [
    | inl q ↦
        let same : some (pos m) ≡ some n = rw (e, q) at h in
        rw (← some_inj same) (ground (arith, q))
    | inr q ↦ let same : none ≡ some n = rw (e, q) at h in cc
  ]
]

parse_negative-IsI64 : (s : String) (n : ℤ) → parse_negative s ≡ some n → IsI64 n
unfolding parse_negative
parse_negative-IsI64 s n h = elim (Option-cases (parse_nat s)) [
  | inl e ↦ cc (rw e at h)
  | inr (m, e) ↦ elim (Bool-cases (leb m (2 ^ 63))) [
    | inl q ↦
        let same : some (negate m) ≡ some n = rw (e, q) at h in
        rw (← some_inj same) (negate-IsI64 m q)
    | inr q ↦ let same : none ≡ some n = rw (e, q) at h in cc
  ]
]

pub parse_i64-IsI64 : (s : String) (n : ℤ) → parse_i64 s ≡ some n → IsI64 n
unfolding parse_i64
parse_i64-IsI64 nil n h = cc
parse_i64-IsI64 (c ∷ₛ s) n h = elim (Bool-cases (code c == b'-')) [
  | inl e ↦ parse_negative-IsI64 s n (rw e at h)
  | inr e ↦ elim (Bool-cases (code c == b'+')) [
    | inl q ↦ parse_positive-IsI64 s n (rw (e, q) at h)
    | inr q ↦ parse_positive-IsI64 (c ∷ₛ s) n (rw (e, q) at h)
  ]
]
