-- ===== src/Queue/Backoff.antt =====
-- The backoff in crates/collecta-core/src/sync_queue.rs: its value, its bounds, and the retry counts
-- at which the `u64` arithmetic wraps.

use native.Mathlib.Nat.{pow-succ', pow-le-pow_right, add-suc}
use collecta.Prelude.{ℕ, zero, suc, ◌+◌, ◌*◌, ◌%◌, ◌^◌, ◌≤◌, ◌<◌, ◌≡◌, refl, ap, min, arith}
use collecta.Queue.{backoff_seconds}

-- Up to 2^61 neither machine operation wraps.
no_wrap : (p : ℕ) → p ≤ 2 ^ 61 → (5 * (p % 2 ^ 64)) % 2 ^ 64 ≡ 5 * p
no_wrap p h = omega (arith, h)

-- For every retry count below 62 the backoff is five seconds doubled that many times, and at most
-- five minutes.
pub backoff_seconds_lem : (n : ℕ) → n < 62 → backoff_seconds n ≡ min (5 * 2 ^ n) 300
unfolding backoff_seconds
backoff_seconds_lem n h =
    let small : 2 ^ n ≤ 2 ^ 61 =
      pow-le-pow_right {n = 2} (omega arith) {i = n} {j = 61} (omega arith) in
    ap (λ secs. min secs 300) (no_wrap (2 ^ n) small)

two_pow-pos : (n : ℕ) → 1 ≤ 2 ^ n
two_pow-pos n = pow-le-pow_right {n = 2} (omega arith) {i = 0} {j = n} (omega arith)

-- For every retry count below 62 the wait is at least five seconds and at most five minutes, and
-- one more failure never shortens it.
pub backoff_bounds :
    (n m : ℕ)
    → n ≤ m
    → m < 62
    → (5 ≤ backoff_seconds n) × (backoff_seconds n ≤ backoff_seconds m) × (backoff_seconds m ≤ 300)
backoff_bounds n m le lt = omega (
  arith,
  backoff_seconds_lem n (omega arith),
  backoff_seconds_lem m lt,
  two_pow-pos n,
  pow-le-pow_right {n = 2} (omega arith) le,
)

pow-wraps : (k : ℕ) → 2 ^ (64 + k) % 2 ^ 64 ≡ 0
pow-wraps zero = refl
pow-wraps (suc k) =
    omega (arith, pow-succ' 2 (64 + k), ap (λ (t : ℕ). 2 ^ t) (add-suc 64 k), pow-wraps k)

-- For every retry count from 64 on the power wraps to zero, and the wait with it.
pub backoff_wraps : (k : ℕ) → backoff_seconds (64 + k) ≡ 0
unfolding backoff_seconds
backoff_wraps k = rw (pow-wraps k)
