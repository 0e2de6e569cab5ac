-- ===== src/Backoff/Bounds.antt =====
-- The exponential strategy doubles up to its cap, adds at most a quarter, and does not overflow for
-- bases and caps of up to 2 ^ 62 nanoseconds (146 years).
use gotasks.Task.{Duration}
use gotasks.Prelude.Int.{two63, pos_part, ℤ, ◌+ℤ◌, quot_ℤ, pos, wrap64, ltb_ℤ, ◌*ℤ◌, wrap64-pos}
use gotasks.Prelude.{
  false, ◌/◌, some, ◌-◌, ◌+◌, leb, inr, ◌∙◌, inl, ap, Bool-cases, suc, zero, max, arith, ◌≡◌, ◌^◌,
  ◌*◌, ◌≤◌, ℕ, if◌then◌else◌, ◌<◌,
}
use gotasks.Backoff.{
  exponential_backoff, linear_backoff, exponential_delay, at_least_one, with_jitter, double_loop,
}
use Prim.Native.Nat.{min}
use native.Mathlib.Nat.{pow-suc, mul-one, one-le-pow}

abbrev two62 : ℕ
two62 = 2 ^ 62

wrap64-double : (d : ℕ) → d < two62 → wrap64 (pos d *ℤ pos 2) ≡ pos (2 * d)
wrap64-double d h = rw (product d) (wrap64-pos (2 * d) (omega arith))
  where
    product : (n : ℕ) → pos n *ℤ pos 2 ≡ pos (2 * n)
    product n = unfold ◌*ℤ◌ in ground arith

one-le-two_pow : (n : ℕ) → 1 ≤ 2 ^ n
one-le-two_pow n = one-le-pow n 2 (omega arith)

-- The cap after the loop.
abbrev cap : Duration → Duration → Duration
cap max d = if ltb_ℤ max d then max else d

cap-min : (m d : ℕ) → cap (pos m) (pos d) ≡ pos (min d m)
cap-min m d = ground arith

two_pow_step : (d n : ℕ) → d * 2 ^ suc n ≡ 2 * d * 2 ^ n
two_pow_step d n = rw (pow-suc 2 n) (grind arith)

capped : (n m d : ℕ) → m ≤ 2 * d → min m m ≡ min (2 * d * 2 ^ n) m
capped n m d h = let big : 2 * d ≤ 2 * d * 2 ^ n = grind (arith, one-le-two_pow n) in omega arith

double_loop-min :
    (n m d : ℕ)
    → m ≤ two62
    → d < two62
    → cap (pos m) (double_loop n (pos m) (pos d)) ≡ pos (min (d * 2 ^ n) m)
unfolding double_loop
double_loop-min zero m d hm hd = rw (mul-one d) (cap-min m d)
double_loop-min (suc n) m d hm hd =
    rw (wrap64-double d hd, two_pow_step d n)
      (elim (Bool-cases (leb (m + 0) (2 * d + 0))) [
        | inl reached ↦ rw reached (cap-min m m ∙ ap pos (capped n m d (ground arith)))
        | inr below ↦ rw below (double_loop-min n m (2 * d) hm (ground arith))
      ])

-- The delay before the jitter at the attempt n + 1: base * 2 ^ n, capped at max.
pub exponential_delay-eq :
    (b m n : ℕ)
    → b < two62
    → m ≤ two62
    → exponential_delay (pos b) (pos m) (pos (suc n)) ≡ pos (min (b * 2 ^ n) m)
unfolding exponential_delay at_least_one
exponential_delay-eq b m n hb hm =
    let one : at_least_one (pos (suc n)) ≡ pos (suc n) = ground arith in
    let rounds : pos_part (at_least_one (pos (suc n))) - 1 ≡ n = rw one (omega arith) in
    rw rounds (double_loop-min n m b hm hb)

-- rand.Int64N(n) returns a number from 0 to n - 1.
pub record IsDraw (draw : ℤ → ℤ) : Type 0 where
  pub in_range : (n : ℕ) → 0 < n → (r : ℕ) × (draw (pos n) ≡ pos r) × (r < n)

jitter_span : (d : ℕ) → d ≤ two62 → wrap64 (quot_ℤ (pos d) 4 +ℤ pos 1) ≡ pos (d / 4 + 1)
unfolding wrap64 quot_ℤ ◌+ℤ◌
jitter_span d h = ground arith

jitter_sum : (d r : ℕ) → d ≤ two62 → r < d / 4 + 1 → wrap64 (pos d +ℤ pos r) ≡ pos (d + r)
unfolding wrap64 ◌+ℤ◌
jitter_sum d r h k = ground arith

with_jitter-bounds :
    (draw : ℤ → ℤ) (d : ℕ)
    → IsDraw draw
    → d ≤ two62
    → (w : ℕ) × (with_jitter draw (pos d) ≡ some (pos w)) × (d ≤ w) × (w ≤ d + d / 4)
unfolding with_jitter
with_jitter-bounds draw d h small =
    let (r, e, le) = h.in_range (d / 4 + 1) (omega arith) in
    let positive : leb (d / 4 + 1 + 0) (0 + 0) ≡ false = ground arith in
    (
      d + r,
      rw (jitter_span d small, positive, e) (ap some (jitter_sum d r small le)),
      omega arith,
      omega arith,
    )

-- With a random source that draws below its bound, a base below 2 ^ 62 ns and a cap of at most 2 ^ 62 ns the exponential strategy never panics
-- and never overflows: after n + 1 attempts it waits for base * 2 ^ n, capped at the maximum, and
-- at most a quarter of that longer.
pub exponential_backoff-bounds :
    (draw : ℤ → ℤ) (b m n : ℕ)
    → IsDraw draw
    → b < two62
    → m ≤ two62
    → (w : ℕ) × (exponential_backoff draw (pos b) (pos m) (pos (suc n)) ≡ some (pos w))
      × (min (b * 2 ^ n) m ≤ w)
      × (w ≤ min (b * 2 ^ n) m + min (b * 2 ^ n) m / 4)
unfolding exponential_backoff
exponential_backoff-bounds draw b m n h hb hm =
    let (w, e, lo, hi) = with_jitter-bounds draw (min (b * 2 ^ n) m) h (omega arith) in
    (w, rw (exponential_delay-eq b m n hb hm) e, lo, hi)

-- The linear strategy waits for base * attempt while that product fits in 63 bits.
pub linear_backoff-eq :
    (b n : ℕ) → b * suc n < two63 → linear_backoff (pos b) (pos (suc n)) ≡ some (pos (b * suc n))
unfolding linear_backoff at_least_one
linear_backoff-eq b n h = rw product (ap some (wrap64-pos (b * suc n) h))
  where
    product : pos b *ℤ at_least_one (pos (suc n)) ≡ pos (b * suc n)
    product = unfold ◌*ℤ◌ in ground arith
