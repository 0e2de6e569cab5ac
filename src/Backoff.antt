-- ===== src/Backoff.antt =====
-- backoff.go. Durations are int64 numbers of nanoseconds, so products and sums wrap.
pub mod Bounds
use gotasks.Task.{Duration}
use gotasks.Prelude.Int.{ltb_ℤ, pos_part, wrap64, pos, ◌*ℤ◌, ℤ, quot_ℤ, leb_ℤ, ◌+ℤ◌}
use gotasks.Prelude.{Option, none, zero, some, ◌-◌, max, suc, ℕ, if◌then◌else◌}

-- BackoffFunc: a strategy is its method Next, which a panic leaves without a result.
abbrev pub Backoff : Type 0
Backoff = ℤ → Option Duration

unfoldable pub fixed_backoff : Duration → Backoff
fixed_backoff d attempt = some d

-- if attempt < 1 { attempt = 1 }
unfoldable pub at_least_one : ℤ → ℤ
at_least_one attempt = if ltb_ℤ attempt (pos 1) then pos 1 else attempt

unfoldable pub linear_backoff : Duration → Backoff
linear_backoff base attempt = some (wrap64 (base *ℤ at_least_one attempt))

-- for i := 1; i < attempt; i++, with the rounds that are left.
unfoldable pub double_loop : ℕ → Duration → Duration → Duration
double_loop zero max d = d
double_loop (suc n) max d =
    let d' = wrap64 (d *ℤ pos 2) in
    let rest = double_loop n max d' in if leb_ℤ max d' then max else rest

-- The delay before the jitter.
unfoldable pub exponential_delay : Duration → Duration → ℤ → Duration
exponential_delay base max attempt =
    let d = double_loop (pos_part (at_least_one attempt) - 1) max base in
    if ltb_ℤ max d then max else d

-- rand.Int64N(n) panics unless 0 < n; `draw n` is the number that it returns.
unfoldable pub with_jitter : (ℤ → ℤ) → Duration → Option Duration
with_jitter draw d =
    let n = wrap64 (quot_ℤ d 4 +ℤ pos 1) in
    if leb_ℤ n (pos 0) then none else some (wrap64 (d +ℤ draw n))

unfoldable pub exponential_backoff : (ℤ → ℤ) → Duration → Duration → Backoff
exponential_backoff draw base max attempt = with_jitter draw (exponential_delay base max attempt)
