-- ===== src/Manager/Waking.antt =====
-- The broadcaster of manager.go, by which single mode wakes all its idle workers: the channels that it
-- made so far, by number, and those that it closed. And the answers of Stop, Run and Close.
use gotasks.Prelude.{
  ℕ, zero, suc, ◌<◌, ◌≡◌, refl, arith, Bool, true, false, List, [], ◌∷◌, All, All-map, ◌==◌, ◌||◌,
  Option, none, some, if◌then◌else◌,
}
use gotasks.Task.{StoreError}

pub record Broadcaster : Type 0 where
  pub ch : ℕ
  pub made : ℕ
  pub closed : List ℕ

unfoldable pub new_broadcaster : Broadcaster
new_broadcaster = record { ch = 0; made = 1; closed = [] }

abbrev pub wait : Broadcaster → ℕ
wait b = b.ch

unfoldable pub signal : Broadcaster → Broadcaster
signal b = record { ch = b.made; made = suc b.made; closed = b.ch ∷ b.closed }

-- A receive on a channel goes on once it is closed.
abbrev pub is_closed : ℕ → List ℕ → Bool
is_closed x [] = false
is_closed x (y ∷ ys) = (x == y) || is_closed x ys

unfoldable pub signal_times : ℕ → Broadcaster → Broadcaster
signal_times zero b = b
signal_times (suc n) b = signal_times n (signal b)

-- The channel for the next waiter is open, and of its own.
pub record IsOpen (b : Broadcaster) : Type 0 where
  pub own : All (λ x. x < b.ch) b.closed
  pub next : b.ch < b.made

signal-IsOpen : (b : Broadcaster) → IsOpen b → IsOpen (signal b)
unfolding signal
signal-IsOpen b h = record {
  own = (
    h.next,
    All-map (λ x. x < b.ch) (λ x. x < b.made) b.closed (λ x k. omega (arith, k, h.next)) h.own,
  );
  next = omega arith;
}

open_until : (x : ℕ) (ys : List ℕ) → All (λ y. y < x) ys → is_closed x ys ≡ false
open_until x [] h = refl
open_until x (y ∷ ys) h =
    let miss : (x == y) ≡ false = ground (arith, h.0) in rw (miss, open_until x ys h.1) refl

signal_times-IsOpen : (n : ℕ) (b : Broadcaster) → IsOpen b → IsOpen (signal_times n b)
unfolding signal_times
signal_times-IsOpen zero b h = h
signal_times-IsOpen (suc n) b h = signal_times-IsOpen n (signal b) (signal-IsOpen b h)

still_closed :
    (n x : ℕ) (b : Broadcaster)
    → is_closed x b.closed ≡ true
    → is_closed x (signal_times n b).closed ≡ true
unfolding signal_times
still_closed zero x b h = h
still_closed (suc n) x b h = still_closed n x (signal b) (unfold signal in ground (arith, h))

-- A worker that waits after any number of signals is not woken by them, but is by the next one, whatever
-- follows.
wait-signal_times :
    (n k : ℕ)
    → let b = signal_times n new_broadcaster in
      (is_closed (wait b) b.closed ≡ false)
      × (is_closed (wait b) (signal_times (suc k) b).closed ≡ true)
wait-signal_times n k =
    let b = signal_times n new_broadcaster in
    let start : IsOpen new_broadcaster =
      unfold new_broadcaster in record { own = tt; next = omega arith } in
    let h : IsOpen b = signal_times-IsOpen n new_broadcaster start in
    (
      open_until b.ch b.closed h.own,
      unfold signal_times in still_closed k b.ch (signal b) (unfold signal in ground arith),
    )

-- ctx.Err of the context that Stop is given, or the error of the store's Close.
pub data StopError : Type 0 where
  cut_short : StopError
  not_closed : StoreError → StopError

-- Stop, once the goroutines have returned: in time, or after the handlers were cancelled.
unfoldable pub stop : (started in_time : Bool) → Option StopError
stop started in_time = if started then (if in_time then none else some cut_short) else none

abbrev pub closing : Option StopError → Option StoreError → Option StopError
closing stop_error none = stop_error
closing stop_error (some e) = some (not_closed e)

-- Close, with the answer of the store's.
unfoldable pub close : (started in_time : Bool) → Option StoreError → Option StopError
close started in_time store_error = closing (stop started in_time) store_error
