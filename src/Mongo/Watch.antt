-- ===== src/Mongo/Watch.antt =====
-- watch.go: the goroutines behind WatchRunnable. An event of the change stream is an argument, and so
-- is the instant at which each goroutine's select takes a case.
pub mod Deadlines
pub mod Nudges
use gotasks.Task.{zero_time, Duration, Time}
use gotasks.Prelude.Int.{◌-ℤ◌, ltb_ℤ, ◌+ℤ◌, pos}
use gotasks.Prelude.{
  if◌then◌else◌, length, false, not, none, ◌*◌, [], ◌∷◌, Bool, ◌++◌, ltb, ℕ, some, List, true,
  Option,
}
use gotasks.Mongo.Registry.{millisecond}

-- What watchLoop sees of the stream; an event that does not decode, or a reconnect, is `unknown`.
pub data StreamEvent : Type 0 where
  insert_event : Time → StreamEvent
  update_event : Option Time → StreamEvent
  unknown : StreamEvent

-- The nudge that is pending in the channel of capacity one, the channel from watchLoop to timerLoop,
-- and timerLoop's heap, as the list of its times from the least on, and timer.
pub record Watch : Type 0 where
  pub pending : Bool
  pub future : List Time
  pub deadlines : List Time
  pub armed : Time

abbrev pub future_capacity : ℕ
future_capacity = 64

abbrev pub max_deadlines : ℕ
max_deadlines = 4096

abbrev pub idle : Duration
idle = pos (24 * 3600 * 1000 * millisecond)

-- streamEvent.runAt
unfoldable pub run_at_of : StreamEvent → Time
run_at_of (insert_event at) = at
run_at_of (update_event none) = zero_time
run_at_of (update_event (some at)) = at
run_at_of unknown = zero_time

unfoldable pub nudge : Watch → Watch
nudge w = record w { pending = true }

-- heap.Push, and the loop of heap.Pop over the times that are not after `now`.
unfoldable pub push : Time → List Time → List Time
push at [] = at ∷ []
push at (x ∷ xs) = let rest = push at xs in if ltb_ℤ x at then x ∷ rest else at ∷ x ∷ xs

unfoldable pub pop_due : Time → List Time → List Time
pop_due now [] = []
pop_due now (x ∷ xs) = let rest = pop_due now xs in if ltb_ℤ now x then x ∷ xs else rest

unfoldable pub fired : Time → List Time → Bool
fired now [] = false
fired now (x ∷ xs) = not (ltb_ℤ now x)

-- rearm, with time.Until without its saturation.
abbrev pub longer : Duration → Duration → Duration
longer a b = if ltb_ℤ a b then b else a

unfoldable pub next_alarm : Time → List Time → Time
next_alarm now [] = now +ℤ idle
next_alarm now (x ∷ xs) = now +ℤ longer (x -ℤ now) (pos millisecond)

unfoldable pub rearm : Time → Watch → Watch
rearm now w = record w { armed = next_alarm now w.deadlines }

-- watchLoop with an event.
unfoldable pub see : StreamEvent → Time → Watch → Watch
see ev now w =
    if ltb_ℤ now (run_at_of ev)
    then (if ltb (length w.future) future_capacity
        then record w { future = w.future ++ run_at_of ev ∷ [] }
        else w)
    else nudge w

-- timerLoop: a time from the channel, and the timer.
unfoldable pub accept : Time → Watch → Watch
accept now w = elim w.future [
  | [] ↦ w
  | at ∷ rest ↦
      if ltb (length w.deadlines) max_deadlines
      then rearm now (record w { future = rest; deadlines = push at w.deadlines })
      else record w { future = rest }
]

unfoldable pub ring : Time → Watch → Watch
ring now w =
    let popped = record w { deadlines = pop_due now w.deadlines } in
    rearm now (if fired now w.deadlines then nudge popped else popped)

-- The manager receives the pending nudge.
unfoldable pub receive : Watch → Watch
receive w = record w { pending = false }

-- The cases that the three goroutines take, one after the other.
pub data Turn : Type 0 where
  sees : StreamEvent → Turn
  accepts rings receives : Turn

unfoldable pub take_turn : Turn → Time → Watch → Watch
take_turn (sees ev) now w = see ev now w
take_turn accepts now w = accept now w
take_turn rings now w = ring now w
take_turn receives now w = receive w

unfoldable pub run : List (Turn × Time) → Watch → Watch
run [] w = w
run ((x, now) ∷ xs) w = run xs (take_turn x now w)

-- WatchRunnable: the first nudge is for the backlog.
unfoldable pub opened : Time → Watch
opened now = nudge (record { pending = false; future = []; deadlines = []; armed = now +ℤ idle })
