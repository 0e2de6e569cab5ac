-- ===== src/Mongo/Watch/Deadlines.antt =====
-- The deadlines of the timer loop of watch.go: bounded, on time, and none forgotten.
use gotasks.Task.{Time}
use gotasks.Prelude.Int.{+ℤ_parts, ◌+ℤ◌, ◌≤ℤ◌, ◌-ℤ◌, ltb_ℤ, pos, -ℤ_parts}
use gotasks.Prelude.{
  ltb, if◌then◌else◌, true, length-append, false, Bool, ◌++◌, inl, ◌≡◌, arith, List, All-map, refl,
  ◌⊎◌, Pairwise, inr, suc, ◌≤◌, ◌∷◌, Bool-cases, length, [], All,
}
use gotasks.Mongo.Watch.{
  ring, rearm, nudge, run_at_of, sees, Turn, StreamEvent, see, receives, longer, opened, accept,
  take_turn, receive, fired, accepts, rings, next_alarm, push, max_deadlines, pop_due,
  future_capacity,
}
use gotasks.Mongo.Registry.{millisecond}
use gotasks.Mongo.Watch.{Watch, run}

-- The timer is due by the deadline, or within a millisecond after `latest`.
abbrev pub InTime : Time → Time → Time → Type 0
InTime armed latest d = (armed ≤ℤ d) ⊎ (armed ≤ℤ (latest +ℤ pos millisecond))

-- The two buffers keep to their bounds, the deadlines are in order, and the timer is in time for all.
pub record IsTimely (latest : Time) (w : Watch) : Type 0 where
  pub buffered : length w.future ≤ future_capacity
  pub bounded : length w.deadlines ≤ max_deadlines
  pub ordered : Pairwise (λ c d. c ≤ℤ d) w.deadlines
  pub in_time : All (InTime w.armed latest) w.deadlines

push-All : (P : Time → Type 0) (at : Time) (xs : List Time) → P at → All P xs → All P (push at xs)
unfolding push
push-All P at [] p h = (p, tt)
push-All P at (x ∷ xs) p h = elim (Bool-cases (ltb_ℤ x at)) [
  | inl above ↦ rw above (h.0, push-All P at xs p h.1)
  | inr below ↦ rw below (p, h)
]

length-push : (at : Time) (xs : List Time) → length (push at xs) ≡ suc (length xs)
unfolding push
length-push at [] = refl
length-push at (x ∷ xs) = ground (arith, length-push at xs)

push-ordered :
    (at : Time) (xs : List Time)
    → Pairwise (λ c d. c ≤ℤ d) xs
    → Pairwise (λ c d. c ≤ℤ d) (push at xs)
unfolding push
push-ordered at [] h = (tt, tt)
push-ordered at (x ∷ xs) h = elim (Bool-cases (ltb_ℤ x at)) [
  | inl above ↦ rw above (push-All (λ d. x ≤ℤ d) at xs (ground arith) h.0, push-ordered at xs h.1)
  | inr below ↦
      let first : at ≤ℤ x = ground arith in
      rw below ((first, All-map (λ d. x ≤ℤ d) (λ d. at ≤ℤ d) xs (λ d k. omega arith) h.0), h)
]

length-pop_due : (now : Time) (xs : List Time) → length (pop_due now xs) ≤ length xs
unfolding pop_due
length-pop_due now [] = omega arith
length-pop_due now (x ∷ xs) = ground (arith, length-pop_due now xs)

pop_due-ordered :
    (now : Time) (xs : List Time)
    → Pairwise (λ c d. c ≤ℤ d) xs
    → Pairwise (λ c d. c ≤ℤ d) (pop_due now xs)
unfolding pop_due
pop_due-ordered now [] h = tt
pop_due-ordered now (x ∷ xs) h = elim (Bool-cases (ltb_ℤ now x)) [
  | inl later ↦ rw later h
  | inr due ↦ rw due (pop_due-ordered now xs h.1)
]

alarm-InTime :
    (now latest x : Time)
    → now ≤ℤ latest
    → InTime (now +ℤ longer (x -ℤ now) (pos millisecond)) latest x
alarm-InTime now latest x k = elim (Bool-cases (ltb_ℤ (x -ℤ now) (pos millisecond))) [
  | inl soon ↦
      rw soon
        (inr (omega (arith, +ℤ_parts now (pos millisecond), +ℤ_parts latest (pos millisecond))))
  | inr far ↦ rw far (inl (omega (arith, +ℤ_parts now (x -ℤ now), -ℤ_parts x now)))
]

InTime-later : (armed latest x d : Time) → x ≤ℤ d → InTime armed latest x → InTime armed latest d
InTime-later armed latest x d k (inl h) = inl (omega arith)
InTime-later armed latest x d k (inr h) = inr h

-- The head of an ordered list decides for all.
next_alarm-InTime :
    (now latest : Time) (xs : List Time)
    → now ≤ℤ latest
    → Pairwise (λ c d. c ≤ℤ d) xs
    → All (InTime (next_alarm now xs) latest) xs
unfolding next_alarm
next_alarm-InTime now latest [] k h = tt
next_alarm-InTime now latest (x ∷ xs) k h = (
  alarm-InTime now latest x k,
  All-map (λ d. x ≤ℤ d) (InTime (now +ℤ longer (x -ℤ now) (pos millisecond)) latest) xs
      (λ d above. InTime-later _ latest x d above (alarm-InTime now latest x k)) h.0,
)

rearm-IsTimely :
    (now latest : Time) (w : Watch)
    → now ≤ℤ latest
    → length w.future ≤ future_capacity
    → length w.deadlines ≤ max_deadlines
    → Pairwise (λ c d. c ≤ℤ d) w.deadlines
    → IsTimely latest (rearm now w)
unfolding rearm
rearm-IsTimely now latest w k b m o = record {
  buffered = b;
  bounded = m;
  ordered = o;
  in_time = next_alarm-InTime now latest w.deadlines k o;
}

IsTimely-nudge : (latest : Time) (w : Watch) → IsTimely latest w → IsTimely latest (nudge w)
unfolding nudge
IsTimely-nudge latest w h = record {
  buffered = h.buffered;
  bounded = h.bounded;
  ordered = h.ordered;
  in_time = h.in_time;
}

IsTimely-future :
    (latest : Time) (w : Watch) (xs : List Time)
    → IsTimely latest w
    → length xs ≤ future_capacity
    → IsTimely latest (record w { future = xs })
IsTimely-future latest w xs h k = record {
  buffered = k;
  bounded = h.bounded;
  ordered = h.ordered;
  in_time = h.in_time;
}

see-IsTimely :
    (ev : StreamEvent) (now latest : Time) (w : Watch)
    → IsTimely latest w
    → IsTimely latest (see ev now w)
unfolding see
see-IsTimely ev now latest w h = elim (Bool-cases (ltb_ℤ now (run_at_of ev))) [
  | inr due ↦ rw due (IsTimely-nudge latest w h)
  | inl later ↦ rw later (elim (Bool-cases (ltb (length w.future) future_capacity)) [
    | inl room ↦ rw room (
        IsTimely-future latest w (w.future ++ run_at_of ev ∷ []) h
          (ground (arith, length-append w.future (run_at_of ev ∷ []))))
    | inr full ↦ rw full h
  ])
]

accept-IsTimely :
    (now latest : Time) (w : Watch)
    → now ≤ℤ latest
    → IsTimely latest w
    → IsTimely latest (accept now w)
unfolding accept
accept-IsTimely now latest w k h = go w.future h.buffered
  where
    go :
        (fs : List Time)
        → length fs ≤ future_capacity
        → IsTimely latest (elim fs [
          | [] ↦ w
          | at ∷ rest ↦
              if ltb (length w.deadlines) max_deadlines
              then rearm now (record w { future = rest; deadlines = push at w.deadlines })
              else record w { future = rest }
        ])
    go [] b = h
    go (at ∷ rest) b = elim (Bool-cases (ltb (length w.deadlines) max_deadlines)) [
      | inl room ↦ rw room (
          rearm-IsTimely now latest (record w { future = rest; deadlines = push at w.deadlines }) k
            (omega arith) (ground (arith, length-push at w.deadlines))
            (push-ordered at w.deadlines h.ordered))
      | inr full ↦ rw full (IsTimely-future latest w rest h (omega arith))
    ]

ring-IsTimely :
    (now latest : Time) (w : Watch)
    → now ≤ℤ latest
    → IsTimely latest w
    → IsTimely latest (ring now w)
unfolding ring nudge
ring-IsTimely now latest w k h = go (fired now w.deadlines)
  where
    go :
        (f : Bool)
        → IsTimely latest (
            rearm now (
              if f
              then nudge (record w { deadlines = pop_due now w.deadlines })
              else record w { deadlines = pop_due now w.deadlines }))
    go true =
        rearm-IsTimely now latest _ k h.buffered
          (omega (arith, h.bounded, length-pop_due now w.deadlines))
          (pop_due-ordered now w.deadlines h.ordered)
    go false =
        rearm-IsTimely now latest _ k h.buffered
          (omega (arith, h.bounded, length-pop_due now w.deadlines))
          (pop_due-ordered now w.deadlines h.ordered)

pub take_turn-IsTimely :
    (x : Turn) (now latest : Time) (w : Watch)
    → now ≤ℤ latest
    → IsTimely latest w
    → IsTimely latest (take_turn x now w)
unfolding take_turn receive
take_turn-IsTimely (sees ev) now latest w k h = see-IsTimely ev now latest w h
take_turn-IsTimely accepts now latest w k h = accept-IsTimely now latest w k h
take_turn-IsTimely rings now latest w k h = ring-IsTimely now latest w k h
take_turn-IsTimely receives now latest w k h = record {
  buffered = h.buffered;
  bounded = h.bounded;
  ordered = h.ordered;
  in_time = h.in_time;
}

-- In every run of the watch from its start, with turns up to `latest`, the channel holds at most 64
-- times and the heap at most 4096, in order, and the timer is armed, for each of them, at that
-- deadline or earlier, or within a millisecond of `latest`.
pub run-IsTimely :
    (xs : List (Turn × Time)) (began latest : Time)
    → All (λ x. x.1 ≤ℤ latest) xs
    → IsTimely latest (run xs (opened began))
unfolding opened nudge run
run-IsTimely xs began latest h = all xs (opened began) h start
  where
    all :
        (xs : List (Turn × Time)) (w : Watch)
        → All (λ x. x.1 ≤ℤ latest) xs
        → IsTimely latest w
        → IsTimely latest (run xs w)
    all [] w h t = t
    all ((x, now) ∷ xs) w h t =
        all xs (take_turn x now w) h.1 (take_turn-IsTimely x now latest w h.0 t)

    start : IsTimely latest (opened began)
    start = record { buffered = omega arith; bounded = omega arith; ordered = tt; in_time = tt }
