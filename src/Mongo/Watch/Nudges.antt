-- ===== src/Mongo/Watch/Nudges.antt =====
-- No deadline of the timer loop of watch.go is forgotten behind an earlier one.
use mathlib.Core.Path.{subst}
use gotasks.Task.{Time}
use gotasks.Prelude.Int.{ltb_ℤ, ◌<ℤ◌, ◌≤ℤ◌}
use gotasks.Prelude.{
  Pairwise, ltb, ◌≡◌, ◌⊎◌, Bool, List, arith, All-Memᴰ, Bool-cases, refl, if◌then◌else◌, length, [],
  inr, inl, not, false, All, ◌∷◌, true,
}
use gotasks.Mongo.Watch.Deadlines.{take_turn-IsTimely, IsTimely}
use gotasks.Mongo.Watch.{
  nudge, rearm, see, receives, fired, accepts, StreamEvent, sees, pop_due, rings, ring, receive,
  max_deadlines, push, run_at_of, future_capacity, take_turn, Turn, accept, Watch,
}
use mathlib.Core.List.{Memᴰ}

abbrev pub Holds : Time → Watch → Type 0
Holds d w = Memᴰ d w.deadlines

-- The timer rings at or after `d`.
abbrev pub RungBy : Time → List (Turn × Time) → Type 0
RungBy d [] = ⊥
RungBy d ((rings, now) ∷ xs) = (d ≤ℤ now) ⊎ RungBy d xs
RungBy d ((x, now) ∷ xs) = RungBy d xs

-- At one of these rings there is a nudge.
abbrev pub Nudged : Time → List (Turn × Time) → Watch → Type 0
Nudged d [] w = ⊥
Nudged d ((rings, now) ∷ xs) w =
    ((d ≤ℤ now) × ((ring now w).pending ≡ true)) ⊎ Nudged d xs (ring now w)
Nudged d ((x, now) ∷ xs) w = Nudged d xs (take_turn x now w)

push-Mem : (d at : Time) (xs : List Time) → Memᴰ d xs → Memᴰ d (push at xs)
unfolding push
push-Mem d at [] m = elim m [ ]
push-Mem d at (x ∷ xs) (Memᴰ.head e) = elim (Bool-cases (ltb_ℤ x at)) [
  | inl above ↦ rw above (Memᴰ.head e)
  | inr below ↦ rw below (Memᴰ.tail (Memᴰ.head e))
]
push-Mem d at (x ∷ xs) (Memᴰ.tail m) = elim (Bool-cases (ltb_ℤ x at)) [
  | inl above ↦ rw above (Memᴰ.tail (push-Mem d at xs m))
  | inr below ↦ rw below (Memᴰ.tail (Memᴰ.tail m))
]

pop_due-Mem : (d now : Time) (xs : List Time) → Memᴰ d xs → now <ℤ d → Memᴰ d (pop_due now xs)
unfolding pop_due
pop_due-Mem d now [] m k = elim m [ ]
pop_due-Mem d now (x ∷ xs) (Memᴰ.head e) k =
    let later : ltb_ℤ now x ≡ true = subst (λ y. ltb_ℤ now y ≡ true) e (ground arith) in
    rw later (Memᴰ.head e)
pop_due-Mem d now (x ∷ xs) (Memᴰ.tail m) k = elim (Bool-cases (ltb_ℤ now x)) [
  | inl later ↦ rw later (Memᴰ.tail m)
  | inr due ↦ rw due (pop_due-Mem d now xs m k)
]

fired-Mem :
    (d now : Time) (xs : List Time)
    → Pairwise (λ c d. c ≤ℤ d) xs
    → Memᴰ d xs
    → d ≤ℤ now
    → fired now xs ≡ true
unfolding fired
fired-Mem d now [] o m k = elim m [ ]
fired-Mem d now (x ∷ xs) o (Memᴰ.head e) k = subst (λ y. not (ltb_ℤ now y) ≡ true) e (ground arith)
fired-Mem d now (x ∷ xs) o (Memᴰ.tail m) k =
    let above : x ≤ℤ d = All-Memᴰ (λ y. x ≤ℤ y) xs d o.0 m in ground arith

ring-pending : (now : Time) (w : Watch) → fired now w.deadlines ≡ true → (ring now w).pending ≡ true
unfolding ring rearm nudge
ring-pending now w h = rw h refl

ring-Holds : (d now : Time) (w : Watch) → Holds d w → now <ℤ d → Holds d (ring now w)
unfolding ring rearm nudge
ring-Holds d now w h k = go (fired now w.deadlines)
  where
    go :
        (f : Bool)
        → Holds d (
            rearm now (
              if f
              then nudge (record w { deadlines = pop_due now w.deadlines })
              else record w { deadlines = pop_due now w.deadlines }))
    go true = pop_due-Mem d now w.deadlines h k
    go false = pop_due-Mem d now w.deadlines h k

see-Holds :
    (d : Time) (ev : StreamEvent) (now : Time) (w : Watch) → Holds d w → Holds d (see ev now w)
unfolding see nudge
see-Holds d ev now w h = elim (Bool-cases (ltb_ℤ now (run_at_of ev))) [
  | inr due ↦ rw due h
  | inl later ↦ rw later (elim (Bool-cases (ltb (length w.future) future_capacity)) [
    | inl room ↦ rw room h
    | inr full ↦ rw full h
  ])
]

accept-Holds : (d now : Time) (w : Watch) → Holds d w → Holds d (accept now w)
unfolding accept rearm
accept-Holds d now w h = go w.future
  where
    go :
        (fs : List Time)
        → Holds d (elim fs [
          | [] ↦ w
          | at ∷ rest ↦
              if ltb (length w.deadlines) max_deadlines
              then rearm now (record w { future = rest; deadlines = push at w.deadlines })
              else record w { future = rest }
        ])
    go [] = h
    go (at ∷ rest) = elim (Bool-cases (ltb (length w.deadlines) max_deadlines)) [
      | inl room ↦ rw room (push-Mem d at w.deadlines h)
      | inr full ↦ rw full h
    ]

-- A deadline that the heap of the timer loop holds, behind earlier ones or not, is nudged if the timer
-- ever rings at or after it, whatever the goroutines do until then.
pub run-Nudged :
    (d latest : Time) (xs : List (Turn × Time)) (w : Watch)
    → All (λ x. x.1 ≤ℤ latest) xs
    → IsTimely latest w
    → Holds d w
    → RungBy d xs
    → Nudged d xs w
unfolding take_turn receive
run-Nudged d latest [] w a t h r = r
run-Nudged d latest ((sees ev, now) ∷ xs) w a t h r =
    run-Nudged d latest xs (see ev now w) a.1 (take_turn-IsTimely (sees ev) now latest w a.0 t)
      (see-Holds d ev now w h) r
run-Nudged d latest ((accepts, now) ∷ xs) w a t h r =
    run-Nudged d latest xs (accept now w) a.1 (take_turn-IsTimely accepts now latest w a.0 t)
      (accept-Holds d now w h) r
run-Nudged d latest ((receives, now) ∷ xs) w a t h r =
    run-Nudged d latest xs (receive w) a.1 (take_turn-IsTimely receives now latest w a.0 t) h r
run-Nudged d latest ((rings, now) ∷ xs) w a t h (inl due) =
    inl (due, ring-pending now w (fired-Mem d now w.deadlines t.ordered h due))
run-Nudged d latest ((rings, now) ∷ xs) w a t h (inr r) = elim (Bool-cases (ltb_ℤ now d)) [
  | inl early ↦ inr (
      run-Nudged d latest xs (ring now w) a.1 (take_turn-IsTimely rings now latest w a.0 t)
        (ring-Holds d now w h (ground arith)) r)
  | inr due ↦
      inl
        (ground arith, ring-pending now w (fired-Mem d now w.deadlines t.ordered h (ground arith)))
]
