-- ===== src/Manager/Lifecycle/Running.antt =====
-- What a successful Start of manager.go establishes.
use gotasks.MemStore.Registry.{registered}
use gotasks.Task.{StoreError}
use gotasks.Store.{StoreApi}
use gotasks.Prelude.Text.{
  text_lt, text_eq, Text, text_lt_trans, text_lt_irrefl, contains, text_lt_connected,
}
use gotasks.Prelude.{
  length, if◌then◌else◌, sym, ◌==◌, inl, Bool-cases, [], ap, ◌∙◌, Pairwise, ◌∷◌, inr, List, false,
  some, All, All-map, ◌||◌, true, ◌≢◌, none, arith, Option, Bool, refl, ◌≡◌,
}
use gotasks.Manager.State.{Manager}
use gotasks.Manager.Lifecycle.{
  no_handlers, started_with, already_started, running_with, start, sort_texts, refused, StartResult,
  insert_text,
}
use gotasks.Manager.Enqueue.{ensure_registered}

contains-insert :
    (x z : Text) (ys : List Text) → contains (insert_text x ys) z ≡ (text_eq z x || contains ys z)
unfolding contains insert_text
contains-insert x z [] = refl
contains-insert x z (y ∷ ys) = ground (arith, contains-insert x z ys)

contains-sort : (xs : List Text) (z : Text) → contains (sort_texts xs) z ≡ contains xs z
unfolding sort_texts contains
contains-sort [] z = refl
contains-sort (x ∷ xs) z =
    contains-insert x z (sort_texts xs) ∙ ap (λ b. text_eq z x || b) (contains-sort xs z)

abbrev pub NotAfter : Text → Text → Type 0
NotAfter x y = text_lt y x ≡ false

NotAfter-trans : (x y z : Text) → NotAfter x y → NotAfter y z → NotAfter x z
NotAfter-trans x y z h k = elim (Bool-cases (text_lt z x)) [
  | inr n ↦ n
  | inl before_x ↦ elim (Bool-cases (text_lt x y)) [
    | inl x_y ↦ absurd (cc (text_lt_trans z x y before_x x_y))
    | inr n ↦ let e = text_lt_connected x y n h in absurd (cc (ap (λ w. text_lt z w) e))
  ]
]

All-insert :
    (P : Text → Type 0) (x : Text) (ys : List Text) → P x → All P ys → All P (insert_text x ys)
unfolding insert_text
All-insert P x [] p h = (p, tt)
All-insert P x (y ∷ ys) p h = elim (Bool-cases (text_lt y x)) [
  | inl less ↦ rw less (h.0, All-insert P x ys p h.1)
  | inr n ↦ rw n (p, h)
]

insert-Pairwise :
    (x : Text) (ys : List Text) → Pairwise NotAfter ys → Pairwise NotAfter (insert_text x ys)
unfolding insert_text
insert-Pairwise x [] h = (tt, tt)
insert-Pairwise x (y ∷ ys) h = elim (Bool-cases (text_lt y x)) [
  | inl less ↦ rw less (All-insert (NotAfter y) x ys (asym less) h.0, insert-Pairwise x ys h.1)
  | inr n ↦
      rw n ((n, All-map (NotAfter y) (NotAfter x) ys (λ z k. NotAfter-trans x y z n k) h.0), h)
]
  where
    asym : text_lt y x ≡ true → text_lt x y ≡ false
    asym less = elim (Bool-cases (text_lt x y)) [
      | inr m ↦ m
      | inl more ↦ absurd (cc (text_lt_trans y x y less more, text_lt_irrefl y))
    ]

sort-Pairwise : (xs : List Text) → Pairwise NotAfter (sort_texts xs)
unfolding sort_texts
sort-Pairwise [] = tt
sort-Pairwise (x ∷ xs) = insert-Pairwise x (sort_texts xs) (sort-Pairwise xs)

-- The manager that a successful Start leaves, over its handlers.
pub record IsRunning (handlers : List Text) (m : Manager) : Type 0 where
  pub is_started : m.started ≡ true
  pub is_registered : m.registered ≡ true
  pub knows : (x : Text) → contains m.types x ≡ contains handlers x
  pub sorted : Pairwise NotAfter m.types

abbrev pub Answered :
    (api : StoreApi) → Manager → List Text → Bool → Manager × api.State × StartResult → Type 0
Answered api m handlers watching (m', s', refused e) = m'.started ≡ m.started
Answered api m handlers watching (m', s', running_with g) =
    (m.started ≡ false)
    × (handlers ≢ [])
    × IsRunning handlers m'
    × (start api m' handlers watching s' ≡ (m', s', refused already_started))

module _ (api : StoreApi) where
  -- ensureRegistered succeeds only with its flag set, and leaves the other one alone.
  abbrev Flags : Manager × api.State × Option StoreError → Type 0
  Flags (m, s, some e) = Unit
  Flags (m, s, none) = (m.registered ≡ true) × (m.started ≡ true)

  ensure-Flags :
      (m : Manager) (s : api.State) → m.started ≡ true → Flags (ensure_registered api m s)
  unfolding ensure_registered
  ensure-Flags m s h = go m.registered (api.register_queues m.cfg.queues s).1 refl
    where
      after : api.State
      after = (api.register_queues m.cfg.queues s).0

      go :
          (b : Bool) (o : Option StoreError)
          → m.registered ≡ b
          → Flags (
              if b then (m, s, none) else elim o as (λ _. Manager × api.State × Option StoreError) [
                | none ↦ (record m { registered = true }, after, none)
                | some e ↦ (m, after, some e)
              ])
      go true o e = (e, h)
      go false none e = (refl, h)
      go false (some x) e = tt

  -- A second Start is refused.
  start-again :
      (m : Manager) (handlers : List Text) (watching : Bool) (s : api.State)
      → (length handlers == 0) ≡ false
      → m.started ≡ true
      → start api m handlers watching s ≡ (m, s, refused already_started)
  unfolding start
  start-again m handlers watching s some_handler h = rw (some_handler, h) refl

  started-Answered :
      (m : Manager) (handlers : List Text) (watching : Bool)
      (r : Manager × api.State × Option StoreError)
      → m.started ≡ false
      → (length handlers == 0) ≡ false
      → Flags r
      → Answered api m handlers watching (started_with handlers watching r)
  started-Answered m handlers watching (m', s', some e) off h f = sym off
  started-Answered m handlers watching (m', s', none) off h (registered, on) =
      let running = record m' { types = sort_texts handlers } in
      (
        off,
        λ e. absurd (ground (arith, ap length e)),
        record {
          is_started = on;
          is_registered = registered;
          knows = contains-sort handlers;
          sorted = sort-Pairwise handlers;
        },
        start-again running handlers watching s' h on,
      )

-- Start, over any backend: if it is refused, the manager is started or not as it was before. If it
-- succeeds, the manager had not been started, there is a handler, the manager is marked as started
-- and registered, its task types are those of its handlers in ascending order, and a second Start
-- with the same handlers is refused and changes nothing.
pub start-Answered :
    (api : StoreApi) (m : Manager) (handlers : List Text) (watching : Bool) (s : api.State)
    → Answered api m handlers watching (start api m handlers watching s)
unfolding start
start-Answered api m handlers watching s = go (length handlers == 0) m.started refl refl
  where
    registering : Manager × api.State × Option StoreError
    registering = ensure_registered api (record m { started = true }) s

    go :
        (lacking on : Bool)
        → (length handlers == 0) ≡ lacking
        → m.started ≡ on
        → Answered api m handlers watching (
            if lacking
            then (m, s, refused no_handlers)
            else if on
            then (m, s, refused already_started)
            else started_with handlers watching registering)
    go true on given h = refl
    go false true given h = refl
    go false false given h =
        started-Answered api m handlers watching registering h given
          (ensure-Flags api (record m { started = true }) s refl)
