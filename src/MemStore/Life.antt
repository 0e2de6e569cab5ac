-- ===== src/MemStore/Life.antt =====
-- The tasks of memstore as states of the machine of Life.
pub mod Calls
use gotasks.Task.{Task}
use gotasks.Prelude.Text.{text_eq-eq, Text, text_eq}
use gotasks.Prelude.{
  ap, inl, refl, map, Bool-cases, some, sym, ◌∙◌, arith, ◌≡◌, inr, List, none, Option,
}
use gotasks.MemStore.TaskMap.{find-put, find-map}
use gotasks.MemStore.State.{find_task, put_task}
use gotasks.Life.{Core, Reaches, here, Reaches-trans}
use mathlib.Core.Path.{subst}
use mathlib.Core.Option
use Prim.Native.Nat.{suc}

abbrev pub core_of : Task → Core
core_of t = record {
  status = t.status;
  attempts = t.attempts;
  max_attempts = t.max_attempts;
  token = t.lease_token;
  key = t.unique_key;
}

-- Every task is still there, and has gone through steps of the machine.
abbrev pub Evolved : List Task → List Task → Type 0
Evolved ts ts' =
    (id : Text) (t : Task)
    → find_task id ts ≡ some t
    → (t' : Task) × (find_task id ts' ≡ some t') × Reaches (core_of t) (core_of t')

pub Evolved-refl : (ts : List Task) → Evolved ts ts
Evolved-refl ts id t h = (t, h, here (core_of t))

pub Evolved-trans : (ts us vs : List Task) → Evolved ts us → Evolved us vs → Evolved ts vs
Evolved-trans ts us vs p q id t h =
    let (u, found, r) = p id t h in
    let (v, there, r') = q id u found in (v, there, Reaches-trans r r')

pub put-Evolved :
    (t c : Task) (ts : List Task)
    → find_task c.id ts ≡ some t
    → Reaches (core_of t) (core_of c)
    → Evolved ts (put_task c ts)
put-Evolved t c ts own r id u h = elim (Bool-cases (text_eq c.id id)) [
  | inl hit ↦
      let same : some t ≡ some u =
        sym own ∙ ap (λ i. find_task i ts) (text_eq-eq c.id id hit) ∙ h in
      let e : t ≡ u = ground arith in
      (c, find-put id c ts ∙ rw hit refl, subst (λ x. Reaches (core_of x) (core_of c)) e r)
  | inr miss ↦ (u, find-put id c ts ∙ rw miss h, here (core_of u))
]

-- A task that is not there yet.
pub add-Evolved :
    (c : Task) (ts : List Task) → find_task c.id ts ≡ none → Evolved ts (put_task c ts)
add-Evolved c ts absent id u h = elim (Bool-cases (text_eq c.id id)) [
  | inl hit ↦
      let same : none ≡ some u =
        sym absent ∙ ap (λ i. find_task i ts) (text_eq-eq c.id id hit) ∙ h in
      absurd (ground arith)
  | inr miss ↦ (u, find-put id c ts ∙ rw miss h, here (core_of u))
]

pub map-Evolved :
    (f : Task → Task) (ts : List Task)
    → ((t : Task) → (f t).id ≡ t.id)
    → ((t : Task) → Reaches (core_of t) (core_of (f t)))
    → Evolved ts (map f ts)
map-Evolved f ts own r id t h = (f t, find-map f id ts own ∙ ap (Option.map f) h, r t)
