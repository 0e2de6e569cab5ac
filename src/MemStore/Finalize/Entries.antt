-- ===== src/MemStore/Finalize/Entries.antt =====
-- FinalizeBatch of memstore.go against the single calls.
use mathlib.Core.Path.{subst}
use gotasks.Task.{StoreError, Time, Task, TaskError, lease_lost, Outcome}
use gotasks.Prelude.Text.{Text}
use gotasks.Prelude.{
  sym, ap, List, false, Option, if◌then◌else◌, ◌≡◌, inl, inr, suc, Bool, [], ℕ, refl, true,
  Option-cases, some, ◌∷◌, ◌⊎◌, none,
}
use gotasks.MemStore.State.{Store}
use gotasks.MemStore.Finalize.{after_entry, fenced, fail, complete, apply_outcome, finalize_batch}

-- A recorded outcome, or a lost lease and the store as it was.
abbrev Answer : Store → Store × Option StoreError → Type 0
Answer s r = (r ≡ (r.0, none)) ⊎ (r ≡ (s, some lease_lost))

fenced-Answer : (change : Task → Task) (s : Store) (o : Option Task) → Answer s (fenced change s o)
fenced-Answer change s none = inr refl
fenced-Answer change s (some t) = inl refl

complete-Answer : (t : Task) (r : Text) (now : Time) (s : Store) → Answer s (complete t r now s)
unfolding complete
complete-Answer t r now s = fenced-Answer _ s _

fail-Answer :
    (t : Task) (e : TaskError) (at : Time) (terminal : Bool) (now : Time) (s : Store)
    → Answer s (fail t e at terminal now s)
unfolding fail
fail-Answer t e at terminal now s = fenced-Answer _ s _

apply_outcome-Answer : (o : Outcome) (now : Time) (s : Store) → Answer s (apply_outcome o now s)
unfolding apply_outcome
apply_outcome-Answer o now s = elim (Option-cases o.failure) [
  | inl succeeded ↦ rw succeeded (complete-Answer o.task o.result now s)
  | inr (e, h) ↦ rw h (fail-Answer o.task e o.retry_at o.terminal now s)
]

-- The entries one by one, and the entries whose lease was lost.
abbrev pub apply_all : List (Outcome × Time) → Store → Store
apply_all [] s = s
apply_all ((o, now) ∷ os) s = apply_all os (apply_outcome o now s).0

abbrev is_some {ℓ} : {A : Type ℓ} → Option A → Bool
is_some none = false
is_some (some a) = true

abbrev pub lost_count : List (Outcome × Time) → Store → ℕ
lost_count [] s = 0
lost_count ((o, now) ∷ os) s =
    let rest = lost_count os (apply_outcome o now s).0 in
    if is_some (apply_outcome o now s).1 then suc rest else rest

-- What is to be shown of the answer `r` to the first entry.
abbrev Continued : List (Outcome × Time) → Store × Option StoreError → Type 0
Continued os r =
    after_entry (finalize_batch os) r
    ≡ (apply_all os r.0, (if is_some r.1 then suc (lost_count os r.0) else lost_count os r.0), none)

-- FinalizeBatch never fails: it does what Complete and Fail do with its entries one by one, in their
-- order, and returns how many of these calls answer with an error.
pub finalize_batch-apply_all :
    (os : List (Outcome × Time)) (s : Store)
    → finalize_batch os s ≡ (apply_all os s, lost_count os s, none)
unfolding finalize_batch
finalize_batch-apply_all [] s = refl
finalize_batch-apply_all ((o, now) ∷ os) s = elim (apply_outcome-Answer o now s) [
  | inl e ↦ subst (Continued os) (sym e) (finalize_batch-apply_all os (apply_outcome o now s).0)
  | inr e ↦
      subst (Continued os) (sym e) (ap (λ r. (r.0, suc r.1, r.2)) (finalize_batch-apply_all os s))
]
