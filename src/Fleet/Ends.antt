-- ===== src/Fleet/Ends.antt =====
-- What is written under the lease of a copy keeps the tasks within their budgets.
use gotasks.MemStore.Finalize.{extend_lease}
use gotasks.Prelude.Int.{◌+ℤ◌, pos, ◌<ℤ◌}
use gotasks.Manager.State.{Manager}
use gotasks.Worker.{
  conclude, process, next_delay, fault, value, fail_with, success_outcome, Handled, invoke,
  HandlerRun, failure_outcome, finalize_now, is_terminal,
}
use mathlib.Core.Path.{subst}
use gotasks.Task.{lease_lost, Duration, TaskError, Task, err, Time}
use gotasks.Prelude.Text.{contains, text_eq_refl, Text}
use gotasks.Prelude.{
  if◌then◌else◌, Bool, Bool-cases, false, suc, List, ◌∷◌, inl, inr, refl, arith, ◌≡◌, ℕ, Option, [],
  All, some, zero, true, none, Option-cases,
}
use gotasks.Mongo.Query.{change}
use gotasks.MemStore.TaskMap.{find-id, All-find}
use gotasks.MemStore.State.{Store, held}
use gotasks.MemStore.Invariant.Calls.{
  extend_lease-IsValid, fail-IsValid, held-found, complete-IsValid,
}
use gotasks.MemStore.Invariant.{IsValid}
use gotasks.MemStore.Finalize.{extended, completed, fenced}
use gotasks.MemStore.Calls.Fencing.{holds_lease}
use gotasks.Fleet.Budget.{idle-Good, Good, Truthful}
use gotasks.Task.{running}
use gotasks.MemStore.Finalize.{complete, fail, completed, failed}
use gotasks.Fleet.{copy_at, settled}
use gotasks.Fleet.Acts.{Orderly, put-Orderly}

All-copy_at :
    (P : Task → Type 0) (i : ℕ) (hs : List Task) (t : Task) → All P hs → copy_at i hs ≡ some t → P t
All-copy_at P i [] t a h = ground arith
All-copy_at P zero (c ∷ hs) t a h = let e : c ≡ t = ground arith in subst P e a.0
All-copy_at P (suc i) (c ∷ hs) t a h = All-copy_at P i hs t a.1 h

-- What a copy of `hs` says of the task that runs under its lease.
held-Truthful :
    (r : ℕ) (hs : List Task) (s : Store) (i : ℕ) (t u : Task)
    → copy_at i hs ≡ some t
    → held t.id t.lease_token s.tasks ≡ some u
    → Orderly r hs s
    → Good hs r u
      × (u.status ≡ running)
      × (t.attempts ≡ u.attempts)
      × (t.max_attempts ≡ u.max_attempts)
held-Truthful r hs s i t u c h o =
    let (found, runs, token) = held-found t.id t.lease_token s.tasks u h in
    let g : Good hs r u = All-find (Good hs r) t.id s.tasks u o.good found in
    let (a, m) =
      All-copy_at (Truthful u) i hs t g.1 c
        (holding t u (find-id t.id s.tasks u found) runs token) in
    (g, runs, a, m)
  where
    holding :
        (t u : Task)
        → u.id ≡ t.id
        → u.status ≡ running
        → u.lease_token ≡ t.lease_token
        → holds_lease t.id t.lease_token u ≡ true
    holding t u i p e =
        unfold holds_lease in
        rw (i, p, e) (ground (arith, text_eq_refl t.id, text_eq_refl t.lease_token))

-- A write under a copy's lease.
fenced-Orderly :
    (r : ℕ) (hs : List Task) (s : Store) (change : Task → Task) (i : ℕ) (t : Task)
    → ((u : Task)
        → Good hs r u
        → (t.attempts ≡ u.attempts) × (t.max_attempts ≡ u.max_attempts)
        → Good hs r (change u))
    → copy_at i hs ≡ some t
    → IsValid (fenced change s (held t.id t.lease_token s.tasks)).0
    → Orderly r hs s
    → Orderly r hs (fenced change s (held t.id t.lease_token s.tasks)).0
fenced-Orderly r hs s change i t k c v o = elim (Option-cases (held t.id t.lease_token s.tasks)) [
  | inl e ↦ rw e o
  | inr (u, e) ↦
      let (g, runs, a, m) = held-Truthful r hs s i t u c e o in
      rw e (
        put-Orderly r hs s (change u) (k u g (a, m))
          (subst (λ x. IsValid (fenced change s x).0) e v) o)
]

complete-Orderly :
    (r : ℕ) (hs : List Task) (s : Store) (i : ℕ) (t : Task) (result : Text) (now : Time)
    → copy_at i hs ≡ some t
    → Orderly r hs s
    → Orderly r hs (complete t result now s).0
complete-Orderly r hs s i t result now c o =
    let v = complete-IsValid t result now s o.valid in
    unfold complete in
    fenced-Orderly r hs s (completed result now) i t
      (λ u g k.
        unfold completed in
        idle-Good hs r u (completed result now u) refl refl refl refl (λ h. ground arith) g)
      c (unfold complete in v) o

fail-Orderly :
    (r : ℕ) (hs : List Task) (s : Store) (i : ℕ) (t : Task) (e : TaskError) (at now : Time)
    → copy_at i hs ≡ some t
    → Orderly r hs s
    → Orderly r hs (fail t e at (is_terminal t) now s).0
fail-Orderly r hs s i t e at now c o =
    let v = fail-IsValid t e at (is_terminal t) now s o.valid in
    unfold fail in
    fenced-Orderly r hs s (failed e at (is_terminal t) now) i t
      (λ u g k. failed-Good u g k (is_terminal t) refl) c (unfold fail in v) o
  where
    failed-Good :
        (u : Task)
        → Good hs r u
        → (t.attempts ≡ u.attempts) × (t.max_attempts ≡ u.max_attempts)
        → (b : Bool) → is_terminal t ≡ b
        → Good hs r (failed e at b now u)
    failed-Good u g k true h =
        unfold failed in
        idle-Good hs r u (failed e at true now u) refl refl refl refl (λ x. ground arith) g
    failed-Good u g k false h =
        let left : pos t.attempts <ℤ t.max_attempts = unfold is_terminal in ground arith in
        unfold failed in
        idle-Good hs r u (failed e at false now u) refl refl refl refl (λ x. rw (← k.0, ← k.1) left)
          g

-- Whatever the handler does, what its worker records.
pub settled-Orderly :
    (r : ℕ) (hs : List Task) (s : Store) (i : ℕ) (t : Task) (m : Manager) (worker_id : Text)
    (run : HandlerRun) (over now : Time)
    → copy_at i hs ≡ some t
    → Orderly r hs s
    → Orderly r hs (settled now s (process m worker_id t run over))
unfolding process conclude
settled-Orderly r hs s i t m worker_id run over now c o =
    elim (Bool-cases (contains m.types t.type)) [
      | inr foreign ↦ rw foreign o
      | inl known ↦ rw known (concluded (invoke run))
    ]
  where
    failing :
        (e : Text) (d : Option Duration)
        → Orderly r hs (settled now s (fail_with m worker_id t e over d))
    failing e none = o
    failing e (some d) =
        unfold finalize_now failure_outcome in fail-Orderly r hs s i t _ (over +ℤ d) now c o

    concluded : (x : Handled) → Orderly r hs (settled now s (conclude m worker_id t over x))
    concluded (value result) =
        unfold finalize_now success_outcome in complete-Orderly r hs s i t result now c o
    concluded (fault e) = failing e (next_delay m t)

pub extended-Orderly :
    (r : ℕ) (hs : List Task) (s : Store) (i : ℕ) (t : Task) (lease : Duration) (now : Time)
    → copy_at i hs ≡ some t
    → Orderly r hs s
    → Orderly r hs (extend_lease t lease now s).0
unfolding extend_lease
extended-Orderly r hs s i t lease now c o =
    go s.force_lease_lost (held t.id t.lease_token s.tasks) refl
      (extend_lease-IsValid t lease now s o.valid)
  where
    go :
        (forced : Bool) (x : Option Task)
        → held t.id t.lease_token s.tasks ≡ x
        → IsValid (if forced then (s, err lease_lost) else extended lease now s x).0
        → Orderly r hs (if forced then (s, err lease_lost) else extended lease now s x).0
    go true x e v = o
    go false none e v = o
    go false (some u) e v =
        let (g, _, _, _) = held-Truthful r hs s i t u c e o in
        put-Orderly r hs s (record u { leased_until = now +ℤ lease })
          (unfold holds_lease in unfold holds_lease in g) v o
