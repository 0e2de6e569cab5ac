-- ===== src/Fleet/Revivals.antt =====
-- Requeueing and reaping keep the tasks within their budgets.
use gotasks.MemStore.Revive.{requeue, requeue_dead, reap_expired, requeue_found}
use gotasks.MemStore.Revive.{is_exhausted, is_dead_of, where_true, reaped, requeued}
use gotasks.MemStore.Invariant.Batches.{reap_expired-IsValid, requeue_dead-IsValid, requeue-IsValid}
use gotasks.Task.{status_eq, Task, Time}
use gotasks.Prelude.Text.{Text}
use gotasks.Prelude.{
  map, All-image, Bool-cases, suc, List, inl, inr, refl, arith, ◌≡◌, All-map, ℕ, Option, some, none,
}
use gotasks.MemStore.TaskMap.{All-find}
use gotasks.MemStore.State.{find_task, Store}
use gotasks.MemStore.Invariant.{IsValid}
use gotasks.Fleet.Budget.{Good-later, revived-Good, idle-Good, Good}
use gotasks.Task.{dead}
use gotasks.Fleet.Acts.{Orderly, put-Orderly}

-- More revivals allow for more runs.
revivable : (r : ℕ) (hs : List Task) (s : Store) → Orderly r hs s → Orderly (suc r) hs s
revivable r hs s o = record {
  valid = o.valid;
  good = All-map (Good hs r) (Good hs (suc r)) s.tasks (Good-later hs r) o.good;
  proper = o.proper;
}

pub revive-Orderly :
    (r : ℕ) (hs : List Task) (s : Store) (id : Text) (now : Time)
    → Orderly r hs s
    → Orderly (suc r) hs (requeue id now s).0
unfolding requeue requeue_found
revive-Orderly r hs s id now o = go (find_task id s.tasks) refl (requeue-IsValid id now s o.valid)
  where
    go :
        (x : Option Task)
        → find_task id s.tasks ≡ x
        → IsValid (requeue_found now s x).0
        → Orderly (suc r) hs (requeue_found now s x).0
    go none e v = revivable r hs s o
    go (some u) e v = elim (Bool-cases (status_eq u.status dead)) [
      | inr alive ↦ rw alive (revivable r hs s o)
      | inl is_dead ↦
          let g = All-find (Good hs r) id s.tasks u o.good e in
          let fresh : Good hs (suc r) (requeued now u) =
            unfold requeued in revived-Good hs r u (requeued now u) refl refl refl refl g in
          rw is_dead
            (put-Orderly (suc r) hs s (requeued now u) fresh (rw is_dead at v) (revivable r hs s o))
    ]

-- A sweep over the tasks.
map-Orderly :
    (r q : ℕ) (hs : List Task) (s : Store) (f : Task → Task)
    → ((t : Task) → Good hs r t → Good hs q (f t))
    → IsValid (record s { tasks = map f s.tasks })
    → Orderly r hs s
    → Orderly q hs (record s { tasks = map f s.tasks })
map-Orderly r q hs s f k v o = record {
  valid = v;
  good = All-image f (Good hs r) (Good hs q) s.tasks k o.good;
  proper = o.proper;
}

pub revive_dead-Orderly :
    (r : ℕ) (hs : List Task) (s : Store) (task_type : Text) (now : Time)
    → Orderly r hs s
    → Orderly (suc r) hs (requeue_dead task_type now s).0
revive_dead-Orderly r hs s task_type now o =
    let v = requeue_dead-IsValid task_type now s o.valid in
    unfold requeue_dead in
    map-Orderly r (suc r) hs s (where_true (is_dead_of task_type) (requeued now)) one
      (unfold requeue_dead in v) o
  where
    one :
        (t : Task)
        → Good hs r t
        → Good hs (suc r) (where_true (is_dead_of task_type) (requeued now) t)
    one t g = elim (Bool-cases (is_dead_of task_type t)) [
      | inl hit ↦
          rw hit (unfold requeued in revived-Good hs r t (requeued now t) refl refl refl refl g)
      | inr miss ↦ rw miss (Good-later hs r t g)
    ]

pub sweep-Orderly :
    (r : ℕ) (hs : List Task) (s : Store) (now : Time)
    → Orderly r hs s
    → Orderly r hs (reap_expired now s).0
sweep-Orderly r hs s now o =
    let v = reap_expired-IsValid now s o.valid in
    unfold reap_expired in
    map-Orderly r r hs s (where_true (is_exhausted now) (reaped now)) one (unfold reap_expired in v)
      o
  where
    one : (t : Task) → Good hs r t → Good hs r (where_true (is_exhausted now) (reaped now) t)
    one t g = elim (Bool-cases (is_exhausted now t)) [
      | inl hit ↦ rw hit (
          unfold reaped in
          idle-Good hs r t (reaped now t) refl refl refl refl (λ x. ground arith) g)
      | inr miss ↦ rw miss g
    ]
