-- ===== src/MemStore/Revive.antt =====
-- Store.Requeue, Store.RequeueDead and Store.ReapExpired of memstore.go.
pub mod Maintenance
use gotasks.Prelude.{
  ℕ, Bool, not, ◌&&◌, ◌||◌, Option, none, some, [], ◌∷◌, ◌++◌, map, count_if, if◌then◌else◌,
}
use gotasks.Prelude.Int.{pos, ltb_ℤ}
use gotasks.Prelude.Text.{Text, text_eq, bytes}
use gotasks.Task.{Task, Time, StoreError, not_found, status_eq, before, pending, running, dead}
use gotasks.MemStore.State.{Store, put_task, find_task}

-- requeueLocked
unfoldable pub requeued : Time → Task → Task
requeued now t = record t {
  status = pending;
  attempts = 0;
  run_at = now;
  result = [];
  leased_by = [];
  lease_token = [];
  updated_at = now;
}

unfoldable pub requeue_found : Time → Store → Option Task → Store × Option StoreError
requeue_found now s none = (s, some not_found)
requeue_found now s (some t) =
    if status_eq t.status dead
    then (record s { tasks = put_task (requeued now t) s.tasks }, none)
    else (s, some not_found)

unfoldable pub requeue : Text → Time → Store → Store × Option StoreError
requeue id now s = requeue_found now s (find_task id s.tasks)

unfoldable pub is_dead_of : Text → Task → Bool
is_dead_of task_type t =
    status_eq t.status dead && (text_eq task_type [] || text_eq t.type task_type)

-- The body of a loop that changes the tasks which pass a test.
abbrev pub where_true : (Task → Bool) → (Task → Task) → Task → Task
where_true test change t = if test t then change t else t

-- The store and the count of the tasks that were changed.
unfoldable pub requeue_dead : Text → Time → Store → Store × ℕ
requeue_dead task_type now s = (
  record s { tasks = map (where_true (is_dead_of task_type) (requeued now)) s.tasks },
  count_if (is_dead_of task_type) s.tasks,
)

unfoldable pub is_exhausted : Time → Task → Bool
is_exhausted now t =
    status_eq t.status running
    && (before t.leased_until now && not (ltb_ℤ (pos t.attempts) t.max_attempts))

abbrev pub reap_message : Text
reap_message = bytes "lease expired before completion; attempts exhausted"

unfoldable pub reaped : Time → Task → Task
reaped now t = record t {
  status = dead;
  errors =
      t.errors
      ++ record { at = now; attempt = t.attempts; worker = t.leased_by; message = reap_message }
        ∷ [];
  leased_by = [];
  lease_token = [];
  unique_key = [];
}

unfoldable pub reap_expired : Time → Store → Store × ℕ
reap_expired now s = (
  record s { tasks = map (where_true (is_exhausted now) (reaped now)) s.tasks },
  count_if (is_exhausted now) s.tasks,
)
