-- ===== src/MemStore/Finalize.antt =====
-- Store.Complete, Store.Fail, Store.FinalizeBatch and Store.ExtendLease of memstore.go.
pub mod Entries
use gotasks.Prelude.{suc, ℕ, Bool, Option, none, some, List, [], ◌∷◌, ◌++◌, if◌then◌else◌}
use gotasks.Prelude.Int.{◌+ℤ◌}
use gotasks.Prelude.Text.{Text}
use gotasks.Task.{
  Task, TaskError, Time, Duration, Outcome, StoreError, lease_lost, pending, done, dead, Result, ok,
  err,
}
use gotasks.MemStore.State.{Store, put_task, held}

-- Write a task back through its pointer.
abbrev pub write : Task → Store → Store
write t s = record s { tasks = put_task t s.tasks }

unfoldable pub completed : Text → Time → Task → Task
completed result now t = record t {
  status = done;
  result = result;
  leased_by = [];
  lease_token = [];
  unique_key = [];
  updated_at = now;
}

unfoldable pub failed : TaskError → Time → Bool → Time → Task → Task
failed e retry_at terminal now t = record t {
  errors = t.errors ++ e ∷ [];
  status = if terminal then dead else pending;
  unique_key = if terminal then [] else t.unique_key;
  run_at = if terminal then t.run_at else retry_at;
  leased_by = [];
  lease_token = [];
  updated_at = now;
}

abbrev pub fenced : (Task → Task) → Store → Option Task → Store × Option StoreError
fenced change s none = (s, some lease_lost)
fenced change s (some t) = (write (change t) s, none)

unfoldable pub complete : Task → Text → Time → Store → Store × Option StoreError
complete task result now s = fenced (completed result now) s (held task.id task.lease_token s.tasks)

unfoldable pub fail : Task → TaskError → Time → Bool → Time → Store → Store × Option StoreError
fail task e retry_at terminal now s =
    fenced (failed e retry_at terminal now) s (held task.id task.lease_token s.tasks)

-- One entry of a batch, or the body of `finalizeNow`.
unfoldable pub apply_outcome : Outcome → Time → Store → Store × Option StoreError
apply_outcome o now s = elim o.failure [
  | some e ↦ fail o.task e o.retry_at o.terminal now s
  | none ↦ complete o.task o.result now s
]

-- After one entry of a batch: a lost lease is counted, and any other error ends the loop.
abbrev pub after_entry :
    (Store → Store × ℕ × Option StoreError)
    → Store × Option StoreError
    → Store × ℕ × Option StoreError
after_entry rest (s, none) = rest s
after_entry rest (s, some lease_lost) = let r = rest s in (r.0, suc r.1, r.2)
after_entry rest (s, some e) = (s, 0, some e)

-- Each entry reads the clock by itself: `now` stands beside it.
unfoldable pub finalize_batch : List (Outcome × Time) → Store → Store × ℕ × Option StoreError
finalize_batch [] s = (s, 0, none)
finalize_batch ((o, now) ∷ os) s = after_entry (finalize_batch os) (apply_outcome o now s)

abbrev pub extended : Duration → Time → Store → Option Task → Store × Result Time
extended lease now s none = (s, err lease_lost)
extended lease now s (some t) =
    (write (record t { leased_until = now +ℤ lease }) s, ok (now +ℤ lease))

unfoldable pub extend_lease : Task → Duration → Time → Store → Store × Result Time
extend_lease task lease now s =
    if s.force_lease_lost
    then (s, err lease_lost)
    else extended lease now s (held task.id task.lease_token s.tasks)
