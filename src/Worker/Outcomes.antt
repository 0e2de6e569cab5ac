-- ===== src/Worker/Outcomes.antt =====
-- From a handler's run to the task in memstore.
use gotasks.Worker.{
  fail_with, no_handler, fault, success_outcome, conclude, crashed, Processed, value, HandlerRun,
  failure_outcome, is_terminal, Handled, finished, process, invoke, finalize_now, next_delay,
}
use gotasks.Task.{done, dead, Outcome, TaskError, pending, Duration, Time, Task}
use gotasks.Prelude.Text.{text_eq_of_eq, Text}
use gotasks.Prelude.Int.{◌<ℤ◌, ◌+ℤ◌, ◌≤ℤ◌, pos}
use gotasks.Prelude.{ap, sym, some, refl, true, arith, ◌++◌, [], Bool, ◌≡◌, ◌∷◌, false, ◌∙◌}
use gotasks.MemStore.TaskMap.{find-id, find-put}
use gotasks.MemStore.State.{held, Store, find_task}
use gotasks.MemStore.Invariant.Calls.{held-found}
use gotasks.MemStore.Finalize.{failed, completed, complete, fail}
use gotasks.MemStore.Api.{mem_api}
use gotasks.Manager.State.{Manager}

-- The task that an outcome of `t` leaves behind, when it was `u` in the store.
pub record IsDone (u v : Task) (r : Text) : Type 0 where
  pub status : v.status ≡ done
  pub result : v.result ≡ r
  pub key : v.unique_key ≡ []
  pub attempts : v.attempts ≡ u.attempts
  pub errors : v.errors ≡ u.errors

pub record IsRetried (u v : Task) (e : TaskError) (at : Time) : Type 0 where
  pub status : v.status ≡ pending
  pub run_at : v.run_at ≡ at
  pub key : v.unique_key ≡ u.unique_key
  pub attempts : v.attempts ≡ u.attempts
  pub errors : v.errors ≡ u.errors ++ e ∷ []

pub record IsBuried (u v : Task) (e : TaskError) : Type 0 where
  pub status : v.status ≡ dead
  pub key : v.unique_key ≡ []
  pub attempts : v.attempts ≡ u.attempts
  pub errors : v.errors ≡ u.errors ++ e ∷ []

-- What becomes of the stored task `u` after the run of a handler by `worker_id` on its claimed copy
-- `t`, with the message of the error, if there was one, and the delay of the strategy.
abbrev pub Settled : Text → Task → Task → Task → Time → Duration → Handled → Type 0
Settled worker_id t u v now delay (value r) = IsDone u v r
Settled worker_id t u v now delay (fault e) =
    let x : TaskError = record {
      at = now;
      attempt = t.attempts;
      worker = worker_id;
      message = e;
    } in
    (pos t.attempts <ℤ t.max_attempts → IsRetried u v x (now +ℤ delay))
    × (t.max_attempts ≤ℤ pos t.attempts → IsBuried u v x)

-- The write of an outcome over a held task.
complete-found :
    (t u : Task) (r : Text) (now : Time) (s : Store)
    → held t.id t.lease_token s.tasks ≡ some u
    → find_task t.id (complete t r now s).0.tasks ≡ some (completed r now u)
unfolding complete completed
complete-found t u r now s h =
    let found = (held-found t.id t.lease_token s.tasks u h).0 in
    rw h (find-put t.id _ s.tasks ∙ rw (text_eq_of_eq u.id t.id (find-id t.id s.tasks u found)))

fail-found :
    (t u : Task) (e : TaskError) (at : Time) (terminal : Bool) (now : Time) (s : Store)
    → held t.id t.lease_token s.tasks ≡ some u
    → find_task t.id (fail t e at terminal now s).0.tasks ≡ some (failed e at terminal now u)
unfolding fail failed
fail-found t u e at terminal now s h =
    let found = (held-found t.id t.lease_token s.tasks u h).0 in
    rw h (find-put t.id _ s.tasks ∙ rw (text_eq_of_eq u.id t.id (find-id t.id s.tasks u found)))

settle_failure :
    (worker_id : Text) (t u : Task) (e : Text) (now later : Time) (delay : Duration) (s : Store)
    → held t.id t.lease_token s.tasks ≡ some u
    → (v : Task) × (find_task t.id
          (finalize_now mem_api (failure_outcome worker_id t e now delay) later s).tasks
        ≡ some v)
      × Settled worker_id t u v now delay (fault e)
unfolding finalize_now failure_outcome
settle_failure worker_id t u e now later delay s h =
    let x : TaskError = record {
      at = now;
      attempt = t.attempts;
      worker = worker_id;
      message = e;
    } in
    (
      failed x (now +ℤ delay) (is_terminal t) later u,
      fail-found t u x (now +ℤ delay) (is_terminal t) later s h,
      (
        λ retry.
            let no : is_terminal t ≡ false = unfold is_terminal in ground arith in
            rw no (
              unfold failed in
              record { status = refl; run_at = refl; key = refl; attempts = refl; errors = refl }),
        λ over.
            let dies : is_terminal t ≡ true = unfold is_terminal in ground arith in
            rw dies (
              unfold failed in
              record { status = refl; key = refl; attempts = refl; errors = refl }),
      ),
    )

settle_success :
    (worker_id : Text) (t u : Task) (r : Text) (now later : Time) (delay : Duration) (s : Store)
    → held t.id t.lease_token s.tasks ≡ some u
    → (v : Task) × (find_task t.id (finalize_now mem_api (success_outcome t r) later s).tasks
        ≡ some v)
      × Settled worker_id t u v now delay (value r)
unfolding finalize_now success_outcome
settle_success worker_id t u r now later delay s h = (
  completed r later u,
  complete-found t u r later s h,
  unfold completed in
      record { status = refl; result = refl; key = refl; attempts = refl; errors = refl },
)

outcome_or : Outcome → Processed → Outcome
outcome_or d no_handler = d
outcome_or d crashed = d
outcome_or d (finished m o) = o

finished-outcome : (m m' : Manager) (a b : Outcome) → finished m a ≡ finished m' b → a ≡ b
unfolding outcome_or
finished-outcome m m' a b h = ap (outcome_or a) h

conclude-outcome :
    (m m' : Manager) (worker_id : Text) (t u : Task) (x : Handled) (now later : Time)
    (delay : Duration) (o : Outcome) (s : Store)
    → conclude m worker_id t now x ≡ finished m' o
    → next_delay m t ≡ some delay
    → held t.id t.lease_token s.tasks ≡ some u
    → (v : Task) × (find_task t.id (finalize_now mem_api o later s).tasks ≡ some v)
      × Settled worker_id t u v now delay x
unfolding conclude
conclude-outcome m m' worker_id t u (value r) now later delay o s c d h =
    let e = finished-outcome _ _ (success_outcome t r) o c in
    rw (← e) (settle_success worker_id t u r now later delay s h)
conclude-outcome m m' worker_id t u (fault x) now later delay o s c d h =
    let e =
      finished-outcome _ _ (failure_outcome worker_id t x now delay) o
        (sym (ap (fail_with m worker_id t x now) d) ∙ c) in
    rw (← e) (settle_failure worker_id t u x now later delay s h)

-- If a worker holds a task in memstore, its run yields an outcome and that outcome is written at
-- once, the task is settled by it. A result makes the task done and
-- releases its key. An error or a panic, recorded with the attempt's number, sends it back to
-- pending at now plus the strategy's delay, with its key, while attempts are left, and to dead,
-- without its key, once none is.
pub process-Settled :
    (m m' : Manager) (worker_id : Text) (t u : Task) (run : HandlerRun) (now later : Time)
    (delay : Duration) (o : Outcome) (s : Store)
    → process m worker_id t run now ≡ finished m' o
    → next_delay m t ≡ some delay
    → held t.id t.lease_token s.tasks ≡ some u
    → (v : Task) × (find_task t.id (finalize_now mem_api o later s).tasks ≡ some v)
      × Settled worker_id t u v now delay (invoke run)
unfolding process
process-Settled m m' worker_id t u run now later delay o s p d h =
    conclude-outcome m m' worker_id t u (invoke run) now later delay o s (ground arith) d h
