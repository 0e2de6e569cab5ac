-- ===== src/Store.antt =====
-- The interface Store of store.go, over the states of some backend. A method that reads the clock
-- takes the time as an argument; a call by the manager is one step of the backend.
use gotasks.Task.{
  QueueCounters, Time, Outcome, TaskError, Task, Result, StoreError, QueuePolicy, Duration,
  ClaimOptions,
}
use gotasks.Prelude.Text.{Text}
use gotasks.Prelude.{ℕ, List, Bool, Option}

pub record StoreApi : Type 1 where
  pub State : Type 0
  pub enqueue : List Task → State → State × List Text × Option StoreError
  pub claim : ClaimOptions → Time → State → State × Result Task
  pub claim_batch : ClaimOptions → ℕ → Time → State → State × Result (List Task)
  pub complete : Task → Text → Time → State → State × Option StoreError
  pub fail : Task → TaskError → Time → Bool → Time → State → State × Option StoreError
  pub extend_lease : Task → Duration → Time → State → State × Result Time
  pub finalize_batch : List (Outcome × Time) → State → State × ℕ × Option StoreError
  pub requeue : Text → Time → State → State × Option StoreError
  pub requeue_dead : Text → Time → State → State × ℕ
  pub reap_expired : Time → State → State × ℕ
  pub register_queues : List QueuePolicy → State → State × Option StoreError
  pub snapshot_metrics : List Text → Time → State → State
  pub record_counters : Text → Time → List (Text × QueueCounters) → State → State
