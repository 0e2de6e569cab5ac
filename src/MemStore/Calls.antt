-- ===== src/MemStore/Calls.antt =====
-- The methods of memstore.Store as calls, so that a history of the store is a list of calls with
-- the time at which each took the mutex.
pub mod History
pub mod Fencing
pub mod Lost
pub mod Once
use gotasks.Task.{Task, Duration, ClaimOptions, TaskError, QueuePolicy, Time, QueueCounters}
use gotasks.Prelude.Text.{Text}
use gotasks.Prelude.{List, ◌∷◌, [], ℕ, Bool}
use gotasks.MemStore.State.{Store, set_force_lease_lost}
use gotasks.MemStore.Revive.{requeue_dead, requeue, reap_expired}
use gotasks.MemStore.Registry.{register_queues, set_queue_policy}
use gotasks.MemStore.Metrics.{record_counters, snapshot_metrics}
use gotasks.MemStore.Finalize.{complete, fail, extend_lease}
use gotasks.MemStore.Enqueue.{enqueue}
use gotasks.MemStore.Claim.{claim_batch, claim}

pub data Call : Type 0 where
  enqueues : List Task → Call
  claims : ClaimOptions → Call
  claims_batch : ClaimOptions → ℕ → Call
  completes : Task → Text → Call
  fails : Task → TaskError → Time → Bool → Call
  extends : Task → Duration → Call
  requeues : Text → Call
  requeues_dead : Text → Call
  reaps : Call
  registers : List QueuePolicy → Call
  sets_policy : QueuePolicy → Call
  snapshots : List Text → Time → Call
  records : Text → Time → List (Text × QueueCounters) → Call
  forces_lease_lost : Bool → Call

-- The store after a call. FinalizeBatch takes the mutex for each of its entries, so it is a series
-- of `completes` and `fails`.
unfoldable pub perform : Call → Time → Store → Store
perform (enqueues ts) now s = (enqueue s ts).0
perform (claims opts) now s = (claim opts now s).0
perform (claims_batch opts k) now s = (claim_batch opts k now s).0
perform (completes task result) now s = (complete task result now s).0
perform (fails task e retry_at terminal) now s = (fail task e retry_at terminal now s).0
perform (extends task lease) now s = (extend_lease task lease now s).0
perform (requeues id) now s = (requeue id now s).0
perform (requeues_dead task_type) now s = (requeue_dead task_type now s).0
perform reaps now s = (reap_expired now s).0
perform (registers qs) now s = (register_queues qs s).0
perform (sets_policy q) now s = set_queue_policy q s
perform (snapshots qs w) now s = snapshot_metrics qs w s
perform (records m w cs) now s = record_counters m w cs s
perform (forces_lease_lost v) now s = set_force_lease_lost v s

unfoldable pub run : List (Call × Time) → Store → Store
run [] s = s
run ((c, now) ∷ cs) s = run cs (perform c now s)
