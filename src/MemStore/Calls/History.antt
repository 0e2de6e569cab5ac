-- ===== src/MemStore/Calls/History.antt =====
-- The invariant holds after every history of calls.
use gotasks.Task.{ClaimOptions, QueueCounters, Task, Time, pending}
use gotasks.Prelude.Text.{Text}
use gotasks.Prelude.{◌∙◌, ℕ, All, ◌∷◌, none, some, [], List, arith, ◌≡◌, refl, Option}
use gotasks.MemStore.State.{Store, set_force_lease_lost, new}
use gotasks.MemStore.Registry.{set_queue_policy, register_queues}
use gotasks.MemStore.Metrics.{snapshot_queue, record_counters, snapshot_metrics}
use gotasks.MemStore.Invariant.Insert.{enqueue-IsValid}
use gotasks.MemStore.Invariant.Calls.{
  complete-IsValid, fail-IsValid, claim_one-IsValid, extend_lease-IsValid,
}
use gotasks.MemStore.Invariant.Batches.{
  reap_expired-IsValid, requeue-IsValid, requeue_dead-IsValid, claim_loop-IsValid,
}
use gotasks.MemStore.Invariant.{IsValid, IsValid-new}
use gotasks.MemStore.Claim.{claim, claim_loop, or_no_task, claim_one, or_none_claimed, claim_batch}
use gotasks.MemStore.Calls.{
  snapshots, enqueues, reaps, claims_batch, requeues, claims, requeues_dead, completes, extends,
  forces_lease_lost, sets_policy, registers, records, fails, perform, Call, run,
}

-- The manager enqueues pending tasks only.
abbrev pub EnqueuesPending : Call → Type 0
EnqueuesPending (enqueues ts) = All (λ t. t.status ≡ pending) ts
EnqueuesPending _ = Unit

-- The invariant speaks of the counter and the tasks alone.
IsValid-transfer : (s s' : Store) → s'.seq ≡ s.seq → s'.tasks ≡ s.tasks → IsValid s → IsValid s'
IsValid-transfer s s' e f v = record {
  distinct = rw f v.distinct;
  ids_issued = rw (e, f) v.ids_issued;
  tokens_issued = rw (e, f) v.tokens_issued;
  keys_apart = rw f v.keys_apart;
  keys_released = rw f v.keys_released;
}

-- The metrics calls leave the counter and the tasks alone.
pub snapshot_same :
    (qs : List Text) (w : Time) (s : Store)
    → ((snapshot_metrics qs w s).seq ≡ s.seq) × ((snapshot_metrics qs w s).tasks ≡ s.tasks)
unfolding snapshot_metrics
snapshot_same [] w s = (refl, refl)
snapshot_same (q ∷ qs) w s =
    let rest = snapshot_same qs w (snapshot_queue w q s) in
    let one : ((snapshot_queue w q s).seq ≡ s.seq) × ((snapshot_queue w q s).tasks ≡ s.tasks) =
      (unfold snapshot_queue in ground arith, unfold snapshot_queue in ground arith) in
    (rest.0 ∙ one.0, rest.1 ∙ one.1)

pub record_same :
    (m : Text) (w : Time) (cs : List (Text × QueueCounters)) (s : Store)
    → ((record_counters m w cs s).seq ≡ s.seq) × ((record_counters m w cs s).tasks ≡ s.tasks)
unfolding record_counters
record_same m w [] s = (refl, refl)
record_same m w ((q, c) ∷ cs) s = record_same m w cs _

or_no_task-store : (r : Store × Option Task) → (or_no_task r).0 ≡ r.0
or_no_task-store (s, none) = refl
or_no_task-store (s, some t) = refl

or_none_claimed-store : (r : Store × List Task) → (or_none_claimed r).0 ≡ r.0
or_none_claimed-store (s, []) = refl
or_none_claimed-store (s, t ∷ ts) = refl

pub claim-store :
    (opts : ClaimOptions) (now : Time) (s : Store) → (claim opts now s).0 ≡ (claim_one opts now s).0
unfolding claim
claim-store opts now s = or_no_task-store (claim_one opts now s)

pub claim_batch-store :
    (opts : ClaimOptions) (k : ℕ) (now : Time) (s : Store)
    → (claim_batch opts k now s).0 ≡ (claim_loop k opts now s).0
unfolding claim_batch
claim_batch-store opts k now s = or_none_claimed-store (claim_loop k opts now s)

-- Every call keeps the invariant.
pub perform-IsValid :
    (c : Call) (now : Time) (s : Store) → EnqueuesPending c → IsValid s → IsValid (perform c now s)
unfolding perform
perform-IsValid (enqueues ts) now s p v = enqueue-IsValid s ts p v
perform-IsValid (claims opts) now s p v =
    rw (claim-store opts now s) (claim_one-IsValid opts now s v)
perform-IsValid (claims_batch opts k) now s p v =
    rw (claim_batch-store opts k now s) (claim_loop-IsValid k opts now s v)
perform-IsValid (completes task result) now s p v = complete-IsValid task result now s v
perform-IsValid (fails task e retry_at terminal) now s p v =
    fail-IsValid task e retry_at terminal now s v
perform-IsValid (extends task lease) now s p v = extend_lease-IsValid task lease now s v
perform-IsValid (requeues id) now s p v = requeue-IsValid id now s v
perform-IsValid (requeues_dead task_type) now s p v = requeue_dead-IsValid task_type now s v
perform-IsValid reaps now s p v = reap_expired-IsValid now s v
perform-IsValid (registers qs) now s p v =
    unfold register_queues in IsValid-transfer s _ refl refl v
perform-IsValid (sets_policy q) now s p v =
    unfold set_queue_policy in IsValid-transfer s _ refl refl v
perform-IsValid (snapshots qs w) now s p v =
    IsValid-transfer s _ (snapshot_same qs w s).0 (snapshot_same qs w s).1 v
perform-IsValid (records m w cs) now s p v =
    IsValid-transfer s _ (record_same m w cs s).0 (record_same m w cs s).1 v
perform-IsValid (forces_lease_lost b) now s p v =
    unfold set_force_lease_lost in IsValid-transfer s _ refl refl v

pub run-IsValid :
    (cs : List (Call × Time)) (s : Store)
    → All (λ c. EnqueuesPending c.0) cs
    → IsValid s
    → IsValid (run cs s)
unfolding run
run-IsValid [] s p v = v
run-IsValid ((c, now) ∷ cs) s p v =
    run-IsValid cs (perform c now s) p.1 (perform-IsValid c now s p.0 v)

-- After any history of calls on a new store, in which only pending tasks are enqueued, task ids are
-- distinct, two active tasks never hold the same unique key, a task that is done or dead holds
-- none, and the ids and the tokens of running tasks are among those that the store has issued.
pub run-new-IsValid :
    (cs : List (Call × Time)) → All (λ c. EnqueuesPending c.0) cs → IsValid (run cs new)
run-new-IsValid cs p = run-IsValid cs new p IsValid-new
