-- ===== src/MemStore/Calls/Lost.antt =====
-- Every call keeps a lost lease lost; a recorded outcome and a claim by somebody else lose it.
use gotasks.Task.{
  Time, status_eq, lease_lost, pending, Task, running, Duration, ClaimOptions, dead, Result, err,
  ok,
}
use gotasks.Prelude.Text.{Text}
use gotasks.Prelude.Int.{◌+ℤ◌}
use gotasks.Prelude.{
  none, if◌then◌else◌, zero, arith, ℕ, Bool, some, inl, Option, Bool-cases, inr, true, false,
  Option-cases, All, [], refl, suc, ◌∷◌, ◌≡◌, List,
}
use gotasks.MemStore.TaskMap.{All-find}
use gotasks.MemStore.State.{held, set_force_lease_lost, Store, task_id, find_task}
use gotasks.MemStore.Revive.{
  requeued, where_true, requeue_found, requeue_dead, requeue, reap_expired, is_dead_of, reaped,
  is_exhausted,
}
use gotasks.MemStore.Registry.{register_queues, set_queue_policy}
use gotasks.MemStore.Invariant.Calls.{claim_one-IsValid, held-found}
use gotasks.MemStore.Invariant.{IsValid}
use gotasks.MemStore.Finalize.{failed, extend_lease, extended, completed, complete, fail}
use gotasks.MemStore.Enqueue.{with_id, conflict, insert, enqueue}
use gotasks.MemStore.Claim.{after_claim, claim_loop, claim_one}
use gotasks.MemStore.Calls.History.{
  snapshot_same, record_same, EnqueuesPending, claim-store, perform-IsValid, claim_batch-store,
}
use gotasks.MemStore.Calls.Fencing.{
  Unheld, map-IsLost, IsLost, claim_one-IsLost, fenced-IsLost, put-IsLost, holds_lease, idle-Unheld,
}
use gotasks.MemStore.Calls.{
  requeues, claims, registers, enqueues, sets_policy, claims_batch, fails, completes, records, run,
  Call, forces_lease_lost, requeues_dead, perform, extends, reaps, snapshots,
}

after_claim-Keeps :
    (P : Store → Type 0) (rest : Store → Store × List Task) (r : Store × Option Task)
    → ((s : Store) → P s → P (rest s).0)
    → P r.0
    → P (after_claim rest r).0
after_claim-Keeps P rest (s, none) ih v = v
after_claim-Keeps P rest (s, some t) ih v = ih s v

module _ (copy : Task) where
  abbrev ValidLost : Store → Type 0
  ValidLost s = IsValid s × IsLost copy s

  claim_loop-IsLost :
      (k : ℕ) (opts : ClaimOptions) (now : Time) (s : Store)
      → ValidLost s
      → ValidLost (claim_loop k opts now s).0
  unfolding claim_loop
  claim_loop-IsLost zero opts now s h = h
  claim_loop-IsLost (suc k) opts now s h =
      after_claim-Keeps ValidLost (claim_loop k opts now) (claim_one opts now s)
        (claim_loop-IsLost k opts now)
        (claim_one-IsValid opts now s h.0, claim_one-IsLost copy opts now s h.0.distinct h.1)

  with_id-IsLost :
      (id : Text) (r : Store × Result (List Text)) → IsLost copy r.0 → IsLost copy (with_id id r).0
  with_id-IsLost id (s, ok ids) h = h
  with_id-IsLost id (s, err e) h = h

  enqueue-IsLost :
      (s : Store) (ts : List Task)
      → All (λ t. t.status ≡ pending) ts
      → IsLost copy s
      → IsLost copy (enqueue s ts).0
  unfolding enqueue insert
  enqueue-IsLost s [] p h = h
  enqueue-IsLost s (t ∷ ts) p h = elim (Option-cases (conflict s t)) [
    | inr (holder, e) ↦ rw (e, enqueue) h
    | inl e ↦
        rw (e, enqueue)
          (with_id-IsLost (task_id (suc s.seq)) (enqueue (insert s t) ts) (
            enqueue-IsLost (insert s t) ts p.1 (
              put-IsLost copy s (suc s.seq) (record t { id = task_id (suc s.seq) }) (omega arith)
                (idle-Unheld copy _ (rw p.0)) h)))
  ]

  extended-IsLost :
      (task : Task) (lease : Duration) (now : Time) (s : Store) (o : Option Task)
      → held task.id task.lease_token s.tasks ≡ o
      → IsLost copy s
      → IsLost copy (extended lease now s o).0
  extended-IsLost task lease now s none e h = h
  extended-IsLost task lease now s (some t) e h =
      let found = (held-found task.id task.lease_token s.tasks t e).0 in
      put-IsLost copy s s.seq (record t { leased_until = now +ℤ lease }) (omega arith)
        (unfold holds_lease in
          unfold holds_lease in All-find (Unheld copy) task.id s.tasks t h.unheld found)
        h

  extend_lease-IsLost :
      (task : Task) (lease : Duration) (now : Time) (s : Store)
      → IsLost copy s
      → IsLost copy (extend_lease task lease now s).0
  unfolding extend_lease
  extend_lease-IsLost task lease now s h =
      by_flag s.force_lease_lost
        (extended-IsLost task lease now s (held task.id task.lease_token s.tasks) refl h)
    where
      by_flag :
          (b : Bool)
          → IsLost copy (extended lease now s (held task.id task.lease_token s.tasks)).0
          → IsLost copy
              (if b
                then (s, err lease_lost)
                else extended lease now s (held task.id task.lease_token s.tasks)).0
      by_flag true k = h
      by_flag false k = k

  requeue-IsLost :
      (id : Text) (now : Time) (s : Store) → IsLost copy s → IsLost copy (requeue id now s).0
  unfolding requeue requeue_found
  requeue-IsLost id now s h = elim (Option-cases (find_task id s.tasks)) [
    | inl e ↦ rw e h
    | inr (t, e) ↦ elim (Bool-cases (status_eq t.status dead)) [
      | inr alive ↦ rw (e, requeue_found, alive) h
      | inl is_dead ↦
          rw (e, requeue_found, is_dead)
            (put-IsLost copy s s.seq (requeued now t) (omega arith)
              (idle-Unheld copy (requeued now t) (unfold requeued in refl)) h)
    ]
  ]

  where_true-Unheld :
      (test : Task → Bool) (change : Task → Task) (t : Task)
      → status_eq (change t).status running ≡ false
      → Unheld copy t
      → Unheld copy (where_true test change t)
  where_true-Unheld test change t k h = elim (Bool-cases (test t)) [
    | inl hit ↦ rw hit (idle-Unheld copy (change t) k)
    | inr miss ↦ rw miss h
  ]

  transfer : (s s' : Store) → s'.seq ≡ s.seq → s'.tasks ≡ s.tasks → IsLost copy s → IsLost copy s'
  transfer s s' e f h = record { issued = rw e h.issued; unheld = rw f h.unheld }

  perform-IsLost :
      (c : Call) (now : Time) (s : Store)
      → EnqueuesPending c
      → ValidLost s
      → IsLost copy (perform c now s)
  unfolding perform
  perform-IsLost (enqueues ts) now s p h = enqueue-IsLost s ts p h.1
  perform-IsLost (claims opts) now s p h =
      rw (claim-store opts now s) (claim_one-IsLost copy opts now s h.0.distinct h.1)
  perform-IsLost (claims_batch opts k) now s p h =
      rw (claim_batch-store opts k now s) ((claim_loop-IsLost k opts now s h).1)
  perform-IsLost (completes task result) now s p h =
      unfold complete in
      fenced-IsLost copy (completed result now) task s (λ t. unfold completed in refl) h.1
  perform-IsLost (fails task e retry_at true) now s p h =
      unfold fail in
      fenced-IsLost copy (failed e retry_at true now) task s (λ t. unfold failed in refl) h.1
  perform-IsLost (fails task e retry_at false) now s p h =
      unfold fail in
      fenced-IsLost copy (failed e retry_at false now) task s (λ t. unfold failed in refl) h.1
  perform-IsLost (extends task lease) now s p h = extend_lease-IsLost task lease now s h.1
  perform-IsLost (requeues id) now s p h = requeue-IsLost id now s h.1
  perform-IsLost (requeues_dead task_type) now s p h =
      unfold requeue_dead requeued in
      map-IsLost copy (where_true (is_dead_of task_type) (requeued now)) s
        (λ t. where_true-Unheld (is_dead_of task_type) (requeued now) t refl) h.1
  perform-IsLost reaps now s p h =
      unfold reap_expired reaped in
      map-IsLost copy (where_true (is_exhausted now) (reaped now)) s
        (λ t. where_true-Unheld (is_exhausted now) (reaped now) t refl) h.1
  perform-IsLost (registers qs) now s p h = unfold register_queues in transfer s _ refl refl h.1
  perform-IsLost (sets_policy q) now s p h = unfold set_queue_policy in transfer s _ refl refl h.1
  perform-IsLost (snapshots qs w) now s p h =
      transfer s _ (snapshot_same qs w s).0 (snapshot_same qs w s).1 h.1
  perform-IsLost (records m w cs) now s p h =
      transfer s _ (record_same m w cs s).0 (record_same m w cs s).1 h.1
  perform-IsLost (forces_lease_lost b) now s p h =
      unfold set_force_lease_lost in transfer s _ refl refl h.1

  -- Lost once, lost for good.
  pub run-IsLost :
      (cs : List (Call × Time)) (s : Store)
      → All (λ c. EnqueuesPending c.0) cs
      → IsValid s
      → IsLost copy s
      → IsLost copy (run cs s)
  unfolding run
  run-IsLost [] s p v h = h
  run-IsLost ((c, now) ∷ cs) s p v h =
      run-IsLost cs (perform c now s) p.1 (perform-IsValid c now s p.0 v)
        (perform-IsLost c now s p.0 (v, h))
