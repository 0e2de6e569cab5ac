-- ===== src/MemStore/Life/Calls.antt =====
-- Every method of memstore takes every task through steps of the machine of Life.
use gotasks.MemStore.Calls.{run}
use gotasks.MemStore.Registry.{set_queue_policy, register_queues}
use gotasks.MemStore.Invariant.Insert.{fresh_name, insert-IsValid}
use gotasks.MemStore.Enqueue.{conflict, insert, enqueue, with_id}
use gotasks.MemStore.Calls.History.{
  claim-store, perform-IsValid, EnqueuesPending, claim_batch-store, snapshot_same, record_same,
}
use gotasks.MemStore.Calls.{
  registers, reaps, completes, requeues_dead, claims_batch, Call, perform, fails, extends,
  forces_lease_lost, requeues, claims, enqueues, records, sets_policy, snapshots,
}
use gotasks.MemStore.Finalize.{failed}
use gotasks.Prelude.Text.{Text}
use gotasks.Prelude.Int.{◌+ℤ◌}
use gotasks.MemStore.TaskMap.{find_own, DistinctIds}
use gotasks.MemStore.Revive.{
  requeue, reaped, requeue_found, reap_expired, requeue_dead, requeued, is_dead_of, where_true,
  is_exhausted,
}
use gotasks.MemStore.Invariant.Calls.{claim_one-IsValid, held-found}
use gotasks.MemStore.Invariant.{IsIssued, IsValid}
use gotasks.MemStore.Finalize.{completed, extended, fenced, extend_lease, complete, fail}
use gotasks.MemStore.Claim.Choice.{claim_one-Taken}
use gotasks.Life.{completion, revival, burial, retry, stale_claim, first_claim}
use gotasks.MemStore.Claim.{after_claim, claim_one, claim_loop, claimed}
use gotasks.Prelude.{
  [], ◌∷◌, All, false, if◌then◌else◌, some, suc, none, Option, refl, ap, Bool, List, Option-cases,
  ◌∙◌, zero, inr, inl, ℕ, true, arith, Bool-cases, ◌≡◌,
}
use gotasks.MemStore.State.{set_force_lease_lost, task_id, Store, find_task, held, lease_token}
use gotasks.MemStore.Life.{
  add-Evolved, Evolved, map-Evolved, put-Evolved, Evolved-trans, Evolved-refl, core_of,
}
use gotasks.MemStore.Claim.{claimable, runnable}
use gotasks.Life.{Step, Reaches, Core, step, here}
use gotasks.Task.{
  Result, ok, err, TaskError, lease_lost, running, Duration, pending, Task, Time, status_eq,
  ClaimOptions, dead,
}

one : {c d : Core} → Step c d → Reaches c d
one {c} {d} s = step s (here d)

claimed-Reaches :
    (opts : ClaimOptions) (now : Time) (n : ℕ) (t : Task)
    → claimable opts now t ≡ true
    → Reaches (core_of t) (core_of (claimed opts now n t))
unfolding claimed claimable runnable
claimed-Reaches opts now n t h = elim (Bool-cases (status_eq t.status pending)) [
  | inl fresh ↦ one (first_claim (lease_token n) (ground arith))
  | inr stale ↦ one (stale_claim (lease_token n) (ground arith) (ground arith))
]

claim_one-Evolved :
    (opts : ClaimOptions) (now : Time) (s : Store)
    → DistinctIds s.tasks
    → Evolved s.tasks (claim_one opts now s).0.tasks
claim_one-Evolved opts now s d = elim (claim_one-Taken opts now s d) [
  | inl (_, e) ↦ rw e (Evolved-refl s.tasks)
  | inr (b, own, first, e) ↦ rw e (
      put-Evolved b (claimed opts now (suc s.seq) b) s.tasks (unfold claimed in own)
        (claimed-Reaches opts now (suc s.seq) b first.is_claimable))
]

after_claim-Evolved :
    (ts : List Task) (rest : Store → Store × List Task) (r : Store × Option Task)
    → ((s : Store) → IsValid s → Evolved s.tasks (rest s).0.tasks)
    → IsValid r.0
    → Evolved ts r.0.tasks
    → Evolved ts (after_claim rest r).0.tasks
after_claim-Evolved ts rest (s, none) k d e = e
after_claim-Evolved ts rest (s, some t) k d e = Evolved-trans ts s.tasks _ e (k s d)

claim_loop-Evolved :
    (k : ℕ) (opts : ClaimOptions) (now : Time) (s : Store)
    → IsValid s
    → Evolved s.tasks (claim_loop k opts now s).0.tasks
unfolding claim_loop
claim_loop-Evolved zero opts now s v = Evolved-refl s.tasks
claim_loop-Evolved (suc k) opts now s v =
    after_claim-Evolved s.tasks (claim_loop k opts now) (claim_one opts now s)
      (claim_loop-Evolved k opts now) (claim_one-IsValid opts now s v)
      (claim_one-Evolved opts now s v.distinct)

fenced-Evolved :
    (change : Task → Task) (task : Task) (s : Store)
    → ((t : Task) → (change t).id ≡ t.id)
    → ((t : Task) → t.status ≡ running → Reaches (core_of t) (core_of (change t)))
    → Evolved s.tasks (fenced change s (held task.id task.lease_token s.tasks)).0.tasks
fenced-Evolved change task s own k = elim (Option-cases (held task.id task.lease_token s.tasks)) [
  | inl e ↦ rw e (Evolved-refl s.tasks)
  | inr (t, e) ↦
      let (there, runs, _) = held-found task.id task.lease_token s.tasks t e in
      rw e (
        put-Evolved t (change t) s.tasks
          (ap (λ id. find_task id s.tasks) (own t) ∙ find_own task.id s.tasks t there) (k t runs))
]

complete-Evolved :
    (task : Task) (result : Text) (now : Time) (s : Store)
    → Evolved s.tasks (complete task result now s).0.tasks
unfolding complete completed
complete-Evolved task result now s =
    fenced-Evolved (completed result now) task s (λ t. refl) (λ t h. one (completion h))

fail-Evolved :
    (task : Task) (e : TaskError) (at : Time) (terminal : Bool) (now : Time) (s : Store)
    → Evolved s.tasks (fail task e at terminal now s).0.tasks
unfolding fail failed
fail-Evolved task e at true now s =
    fenced-Evolved (failed e at true now) task s (λ t. refl) (λ t h. one (burial h))
fail-Evolved task e at false now s =
    fenced-Evolved (failed e at false now) task s (λ t. refl) (λ t h. one (retry h))

extend_lease-Evolved :
    (task : Task) (lease : Duration) (now : Time) (s : Store)
    → Evolved s.tasks (extend_lease task lease now s).0.tasks
unfolding extend_lease
extend_lease-Evolved task lease now s =
    go s.force_lease_lost (held task.id task.lease_token s.tasks) refl
  where
    go :
        (forced : Bool) (o : Option Task)
        → held task.id task.lease_token s.tasks ≡ o
        → Evolved s.tasks (if forced then (s, err lease_lost) else extended lease now s o).0.tasks
    go true o e = Evolved-refl s.tasks
    go false none e = Evolved-refl s.tasks
    go false (some t) e =
        let (there, _, _) = held-found task.id task.lease_token s.tasks t e in
        put-Evolved t (record t { leased_until = now +ℤ lease }) s.tasks
          (find_own task.id s.tasks t there) (here (core_of t))

requeue-Evolved : (id : Text) (now : Time) (s : Store) → Evolved s.tasks (requeue id now s).0.tasks
unfolding requeue requeue_found requeued
requeue-Evolved id now s = go (find_task id s.tasks) refl
  where
    go :
        (o : Option Task)
        → find_task id s.tasks ≡ o
        → Evolved s.tasks (requeue_found now s o).0.tasks
    go none e = Evolved-refl s.tasks
    go (some t) e = elim (Bool-cases (status_eq t.status dead)) [
      | inl is_dead ↦ rw is_dead (
          put-Evolved t (requeued now t) s.tasks (find_own id s.tasks t e)
            (one (revival (ground arith))))
      | inr alive ↦ rw alive (Evolved-refl s.tasks)
    ]

where-Reaches :
    (test : Task → Bool) (change : Task → Task)
    → ((t : Task) → test t ≡ true → Reaches (core_of t) (core_of (change t)))
    → (t : Task) → Reaches (core_of t) (core_of (where_true test change t))
where-Reaches test change k t = elim (Bool-cases (test t)) [
  | inl yes_t ↦ rw yes_t (k t yes_t)
  | inr no_t ↦ rw no_t (here (core_of t))
]

where-id :
    (test : Task → Bool) (change : Task → Task)
    → ((t : Task) → (change t).id ≡ t.id)
    → (t : Task) → (where_true test change t).id ≡ t.id
where-id test change k t = elim (Bool-cases (test t)) [
  | inl yes_t ↦ rw yes_t (k t)
  | inr no_t ↦ rw no_t refl
]

requeue_dead-Evolved :
    (task_type : Text) (now : Time) (s : Store)
    → Evolved s.tasks (requeue_dead task_type now s).0.tasks
unfolding requeue_dead is_dead_of requeued
requeue_dead-Evolved task_type now s =
    map-Evolved _ s.tasks (where-id (is_dead_of task_type) (requeued now) (λ t. refl))
      (where-Reaches (is_dead_of task_type) (requeued now) (λ t h. one (revival (ground arith))))

reap_expired-Evolved : (now : Time) (s : Store) → Evolved s.tasks (reap_expired now s).0.tasks
unfolding reap_expired is_exhausted reaped
reap_expired-Evolved now s =
    map-Evolved _ s.tasks (where-id (is_exhausted now) (reaped now) (λ t. refl))
      (where-Reaches (is_exhausted now) (reaped now) (λ t h. one (burial (ground arith))))

-- A new task has an id that no stored task has.
unseen :
    (n : ℕ) (ts : List Task)
    → All (λ t. IsIssued task_id n t.id) ts
    → find_task (task_id (suc n)) ts ≡ none
unfolding find_task
unseen n [] h = refl
unseen n (t ∷ ts) h = rw (fresh_name n t.id h.0) (unseen n ts h.1)

with_id-store : (id : Text) (r : Store × Result (List Text)) → (with_id id r).0 ≡ r.0
with_id-store id (s, ok ids) = refl
with_id-store id (s, err e) = refl

enqueue-Evolved :
    (s : Store) (ts : List Task)
    → All (λ t. t.status ≡ pending) ts
    → IsValid s
    → Evolved s.tasks (enqueue s ts).0.tasks
unfolding enqueue
enqueue-Evolved s [] p v = Evolved-refl s.tasks
enqueue-Evolved s (t ∷ ts) p v = elim (Option-cases (conflict s t)) [
  | inr (holder, e) ↦ rw (e, enqueue) (Evolved-refl s.tasks)
  | inl e ↦
      let next = insert s t in
      let head : Evolved s.tasks next.tasks =
        unfold insert in add-Evolved _ s.tasks (unseen s.seq s.tasks v.ids_issued) in
      let tail : Evolved next.tasks (enqueue next ts).0.tasks =
        enqueue-Evolved next ts p.1 (insert-IsValid s t v p.0 e) in
      rw (e, enqueue)
        (rw (with_id-store (task_id (suc s.seq)) (enqueue next ts))
          (Evolved-trans s.tasks next.tasks _ head tail))
]

same-Evolved : (ts us : List Task) → us ≡ ts → Evolved ts us
same-Evolved ts us e = rw e (Evolved-refl ts)

perform-Evolved :
    (c : Call) (now : Time) (s : Store)
    → EnqueuesPending c
    → IsValid s
    → Evolved s.tasks (perform c now s).tasks
unfolding perform
perform-Evolved (enqueues ts) now s p v = enqueue-Evolved s ts p v
perform-Evolved (claims opts) now s p v =
    rw (claim-store opts now s) (claim_one-Evolved opts now s v.distinct)
perform-Evolved (claims_batch opts k) now s p v =
    rw (claim_batch-store opts k now s) (claim_loop-Evolved k opts now s v)
perform-Evolved (completes task result) now s p v = complete-Evolved task result now s
perform-Evolved (fails task e at terminal) now s p v = fail-Evolved task e at terminal now s
perform-Evolved (extends task lease) now s p v = extend_lease-Evolved task lease now s
perform-Evolved (requeues id) now s p v = requeue-Evolved id now s
perform-Evolved (requeues_dead task_type) now s p v = requeue_dead-Evolved task_type now s
perform-Evolved reaps now s p v = reap_expired-Evolved now s
perform-Evolved (registers qs) now s p v = unfold register_queues in Evolved-refl s.tasks
perform-Evolved (sets_policy q) now s p v = unfold set_queue_policy in Evolved-refl s.tasks
perform-Evolved (snapshots qs w) now s p v = same-Evolved s.tasks _ (snapshot_same qs w s).1
perform-Evolved (records m w cs) now s p v = same-Evolved s.tasks _ (record_same m w cs s).1
perform-Evolved (forces_lease_lost b) now s p v =
    unfold set_force_lease_lost in Evolved-refl s.tasks

-- Memstore implements the life of a task: in any history of calls on a valid store that enqueue
-- pending tasks only, no task disappears, and the status, attempts, lease token and unique key of
-- each one change by steps of the machine only.
pub run-Evolved :
    (cs : List (Call × Time)) (s : Store)
    → All (λ c. EnqueuesPending c.0) cs
    → IsValid s
    → Evolved s.tasks (run cs s).tasks
unfolding run
run-Evolved [] s p v = Evolved-refl s.tasks
run-Evolved ((c, now) ∷ cs) s p v =
    Evolved-trans s.tasks (perform c now s).tasks _ (perform-Evolved c now s p.0 v)
      (run-Evolved cs (perform c now s) p.1 (perform-IsValid c now s p.0 v))
