-- ===== src/Manager/Enqueue/Stored.antt =====
-- EnqueueMany on a backend, and on memstore in particular.
use gotasks.MemStore.Registry.{register_queues}
use gotasks.Store.{StoreApi}
use gotasks.Policies.{find_policy}
use gotasks.MemStore.State.{Store}
use gotasks.MemStore.Invariant.Insert.{enqueue-IsValid}
use gotasks.MemStore.Invariant.{IsValid}
use gotasks.MemStore.Enqueue.{enqueue}
use gotasks.MemStore.Calls.History.{perform-IsValid}
use gotasks.MemStore.Calls.{perform, registers}
use gotasks.MemStore.Api.{mem_api, ids_of}
use gotasks.Manager.State.{Manager}
use gotasks.Task.{Result, err, StoreError, ok, Task, QueuePolicy, TaskPolicy, pending, Time}
use gotasks.Prelude.Text.{text_eq, Text}
use gotasks.Prelude.Int.{ℤ}
use gotasks.Prelude.{
  Bool-cases, inr, none, Option-cases, some, inl, refl, [], All, List, arith, ◌∷◌, Option, ◌≡◌,
}
use gotasks.Manager.Enqueue.Built.{build_tasks-All}
use gotasks.Manager.Enqueue.{
  inherit_attempts, build_tasks, one_policy, store_tasks, bad, enqueue_many, store_planned,
  ensure_registered, Outcome?, plan_and_store, new_task, plan_tasks, good,
}

built-pending :
    (queue type : Text) (p : TaskPolicy) (attempts : ℤ) (qp : QueuePolicy) (now : Time)
    (pls : List (Option Text)) (ts : List Task)
    → build_tasks (new_task queue type p attempts qp now) pls ≡ good ts
    → All (λ t. t.status ≡ pending) ts
unfolding new_task
built-pending queue type p attempts qp now pls ts h =
    (build_tasks-All (λ t. t.status ≡ pending) (new_task queue type p attempts qp now) pls ts
      (λ raw. refl) h).0

planned-pending :
    (default : ℤ) (qp : QueuePolicy) (queue type : Text) (pls : List (Option Text))
    (policy : List TaskPolicy) (p : TaskPolicy) (now : Time) (ts : List Task)
    → one_policy policy ≡ good p
    → plan_tasks default qp queue type pls policy now ≡ good ts
    → All (λ t. t.status ≡ pending) ts
unfolding plan_tasks
planned-pending default qp queue type pls policy p now ts e h =
    let attempts = inherit_attempts p.max_attempts qp.max_attempts default in
    let built : build_tasks (new_task queue type p attempts qp now) pls ≡ good ts = ground arith in
    built-pending queue type p attempts qp now pls ts built

plan_tasks-pending :
    (default : ℤ) (qp : QueuePolicy) (queue type : Text) (pls : List (Option Text))
    (policy : List TaskPolicy) (now : Time) (ts : List Task)
    → plan_tasks default qp queue type pls policy now ≡ good ts
    → All (λ t. t.status ≡ pending) ts
plan_tasks-pending default qp queue type pls (p ∷ q ∷ ps) now ts h =
    absurd (unfold plan_tasks in cc)
plan_tasks-pending default qp queue type pls [] now ts h =
    planned-pending default qp queue type pls [] _ now ts refl h
plan_tasks-pending default qp queue type pls (p ∷ []) now ts h =
    planned-pending default qp queue type pls (p ∷ []) p now ts refl h

module _ (api : StoreApi) (P : api.State → Type 0) where
  -- What a backend has to keep for EnqueueMany to keep it.
  pub record KeepsEnqueue : Type 0 where
    pub registering : (qs : List QueuePolicy) (s : api.State) → P s → P (api.register_queues qs s).0
    pub enqueueing :
        (ts : List Task) (s : api.State)
        → All (λ t. t.status ≡ pending) ts
        → P s
        → P (api.enqueue ts s).0

  ensure_registered-keeps :
      (m : Manager) (s : api.State) → KeepsEnqueue → P s → P (ensure_registered api m s).1
  unfolding ensure_registered
  ensure_registered-keeps m s k h = elim (Bool-cases m.registered) [
    | inl already ↦ rw already h
    | inr first ↦ elim (Option-cases (api.register_queues m.cfg.queues s).1) [
      | inl e ↦ rw (first, e) (k.registering m.cfg.queues s h)
      | inr (x, e) ↦ rw (first, e) (k.registering m.cfg.queues s h)
    ]
  ]

  plan_and_store-keeps :
      (qp : QueuePolicy) (queue type : Text) (pls : List (Option Text)) (policy : List TaskPolicy)
      (now : Time) (r : Manager × api.State × Option StoreError)
      → KeepsEnqueue
      → P r.1
      → P (plan_and_store api qp queue type pls policy now r).1
  plan_and_store-keeps qp queue type pls policy now (m, s, some e) k h = h
  plan_and_store-keeps qp queue type [] policy now (m, s, none) k h = h
  plan_and_store-keeps qp queue type (pl ∷ pls) policy now (m, s, none) k h =
      planned (plan_tasks m.cfg.default_max_attempts qp queue type (pl ∷ pls) policy now) refl
    where
      planned :
          (o : Outcome? (List Task))
          → plan_tasks m.cfg.default_max_attempts qp queue type (pl ∷ pls) policy now ≡ o
          → P (store_planned api queue m s o).1
      planned (bad e) eq = h
      planned (good ts) eq =
          unfold store_tasks in
          k.enqueueing ts s
            (plan_tasks-pending m.cfg.default_max_attempts qp queue type (pl ∷ pls) policy now ts
              eq)
            h

  -- EnqueueMany keeps whatever the backend keeps when it registers queues and takes pending tasks.
  pub enqueue_many-keeps :
      (m : Manager) (s : api.State) (queue type : Text) (pls : List (Option Text))
      (policy : List TaskPolicy) (now : Time)
      → KeepsEnqueue
      → P s
      → P (enqueue_many api m s queue type pls policy now).1
  unfolding enqueue_many
  enqueue_many-keeps m s queue type pls policy now k h = elim (Bool-cases (text_eq type [])) [
    | inl unnamed ↦ rw unnamed h
    | inr named ↦ elim (Option-cases (find_policy queue m.queues)) [
      | inl e ↦ rw (named, e) h
      | inr (qp, e) ↦
          rw (named, e)
            (plan_and_store-keeps qp queue type pls policy now (ensure_registered api m s) k
              (ensure_registered-keeps m s k h))
    ]
  ]

ids_of-store : (r : Store × Result (List Text)) → (ids_of r).0 ≡ r.0
ids_of-store (s, ok ids) = refl
ids_of-store (s, err e) = refl

-- On a valid memstore EnqueueMany keeps the store's invariant, whatever the arguments: unique keys stay
-- unique among active tasks, and ids distinct.
pub enqueue_many-IsValid :
    (m : Manager) (s : Store) (queue type : Text) (pls : List (Option Text))
    (policy : List TaskPolicy) (now : Time)
    → IsValid s
    → IsValid (enqueue_many mem_api m s queue type pls policy now).1
unfolding register_queues perform
enqueue_many-IsValid m s queue type pls policy now v =
    enqueue_many-keeps mem_api IsValid m s queue type pls policy now
      (record {
        registering = λ qs s' v'. perform-IsValid (registers qs) now s' tt v';
        enqueueing = λ ts s' p v'. rw (ids_of-store (enqueue s' ts)) (enqueue-IsValid s' ts p v');
      })
      v
