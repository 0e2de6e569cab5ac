-- ===== src/MemStore/Invariant/Batches.antt =====
-- So do the calls that add tasks or go through many of them.
use gotasks.Task.{dead, StoreError, lease_lost, Outcome, ClaimOptions, Task, status_eq, Time}
use gotasks.Prelude.Text.{Text}
use gotasks.Prelude.{
  none, [], zero, arith, ◌∷◌, some, inr, inl, Option-cases, suc, List, ℕ, Bool-cases, ◌≡◌, Option,
}
use gotasks.MemStore.TaskMap.{All-find, find_own}
use gotasks.MemStore.State.{is_active, find_task, Store}
use gotasks.MemStore.Revive.{
  reap_expired, reaped, is_exhausted, requeue_found, requeued, is_dead_of, requeue, where_true,
  requeue_dead,
}
use gotasks.MemStore.Invariant.Put.{map-IsValid, TakesNoKey, put-IsValid}
use gotasks.MemStore.Invariant.Calls.{complete-IsValid, claim_one-IsValid, fail-IsValid}
use gotasks.MemStore.Invariant.{IsValid, KeyReleased, TokenIssued}
use gotasks.MemStore.Finalize.{after_entry, apply_outcome, finalize_batch}
use gotasks.MemStore.Claim.{after_claim, claim_loop, claim_one}

after_claim-IsValid :
    (rest : Store → Store × List Task) (r : Store × Option Task)
    → ((s : Store) → IsValid s → IsValid (rest s).0)
    → IsValid r.0
    → IsValid (after_claim rest r).0
after_claim-IsValid rest (s, none) ih v = v
after_claim-IsValid rest (s, some t) ih v = ih s v

pub claim_loop-IsValid :
    (k : ℕ) (opts : ClaimOptions) (now : Time) (s : Store)
    → IsValid s
    → IsValid (claim_loop k opts now s).0
unfolding claim_loop
claim_loop-IsValid zero opts now s v = v
claim_loop-IsValid (suc k) opts now s v =
    after_claim-IsValid (claim_loop k opts now) (claim_one opts now s)
      (claim_loop-IsValid k opts now) (claim_one-IsValid opts now s v)

pub apply_outcome-IsValid :
    (o : Outcome) (now : Time) (s : Store) → IsValid s → IsValid (apply_outcome o now s).0
unfolding apply_outcome
apply_outcome-IsValid o now s v = elim (Option-cases o.failure) [
  | inl e ↦ rw e (complete-IsValid o.task o.result now s v)
  | inr (x, e) ↦ rw e (fail-IsValid o.task x o.retry_at o.terminal now s v)
]

after_entry-IsValid :
    (rest : Store → Store × ℕ × Option StoreError) (r : Store × Option StoreError)
    → ((s : Store) → IsValid s → IsValid (rest s).0)
    → IsValid r.0
    → IsValid (after_entry rest r).0
after_entry-IsValid rest (s, none) ih v = ih s v
after_entry-IsValid rest (s, some lease_lost) ih v = ih s v
after_entry-IsValid rest (s, some _) ih v = v

pub finalize_batch-IsValid :
    (os : List (Outcome × Time)) (s : Store) → IsValid s → IsValid (finalize_batch os s).0
unfolding finalize_batch
finalize_batch-IsValid [] s v = v
finalize_batch-IsValid ((o, now) ∷ os) s v =
    after_entry-IsValid (finalize_batch os) (apply_outcome o now s) (finalize_batch-IsValid os)
      (apply_outcome-IsValid o now s v)

pub requeue-IsValid :
    (id : Text) (now : Time) (s : Store) → IsValid s → IsValid (requeue id now s).0
unfolding requeue requeue_found
requeue-IsValid id now s v = elim (Option-cases (find_task id s.tasks)) [
  | inl e ↦ rw e v
  | inr (t, e) ↦ elim (Bool-cases (status_eq t.status dead)) [
    | inr alive ↦ rw (e, requeue_found, alive) v
    | inl is_dead ↦
        let no_key : t.unique_key ≡ [] =
          All-find _ id s.tasks t v.keys_released e (unfold is_active in ground arith) in
        rw (e, requeue_found, is_dead)
          (put-IsValid s s.seq t (requeued now t) v (omega arith)
            (unfold requeued in find_own id s.tasks t e) (inl (unfold requeued in no_key))
            (λ h. unfold requeued in no_key) (λ h. absurd (unfold requeued in cc)))
  ]
]

pub requeue_dead-IsValid :
    (task_type : Text) (now : Time) (s : Store)
    → IsValid s
    → IsValid (requeue_dead task_type now s).0
unfolding requeue_dead requeued is_dead_of
requeue_dead-IsValid task_type now s v =
    map-IsValid s (where_true (is_dead_of task_type) (requeued now)) (λ t. ground arith)
      (λ t r. no_key t r) (λ t r. released t r) (λ t i. token t i) v
  where
    no_key :
        (t : Task)
        → KeyReleased t
        → TakesNoKey t (where_true (is_dead_of task_type) (requeued now) t)
    no_key t r = unfold is_active in ground (arith, r)

    released :
        (t : Task)
        → KeyReleased t
        → KeyReleased (where_true (is_dead_of task_type) (requeued now) t)
    released t r = unfold is_active in ground (arith, r)

    token :
        (t : Task)
        → TokenIssued s.seq t
        → TokenIssued s.seq (where_true (is_dead_of task_type) (requeued now) t)
    token t i = elim (Bool-cases (is_dead_of task_type t)) [
      | inl hit ↦ rw hit (λ e. absurd (cc))
      | inr miss ↦ rw miss i
    ]

pub reap_expired-IsValid : (now : Time) (s : Store) → IsValid s → IsValid (reap_expired now s).0
unfolding reap_expired reaped is_exhausted
reap_expired-IsValid now s v =
    map-IsValid s (where_true (is_exhausted now) (reaped now)) (λ t. ground arith) (λ t r. no_key t)
      (λ t r. released t r) (λ t i. token t i) v
  where
    no_key : (t : Task) → TakesNoKey t (where_true (is_exhausted now) (reaped now) t)
    no_key t = unfold is_active in ground arith

    released :
        (t : Task) → KeyReleased t → KeyReleased (where_true (is_exhausted now) (reaped now) t)
    released t r = unfold is_active in ground (arith, r)

    token :
        (t : Task)
        → TokenIssued s.seq t
        → TokenIssued s.seq (where_true (is_exhausted now) (reaped now) t)
    token t i = elim (Bool-cases (is_exhausted now t)) [
      | inl hit ↦ rw hit (λ e. absurd (cc))
      | inr miss ↦ rw miss i
    ]
