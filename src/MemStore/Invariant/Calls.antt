-- ===== src/MemStore/Invariant/Calls.antt =====
-- Every call that works on tasks that are there keeps the invariant.
use gotasks.Task.{err, lease_lost, running, Duration, Task, Time, ClaimOptions, TaskError}
use gotasks.Prelude.Text.{Text, text_eq_iff}
use gotasks.Prelude.Int.{◌+ℤ◌}
use gotasks.Prelude.{
  if◌then◌else◌, ◌∙◌, ap, ◌≡◌, Option-cases, refl, some, List, sym, none, arith, Option, false, ℕ,
  true, inr, Bool, suc, inl,
}
use gotasks.MemStore.TaskMap.{find_own, All-find}
use gotasks.MemStore.State.{is_active, find_task, check_held, held, Store}
use gotasks.MemStore.Invariant.Put.{TakesNoKey, put-IsValid}
use gotasks.MemStore.Invariant.{KeyReleased, IsValid, TokenIssued}
use gotasks.MemStore.Finalize.{complete, failed, fail, extend_lease, extended, fenced, completed}
use gotasks.MemStore.Claim.Choice.{claimed_store, claim_one-Taken}
use gotasks.MemStore.Claim.{runnable, claimable, claim_one, claimed}

claimable_active :
    (opts : ClaimOptions) (now : Time) (b : Task) → claimable opts now b ≡ true → is_active b ≡ true
unfolding claimable runnable is_active
claimable_active opts now b h = ground arith

claimed-IsValid :
    (opts : ClaimOptions) (now : Time) (s : Store) (b : Task)
    → IsValid s
    → find_task b.id s.tasks ≡ some b
    → claimable opts now b ≡ true
    → IsValid (claimed_store opts now s b)
unfolding claimed is_active
claimed-IsValid opts now s b v f c =
    put-IsValid s (suc s.seq) b (claimed opts now (suc s.seq) b) v (omega arith) f
      (inr (refl, sym (unfold is_active in claimable_active opts now b c))) (λ h. absurd (cc))
      (λ e. (suc s.seq, omega arith, refl))

pub claim_one-IsValid :
    (opts : ClaimOptions) (now : Time) (s : Store) → IsValid s → IsValid (claim_one opts now s).0
claim_one-IsValid opts now s v = elim (claim_one-Taken opts now s v.distinct) [
  | inl (_, e) ↦ rw e v
  | inr (b, f, first, e) ↦ rw e (claimed-IsValid opts now s b v f first.is_claimable)
]

-- A held task is the running task of that id, under that token.
pub held-found :
    (id token : Text) (ts : List Task) (t : Task)
    → held id token ts ≡ some t
    → (find_task id ts ≡ some t) × (t.status ≡ running) × (t.lease_token ≡ token)
unfolding held check_held
held-found id token ts t h = ground (arith, text_eq_iff t.lease_token token)

-- What a write under a valid lease has to keep.
record Keeps (change : Task → Task) : Type 0 where
  same_id : (t : Task) → (change t).id ≡ t.id
  no_key : (t : Task) → is_active t ≡ true → TakesNoKey t (change t)
  released : (t : Task) → is_active t ≡ true → KeyReleased (change t)
  token : (n : ℕ) (t : Task) → TokenIssued n t → TokenIssued n (change t)

fenced-IsValid :
    (change : Task → Task) (task : Task) (s : Store)
    → Keeps change
    → IsValid s
    → IsValid (fenced change s (held task.id task.lease_token s.tasks)).0
fenced-IsValid change task s k v = elim (Option-cases (held task.id task.lease_token s.tasks)) [
  | inl e ↦ rw e v
  | inr (t, e) ↦
      let (found, runs, _) = held-found task.id task.lease_token s.tasks t e in
      let active : is_active t ≡ true = unfold is_active in rw runs in
      let own : find_task (change t).id s.tasks ≡ some t =
        ap (λ id. find_task id s.tasks) (k.same_id t) ∙ find_own task.id s.tasks t found in
      rw e (
        put-IsValid s s.seq t (change t) v (omega arith) own (k.no_key t active)
          (k.released t active)
          (k.token s.seq t (All-find _ task.id s.tasks t v.tokens_issued found)))
]

pub complete-IsValid :
    (task : Task) (result : Text) (now : Time) (s : Store)
    → IsValid s
    → IsValid (complete task result now s).0
unfolding complete completed
complete-IsValid task result now s = fenced-IsValid (completed result now) task s (record {
  same_id = λ t. refl;
  no_key = λ t a. inl refl;
  released = λ t a h. refl;
  token = λ n t h e. absurd (cc);
})

pub fail-IsValid :
    (task : Task) (e : TaskError) (retry_at : Time) (terminal : Bool) (now : Time) (s : Store)
    → IsValid s
    → IsValid (fail task e retry_at terminal now s).0
unfolding fail failed
fail-IsValid task e retry_at true now s =
    fenced-IsValid (failed e retry_at true now) task s (record {
      same_id = λ t. refl;
      no_key = λ t a. inl refl;
      released = λ t a h. refl;
      token = λ n t h k. absurd (cc);
    })
fail-IsValid task e retry_at false now s =
    fenced-IsValid (failed e retry_at false now) task s (record {
      same_id = λ t. refl;
      no_key = λ t a. inr (refl, unfold is_active in sym (unfold is_active in a));
      released = λ t a h. absurd (unfold is_active in cc);
      token = λ n t h k. absurd (cc);
    })

extended-IsValid :
    (task : Task) (lease : Duration) (now : Time) (s : Store) (o : Option Task)
    → held task.id task.lease_token s.tasks ≡ o
    → IsValid s
    → IsValid (extended lease now s o).0
unfolding is_active
extended-IsValid task lease now s none e v = v
extended-IsValid task lease now s (some t) e v =
    let (found, runs, _) = held-found task.id task.lease_token s.tasks t e in
    put-IsValid s s.seq t (record t { leased_until = now +ℤ lease }) v (omega arith)
      (find_own task.id s.tasks t found) (inr (refl, refl))
      (λ h. All-find KeyReleased task.id s.tasks t v.keys_released found h)
      (λ h. All-find (TokenIssued s.seq) task.id s.tasks t v.tokens_issued found h)

pub extend_lease-IsValid :
    (task : Task) (lease : Duration) (now : Time) (s : Store)
    → IsValid s
    → IsValid (extend_lease task lease now s).0
unfolding extend_lease
extend_lease-IsValid task lease now s v =
    by_flag s.force_lease_lost
      (extended-IsValid task lease now s (held task.id task.lease_token s.tasks) refl v)
  where
    by_flag :
        (b : Bool)
        → IsValid (extended lease now s (held task.id task.lease_token s.tasks)).0
        → IsValid
            (if b
              then (s, err lease_lost)
              else extended lease now s (held task.id task.lease_token s.tasks)).0
    by_flag true h = v
    by_flag false h = h
