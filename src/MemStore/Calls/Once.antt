-- ===== src/MemStore/Calls/Once.antt =====
-- A claim is finalized at most once, and not at all after the task was claimed again.
use mathlib.Core.Path.{subst}
use gotasks.Task.{Time, Task, ClaimOptions, status_eq, ok, Outcome, running}
use gotasks.Prelude.Text.{text_eq, text_eq_of_eq, text_eq_iff}
use gotasks.Prelude.{
  ℕ, ◌≤◌, sym, ap, false, none, ◌∷◌, [], suc, Option-cases, ◌∙◌, inl, refl, true, ◌≡◌, All, inr,
  arith, List,
}
use gotasks.MemStore.TaskMap.{All-find, DistinctIds, find-id, All-put_others}
use gotasks.MemStore.State.{lease_token, put_task, held, Store}
use gotasks.MemStore.Invariant.Calls.{held-found, claim_one-IsValid}
use gotasks.MemStore.Invariant.Batches.{apply_outcome-IsValid}
use gotasks.MemStore.Invariant.{IsIssued, IsIssued-mono, IsValid, TokenIssued}
use gotasks.MemStore.Finalize.{fenced, complete, completed, write, failed, apply_outcome, fail}
use gotasks.MemStore.Claim.Choice.{claim-Taken, claimed_store}
use gotasks.MemStore.Claim.{claimed, claim}
use gotasks.MemStore.Calls.Lost.{run-IsLost}
use gotasks.MemStore.Calls.History.{EnqueuesPending, claim-store}
use gotasks.MemStore.Calls.Fencing.{
  IsLost-Rejects, holds_lease, Unheld, token_fresh, IsLost, Rejects, idle-Unheld,
}
use gotasks.MemStore.Calls.{Call, run}

-- After a write over the task that `copy` names, which takes its lease away, the lease is lost.
put_away-IsLost :
    (copy : Task) (s : Store) (n : ℕ) (c : Task)
    → s.seq ≤ n
    → IsIssued lease_token s.seq copy.lease_token
    → text_eq c.id copy.id ≡ true
    → holds_lease copy.id copy.lease_token c ≡ false
    → DistinctIds s.tasks
    → IsLost copy (record s { seq = n; tasks = put_task c s.tasks })
put_away-IsLost copy s n c le i own off d = record {
  issued = IsIssued-mono lease_token s.seq n copy.lease_token le i;
  unheld = All-put_others (Unheld copy) c s.tasks off (others s.tasks) d;
}
  where
    others : (ts : List Task) → All (λ t. text_eq t.id c.id ≡ false → Unheld copy t) ts
    others [] = tt
    others (t ∷ ts) = (
      λ h.
          unfold holds_lease in
          ground (arith, text_eq_iff t.id c.id, text_eq_iff t.id copy.id, text_eq_iff c.id copy.id),
      others ts,
    )

fenced-once :
    (change : Task → Task) (copy : Task) (s s' : Store)
    → IsValid s
    → ((t : Task) → (change t).id ≡ t.id)
    → ((t : Task) → status_eq (change t).status running ≡ false)
    → fenced change s (held copy.id copy.lease_token s.tasks) ≡ (s', none)
    → IsLost copy s'
fenced-once change copy s s' v same idle h =
    elim (Option-cases (held copy.id copy.lease_token s.tasks)) [
      | inl e ↦ absurd (cc (ap (fenced change s) e))
      | inr (t, e) ↦
          let (found, runs, token) = held-found copy.id copy.lease_token s.tasks t e in
          let written : s' ≡ write (change t) s = ground (arith, ap (fenced change s) e) in
          let issued : IsIssued lease_token s.seq copy.lease_token =
            subst (IsIssued lease_token s.seq) token
              (All-find (TokenIssued s.seq) copy.id s.tasks t v.tokens_issued found runs) in
          subst (IsLost copy) (sym written) (
            put_away-IsLost copy s s.seq (change t) (omega arith) issued
              (text_eq_of_eq (change t).id copy.id (same t ∙ find-id copy.id s.tasks t found))
              (idle-Unheld copy (change t) (idle t)) v.distinct)
    ]

apply_outcome-IsLost :
    (o : Outcome) (now : Time) (s s' : Store)
    → IsValid s
    → apply_outcome o now s ≡ (s', none)
    → IsLost o.task s'
unfolding apply_outcome complete fail
apply_outcome-IsLost o now s s' v h = elim (Option-cases o.failure) [
  | inl e ↦
      fenced-once (completed o.result now) o.task s s' v (λ t. unfold completed in refl)
        (λ t. unfold completed in refl) (rw e at h)
  | inr (x, e) ↦
      fenced-once (failed x o.retry_at o.terminal now) o.task s s' v (λ t. unfold failed in refl)
        (λ t. unfold failed in ground arith) (rw e at h)
]

-- Once the outcome of a claim has been recorded in a valid store, no later Complete, Fail or
-- ExtendLease under that claim's token succeeds, or changes the store, after whatever calls come in
-- between, if they enqueue pending tasks only.
pub finalized_once :
    (o : Outcome) (now : Time) (s s' : Store) (cs : List (Call × Time))
    → IsValid s
    → apply_outcome o now s ≡ (s', none)
    → All (λ c. EnqueuesPending c.0) cs
    → Rejects o.task (run cs s')
finalized_once o now s s' cs v h p =
    let v' : IsValid s' = subst IsValid (ap (λ r. r.0) h) (apply_outcome-IsValid o now s v) in
    IsLost-Rejects o.task (run cs s')
      (run-IsLost o.task cs s' p v' (apply_outcome-IsLost o now s s' v h))

claim-IsLost :
    (copy t : Task) (opts : ClaimOptions) (now : Time) (s s' : Store)
    → IsValid s
    → IsIssued lease_token s.seq copy.lease_token
    → claim opts now s ≡ (s', ok t)
    → t.id ≡ copy.id
    → IsLost copy s'
claim-IsLost copy t opts now s s' v i h own = elim (claim-Taken opts now s v.distinct) [
  | inl (_, e) ↦ absurd (cc)
  | inr (b, found, first, e) ↦
      let c : Task = claimed opts now (suc s.seq) b in
      let same : t ≡ c = ground (arith, h, e) in
      let written : claimed_store opts now s b ≡ s' = ground (arith, h, e) in
      let fresh = token_fresh s.seq copy.lease_token i in
      subst (IsLost copy) written (
        put_away-IsLost copy s (suc s.seq) c (omega arith) i
          (text_eq_of_eq c.id copy.id (ap (λ (x : Task). x.id) (sym same) ∙ own))
          (unfold holds_lease claimed in ground arith) v.distinct)
]

-- Once a task has been claimed again in a valid store, the worker that held it under a token issued
-- before can neither record an outcome nor extend the lease, after whatever calls come in between,
-- if they enqueue pending tasks only.
pub reclaimed_fences :
    (copy t : Task) (opts : ClaimOptions) (now : Time) (s s' : Store) (cs : List (Call × Time))
    → IsValid s
    → IsIssued lease_token s.seq copy.lease_token
    → claim opts now s ≡ (s', ok t)
    → t.id ≡ copy.id
    → All (λ c. EnqueuesPending c.0) cs
    → Rejects copy (run cs s')
reclaimed_fences copy t opts now s s' cs v i h own p =
    let v' : IsValid s' =
      subst IsValid (sym (claim-store opts now s) ∙ ap (λ r. r.0) h)
        (claim_one-IsValid opts now s v) in
    IsLost-Rejects copy (run cs s')
      (run-IsLost copy cs s' p v' (claim-IsLost copy t opts now s s' v i h own))
