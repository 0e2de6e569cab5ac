-- ===== src/MemStore/Calls/Fencing.antt =====
-- Lease fencing: a lease that was lost stays lost.
use gotasks.Task.{
  Result, Time, Duration, Task, status_eq, running, err, ClaimOptions, TaskError, lease_lost,
}
use gotasks.Prelude.Text.{text_eq-eq, text_eq, Text}
use gotasks.Prelude.{
  suc, none, true, All-image, Option-cases, ◌≡◌, false, inl, if◌then◌else◌, Bool-cases, ◌&&◌, ◌∙◌,
  map, refl, ℕ, ◌∷◌, inr, arith, some, [], All, ◌≤◌, List, Bool,
}
use gotasks.MemStore.TaskMap.{DistinctIds, All-put, lease_token-injective}
use gotasks.MemStore.State.{held, lease_token, put_task, Store, find_task, check_held}
use gotasks.MemStore.Invariant.{IsIssued, IsIssued-mono}
use gotasks.MemStore.Finalize.{fail, complete, fenced, extend_lease}
use gotasks.MemStore.Claim.Choice.{claim_one-Taken}
use gotasks.MemStore.Claim.{claim_one, claimed}

-- The task is running under this id and token.
unfoldable pub holds_lease : Text → Text → Task → Bool
holds_lease id token t =
    text_eq t.id id && (status_eq t.status running && text_eq t.lease_token token)

-- Nobody runs under the lease of this copy, and its token will not be issued again.
pub record IsLost (copy : Task) (s : Store) : Type 0 where
  pub issued : IsIssued lease_token s.seq copy.lease_token
  pub unheld : All (λ t. holds_lease copy.id copy.lease_token t ≡ false) s.tasks

-- A token issued so far is not the next one.
pub token_fresh :
    (n : ℕ) (x : Text) → IsIssued lease_token n x → text_eq (lease_token (suc n)) x ≡ false
token_fresh n x (k, le, e) = elim (Bool-cases (text_eq (lease_token (suc n)) x)) [
  | inr differs ↦ differs
  | inl same ↦
      let e' : suc n ≡ k = lease_token-injective (suc n) k (text_eq-eq _ x same ∙ e) in
      absurd (omega arith)
]

held-none :
    (id token : Text) (ts : List Task)
    → All (λ t. holds_lease id token t ≡ false) ts
    → held id token ts ≡ none
unfolding held find_task check_held holds_lease
held-none id token [] h = refl
held-none id token (t ∷ ts) h = ground (arith, held-none id token ts h.1)

-- What a lost lease is worth: no outcome is recorded and no lease extended under it.
pub record Rejects (copy : Task) (s : Store) : Type 0 where
  pub complete_rejected :
      (result : Text) (now : Time) → complete copy result now s ≡ (s, some lease_lost)
  pub fail_rejected :
      (e : TaskError) (retry_at : Time) (terminal : Bool) (now : Time)
      → fail copy e retry_at terminal now s ≡ (s, some lease_lost)
  pub extend_rejected :
      (lease : Duration) (now : Time) → extend_lease copy lease now s ≡ (s, err lease_lost)

pub IsLost-Rejects : (copy : Task) (s : Store) → IsLost copy s → Rejects copy s
unfolding complete fail extend_lease
IsLost-Rejects copy s h =
    let e = held-none copy.id copy.lease_token s.tasks h.unheld in
    record {
      complete_rejected = λ result now. rw e;
      fail_rejected = λ x retry_at terminal now. rw e;
      extend_rejected = λ lease now. rw e (either s.force_lease_lost);
    }
  where
    either :
        (b : Bool)
        → ◌≡◌ {A = Store × Result Time}
            (if b then (s, err lease_lost) else (s, err lease_lost))
            (s, err lease_lost)
    either true = refl
    either false = refl

module _ (copy : Task) where
  abbrev pub Unheld : Task → Type 0
  Unheld t = holds_lease copy.id copy.lease_token t ≡ false

  pub put-IsLost :
      (s : Store) (n : ℕ) (c : Task)
      → s.seq ≤ n
      → Unheld c
      → IsLost copy s
      → IsLost copy (record s { seq = n; tasks = put_task c s.tasks })
  put-IsLost s n c le u h = record {
    issued = IsIssued-mono lease_token s.seq n copy.lease_token le h.issued;
    unheld = All-put Unheld c s.tasks u h.unheld;
  }

  -- A task that is not running holds no lease.
  pub idle-Unheld : (t : Task) → status_eq t.status running ≡ false → Unheld t
  unfolding holds_lease
  idle-Unheld t h = ground arith

  pub claim_one-IsLost :
      (opts : ClaimOptions) (now : Time) (s : Store)
      → DistinctIds s.tasks
      → IsLost copy s
      → IsLost copy (claim_one opts now s).0
  claim_one-IsLost opts now s d h = elim (claim_one-Taken opts now s d) [
    | inl (_, e) ↦ rw e h
    | inr (b, _, _, e) ↦
        let fresh = token_fresh s.seq copy.lease_token h.issued in
        rw e (
          put-IsLost s (suc s.seq) (claimed opts now (suc s.seq) b) (omega arith)
            (unfold holds_lease claimed in ground arith) h)
  ]

  pub fenced-IsLost :
      (change : Task → Task) (task : Task) (s : Store)
      → ((t : Task) → status_eq (change t).status running ≡ false)
      → IsLost copy s
      → IsLost copy (fenced change s (held task.id task.lease_token s.tasks)).0
  fenced-IsLost change task s k h = elim (Option-cases (held task.id task.lease_token s.tasks)) [
    | inl e ↦ rw e h
    | inr (t, e) ↦
        rw e (put-IsLost s s.seq (change t) (omega arith) (idle-Unheld (change t) (k t)) h)
  ]

  pub map-IsLost :
      (f : Task → Task) (s : Store)
      → ((t : Task) → Unheld t → Unheld (f t))
      → IsLost copy s
      → IsLost copy (record s { tasks = map f s.tasks })
  map-IsLost f s k h = record {
    issued = h.issued;
    unheld = All-image f Unheld Unheld s.tasks k h.unheld;
  }
