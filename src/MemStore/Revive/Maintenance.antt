-- ===== src/MemStore/Revive/Maintenance.antt =====
-- What ReapExpired and RequeueDead of memstore.go leave behind.
use gotasks.Prelude.Text.{Text}
use gotasks.Task.{pending, dead}
use gotasks.Task.{Task, status_eq, running, Time, before}
use gotasks.Prelude.{
  Bool-cases, ◌⊎◌, inl, inr, ◌++◌, count_if, List, map, [], ◌&&◌, ◌≡◌, ◌∷◌, arith, true, ℕ, refl,
  Bool, ◌+◌, false, All,
}
use gotasks.Prelude.Int.{pos, ◌<ℤ◌, ◌≤ℤ◌}
use gotasks.MemStore.State.{Store}
use gotasks.MemStore.Revive.{
  reap_message, is_dead_of, requeue_dead, reap_expired, requeued, where_true, reaped, is_exhausted,
}
use gotasks.MemStore.Claim.{runnable}

abbrev is_dead : Task → Bool
is_dead t = status_eq t.status dead

-- A running task whose lease has expired.
unfoldable pub is_stale : Time → Task → Bool
is_stale now t = status_eq t.status running && before t.leased_until now

-- A task that the reaper is to bury: its worker is gone, and no attempt is left.
abbrev pub MustDie : Time → Task → Type 0
MustDie now t = (t.status ≡ running) × (t.leased_until <ℤ now) × (t.max_attempts ≤ℤ pos t.attempts)

-- It is dead, without a holder or a key, with one more error than before, which names the worker.
pub record IsBuried (now : Time) (t u : Task) : Type 0 where
  pub died : u.status ≡ dead
  pub free : (u.leased_by ≡ []) × (u.lease_token ≡ []) × (u.unique_key ≡ [])
  pub noted :
      u.errors
      ≡ t.errors
        ++ record { at = now; attempt = t.attempts; worker = t.leased_by; message = reap_message }
          ∷ []
  pub same : (u.id ≡ t.id) × (u.payload ≡ t.payload) × (u.attempts ≡ t.attempts)

-- Entry by entry: what must die is buried, and any other task stays as it is.
abbrev pub ReapedFrom : Time → List Task → List Task → Type 0
ReapedFrom now [] [] = Unit
ReapedFrom now (t ∷ ts) (u ∷ us) =
    ((MustDie now t × IsBuried now t u) ⊎ ((MustDie now t → ⊥) × (u ≡ t))) × ReapedFrom now ts us
ReapedFrom now ts us = ⊥

pub record Reaping (now : Time) (s : Store) (r : Store × ℕ) : Type 0 where
  pub entries : ReapedFrom now s.tasks r.0.tasks
  pub stale_runnable : All (λ t. is_stale now t ≡ true → runnable now t ≡ true) r.0.tasks
  pub deaths : count_if is_dead r.0.tasks ≡ count_if is_dead s.tasks + r.1
  pub same_rest : r.0 ≡ record s { tasks = r.0.tasks }

module _ (now : Time) where
  reap : Task → Task
  reap t = where_true (is_exhausted now) (reaped now) t

  exhausted-MustDie : (t : Task) → is_exhausted now t ≡ true → MustDie now t
  unfolding is_exhausted
  exhausted-MustDie t h = ground arith

  MustDie-exhausted : (t : Task) → MustDie now t → is_exhausted now t ≡ true
  unfolding is_exhausted
  MustDie-exhausted t (r, e, a) = ground arith

  reaped-IsBuried : (t : Task) → IsBuried now t (reaped now t)
  unfolding reaped
  reaped-IsBuried t = record {
    died = refl;
    free = (refl, refl, refl);
    noted = refl;
    same = (refl, refl, refl);
  }

  reaped-from : (ts : List Task) → ReapedFrom now ts (map reap ts)
  unfolding reap
  reaped-from [] = tt
  reaped-from (t ∷ ts) = (
    elim (Bool-cases (is_exhausted now t)) [
      | inl hit ↦ rw hit (inl (exhausted-MustDie t hit, reaped-IsBuried t))
      | inr miss ↦ rw miss (inr ((λ k. absurd (ground (arith, MustDie-exhausted t k))), refl))
    ],
    reaped-from ts,
  )

  deaths :
      (ts : List Task)
      → count_if is_dead (map reap ts) ≡ count_if is_dead ts + count_if (is_exhausted now) ts
  unfolding is_exhausted reaped reap
  deaths [] = refl
  deaths (t ∷ ts) = ground (arith, deaths ts)

  stale-runnable : (t : Task) → is_stale now (reap t) ≡ true → runnable now (reap t) ≡ true
  unfolding is_exhausted is_stale runnable reaped reap
  stale-runnable t h = ground (arith, h)

  All-runnable :
      (ts : List Task) → All (λ t. is_stale now t ≡ true → runnable now t ≡ true) (map reap ts)
  All-runnable [] = tt
  All-runnable (t ∷ ts) = (stale-runnable t, All-runnable ts)

-- ReapExpired at a time buries each running task whose lease ended before it and whose attempts are
-- used up, with an error that names its worker, and changes no other task, nor anything else; so every
-- task that is still running past its lease can be claimed at once. The count returned is the number
-- of tasks that died.
pub reap_expired-Reaping : (now : Time) (s : Store) → Reaping now s (reap_expired now s)
unfolding reap_expired reap
reap_expired-Reaping now s = record {
  entries = reaped-from now s.tasks;
  stale_runnable = All-runnable now s.tasks;
  deaths = deaths now s.tasks;
  same_rest = refl;
}

-- A task that was requeued is pending with all its attempts left, and due at once.
pub record IsRevived (now : Time) (t : Task) : Type 0 where
  pub waits : t.status ≡ pending
  pub fresh : t.attempts ≡ 0
  pub due : runnable now t ≡ true
  pub free : (t.leased_by ≡ []) × (t.lease_token ≡ []) × (t.result ≡ [])

requeued-IsRevived : (now : Time) (t : Task) → IsRevived now (requeued now t)
unfolding requeued runnable
requeued-IsRevived now t = record {
  waits = refl;
  fresh = refl;
  due = ground arith;
  free = (refl, refl, refl);
}

-- Entry by entry: a dead task of the type is revived, and any other task stays as it is.
abbrev pub RevivedFrom : Text → Time → List Task → List Task → Type 0
RevivedFrom task_type now [] [] = Unit
RevivedFrom task_type now (t ∷ ts) (u ∷ us) =
    (is_dead_of task_type t ≡ true → IsRevived now u × (u.id ≡ t.id) × (u.payload ≡ t.payload))
    × (is_dead_of task_type t ≡ false → u ≡ t)
    × RevivedFrom task_type now ts us
RevivedFrom task_type now ts us = ⊥

revived-from :
    (task_type : Text) (now : Time) (ts : List Task)
    → RevivedFrom task_type now ts (map (where_true (is_dead_of task_type) (requeued now)) ts)
unfolding requeued
revived-from task_type now [] = tt
revived-from task_type now (t ∷ ts) = (
  λ h. rw h (requeued-IsRevived now t, refl, refl),
  λ h. rw h refl,
  revived-from task_type now ts,
)

none_dead :
    (task_type : Text) (now : Time) (ts : List Task)
    → count_if (is_dead_of task_type) (map (where_true (is_dead_of task_type) (requeued now)) ts)
      ≡ 0
unfolding is_dead_of requeued
none_dead task_type now [] = refl
none_dead task_type now (t ∷ ts) = ground (arith, none_dead task_type now ts)

-- RequeueDead revives each dead task of the type, or of every type if none is named, and only these,
-- and returns how many they are; afterwards no such task is dead.
pub requeue_dead-RevivedFrom :
    (task_type : Text) (now : Time) (s : Store)
    → RevivedFrom task_type now s.tasks (requeue_dead task_type now s).0.tasks
      × ((requeue_dead task_type now s).1 ≡ count_if (is_dead_of task_type) s.tasks)
      × (count_if (is_dead_of task_type) (requeue_dead task_type now s).0.tasks ≡ 0)
unfolding requeue_dead
requeue_dead-RevivedFrom task_type now s =
    (revived-from task_type now s.tasks, refl, none_dead task_type now s.tasks)
