-- ===== src/Tests.antt =====
-- Tests of the models on small inputs, and what they share: two jobs, two workers, and the histories
-- of a memstore that holds the jobs.
use gotasks.Prelude.Decimal.{decimal}
use gotasks.MemStore.Invariant.Calls.{claim_one-IsValid}
use gotasks.MemStore.Enqueue.{conflict, insert, enqueue}
use gotasks.MemStore.Claim.{
  earlier, improve, claimable, take_best, admits, claim, runnable, claim_one, pick, claimed,
}
use mathlib.Core.Path.{subst}
pub mod Claims
pub mod Recording
pub mod Upkeep
pub mod Managers
pub mod Workers
pub mod Loops
pub mod Collections
pub mod Watching
pub mod Lives
pub mod Fleets
pub mod Metrics
pub mod Stopping
pub mod Handling
pub mod Overviews
use gotasks.Worker.{errors}
use gotasks.Task.{ok, running, zero_time, ClaimOptions, pending, Task, Time}
use gotasks.Prelude.Text.{text_lt, text_eq, contains, bytes, Text}
use gotasks.Prelude.Int.{◌+ℤ◌, pos}
use gotasks.Prelude.{sym, ap, ◌∙◌, ℕ, ◌≡◌, refl, false, List, ◌∷◌, none, []}
use gotasks.MemStore.State.{active_key_holder, put_task, task_id, lease_token, Store, new}
use gotasks.MemStore.Registry.{queues}
use gotasks.MemStore.Invariant.{IsValid}
use gotasks.MemStore.Calls.History.{claim-store, run-new-IsValid}
use gotasks.MemStore.Calls.{perform, claims, enqueues, run, Call}

abbrev pub job : Text → Task
job key = record {
  id = [];
  queue = bytes "q";
  type = bytes "mail";
  unique_key = key;
  payload = bytes "{}";
  status = pending;
  attempts = 0;
  max_attempts = pos 3;
  run_at = pos 10;
  expires_at = none;
  leased_by = [];
  leased_until = zero_time;
  lease_token = [];
  errors = [];
  result = [];
  created_at = pos 10;
  updated_at = pos 10;
}

-- As the store keeps them.
abbrev pub first_job : Task
first_job = record (job (bytes "k")) { id = bytes "task-1" }

abbrev pub second_job : Task
second_job = record (job []) { id = bytes "task-2" }

abbrev pub worker : Text → ClaimOptions
worker id = record {
  worker_id = id;
  types = bytes "mail" ∷ [];
  queues = bytes "q" ∷ [];
  fifo = false;
  lease = pos 50;
}

-- The copies that the claims hand out.
abbrev pub first_claim : Task
first_claim = record first_job {
  status = running;
  attempts = 1;
  leased_by = bytes "w1";
  lease_token = bytes "lease-3";
  leased_until = pos 70;
  updated_at = pos 20;
}

abbrev pub second_claim : Task
second_claim = record first_job {
  status = running;
  attempts = 2;
  leased_by = bytes "w2";
  lease_token = bytes "lease-4";
  leased_until = pos 150;
  updated_at = pos 100;
}

abbrev pub holding : ℕ → List Task → Store
holding seq tasks = record {
  seq = seq;
  tasks = tasks;
  registry = [];
  metrics = [];
  gauge_keys = [];
  force_lease_lost = false;
}

abbrev pub with_jobs : Store
with_jobs = holding 2 (first_job ∷ second_job ∷ [])

abbrev pub with_claim : Store
with_claim = holding 3 (first_claim ∷ second_job ∷ [])

abbrev pub with_second_claim : Store
with_second_claim = holding 4 (second_claim ∷ second_job ∷ [])

abbrev pub enqueued_history : List (Call × Time)
enqueued_history = (enqueues (job (bytes "k") ∷ job [] ∷ []), pos 10) ∷ []

enqueued_jobs : run enqueued_history new ≡ with_jobs
unfolding run perform enqueue conflict text_eq active_key_holder new insert put_task task_id decimal
enqueued_jobs = refl

pub claims_first : claim (worker (bytes "w1")) (pos 20) with_jobs ≡ (with_claim, ok first_claim)
unfolding claim claim_one take_best text_eq pick put_task decimal claimable admits contains runnable
    claimed earlier improve lease_token ◌+ℤ◌ text_lt
claims_first = refl

pub claims_second :
    claim (worker (bytes "w2")) (pos 100) with_claim ≡ (with_second_claim, ok second_claim)
unfolding claim claim_one take_best text_eq pick put_task decimal claimable admits contains runnable
    claimed earlier improve lease_token ◌+ℤ◌ text_lt
claims_second = refl

pub with_jobs-IsValid : IsValid with_jobs
with_jobs-IsValid =
    subst IsValid enqueued_jobs (run-new-IsValid enqueued_history ((refl, (refl, tt)), tt))

pub with_claim-IsValid : IsValid with_claim
with_claim-IsValid =
    subst IsValid
      (sym (claim-store (worker (bytes "w1")) (pos 20) with_jobs) ∙ ap (λ r. r.0) claims_first)
      (claim_one-IsValid (worker (bytes "w1")) (pos 20) with_jobs with_jobs-IsValid)
