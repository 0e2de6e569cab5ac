-- ===== src/Fleet.antt =====
-- Any number of managers over one memstore: what their workers, clients and janitors do to the store,
-- one act after the other, each under the store's mutex. A worker may record an outcome or renew a
-- lease under any copy that a claim ever handed out, once or several times, at once or after it
-- waited in the finalize buffer, or never, if its process died.
pub mod Budget
pub mod Acts
pub mod Ends
pub mod Revivals
pub mod Runs
use gotasks.Prelude.Text.{Text, text_eq}
use gotasks.Prelude.Int.{◌≤ℤ◌, pos}
use gotasks.Prelude.{[], ℕ, All, ◌∷◌, none, zero, Option, count_if, ◌≡◌, some, List, suc}
use gotasks.Worker.{process, Processed, no_handler, crashed, finished, HandlerRun, finalize_now}
use gotasks.MemStore.Claim.{claim, claim_batch}
use gotasks.MemStore.Finalize.{extend_lease}
use gotasks.MemStore.Revive.{requeue, requeue_dead, reap_expired}
use gotasks.MemStore.Enqueue.{enqueue}
use gotasks.MemStore.Api.{mem_api}
use gotasks.Manager.State.{Manager}
use gotasks.Task.{pending, ok, err, Result, Task, ClaimOptions, Duration, Time}
use gotasks.MemStore.State.{Store, new}

pub record Fleet : Type 0 where
  pub store : Store
  -- The copies that claims have handed to workers, the last one first.
  pub handed : List Task

pub data Act : Type 0 where
  submit : List Task → Act
  take : ClaimOptions → Act
  take_batch : ClaimOptions → ℕ → Act
  -- The copy, the worker with its manager, what the handler did and when it stopped.
  end_run : ℕ → Manager → (worker_id : Text) → HandlerRun → Time → Act
  renew : ℕ → Duration → Act
  revive : Text → Act
  revive_dead : Text → Act
  sweep : Act

abbrev pub copy_at : ℕ → List Task → Option Task
copy_at i [] = none
copy_at zero (c ∷ cs) = some c
copy_at (suc i) (c ∷ cs) = copy_at i cs

-- One after the other.
abbrev pub hand_all : List Task → List Task → List Task
hand_all [] hs = hs
hand_all (t ∷ ts) hs = hand_all ts (t ∷ hs)

abbrev pub handed_one : List Task → Store × Result Task → Fleet
handed_one hs (s, ok t) = record { store = s; handed = t ∷ hs }
handed_one hs (s, err e) = record { store = s; handed = hs }

abbrev pub handed_batch : List Task → Store × Result (List Task) → Fleet
handed_batch hs (s, ok ts) = record { store = s; handed = hand_all ts hs }
handed_batch hs (s, err e) = record { store = s; handed = hs }

-- The end of a run, written by the worker or by the flusher.
abbrev pub settled : Time → Store → Processed → Store
settled now s no_handler = s
settled now s crashed = s
settled now s (finished m o) = finalize_now mem_api o now s

abbrev pub with_copy : (Task → Store → Store) → Fleet → Option Task → Fleet
with_copy work f none = f
with_copy work f (some t) = record f { store = work t f.store }

unfoldable pub act : Act → Time → Fleet → Fleet
act (submit ts) now f = record f { store = (enqueue f.store ts).0 }
act (take opts) now f = handed_one f.handed (claim opts now f.store)
act (take_batch opts k) now f = handed_batch f.handed (claim_batch opts k now f.store)
act (end_run i m worker_id run stopped) now f =
    with_copy (λ t s. settled now s (process m worker_id t run stopped)) f (copy_at i f.handed)
act (renew i lease) now f = with_copy (λ t s. (extend_lease t lease now s).0) f (copy_at i f.handed)
act (revive id) now f = record f { store = (requeue id now f.store).0 }
act (revive_dead task_type) now f = record f { store = (requeue_dead task_type now f.store).0 }
act sweep now f = record f { store = (reap_expired now f.store).0 }

unfoldable pub act_all : List (Act × Time) → Fleet → Fleet
act_all [] f = f
act_all ((x, now) ∷ xs) f = act_all xs (act x now f)

abbrev pub no_work : Fleet
no_work = record { store = new; handed = [] }

-- What EnqueueMany hands to the store.
abbrev pub IsNew : Task → Type 0
IsNew t = (t.status ≡ pending) × (t.attempts ≡ 0) × (pos 1 ≤ℤ t.max_attempts)

abbrev pub SubmitsNew : Act → Type 0
SubmitsNew (submit ts) = All IsNew ts
SubmitsNew _ = Unit

-- How often dead tasks were requeued.
unfoldable pub revivals : List (Act × Time) → ℕ
revivals [] = 0
revivals ((revive id, now) ∷ xs) = suc (revivals xs)
revivals ((revive_dead task_type, now) ∷ xs) = suc (revivals xs)
revivals ((_, now) ∷ xs) = revivals xs

-- How often a task was handed to a worker.
abbrev pub runs_of : Text → List Task → ℕ
runs_of id hs = count_if (λ c. text_eq c.id id) hs
