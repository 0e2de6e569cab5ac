-- ===== src/Worker/Rounds.antt =====
-- The rounds of a worker on memstore.
use gotasks.Worker.Loop.{WorkTimes, deliver, work_round, WorkNext, after_run, after_answer}
use gotasks.Worker.Buffer.{buffer_outcome, FinBuffer}
use gotasks.Prelude.Text.{Text}
use gotasks.Prelude.Int.{eqb_ℤ, pos}
use gotasks.MemStore.Claim.{claim}
use gotasks.MemStore.Calls.History.{claim-store}
use gotasks.Manager.State.{Manager, claim_options}
use mathlib.Core.Path.{subst}
use gotasks.Worker.{
  finished, HandlerRun, should_buffer_outcome, crashed, Processed, no_handler, finalize_now,
}
use gotasks.Task.{Task, Result, err, ok, Time, Outcome}
use gotasks.Prelude.{
  arith, false, Bool-cases, All-append, sym, ◌≡◌, ◌∷◌, [], true, ◌++◌, All, Option-cases, inl, inr,
}
use gotasks.MemStore.State.{Store}
use gotasks.MemStore.Invariant.Calls.{claim_one-IsValid, fail-IsValid, complete-IsValid}
use gotasks.MemStore.Invariant.{IsValid}
use gotasks.MemStore.Api.{mem_api}

finalize_now-IsValid :
    (o : Outcome) (now : Time) (s : Store) → IsValid s → IsValid (finalize_now mem_api o now s)
unfolding finalize_now
finalize_now-IsValid o now s v = elim (Option-cases o.failure) [
  | inl succeeded ↦ rw succeeded (complete-IsValid o.task o.result now s v)
  | inr (e, h) ↦ rw h (fail-IsValid o.task e o.retry_at o.terminal now s v)
]

-- No outcome of a task that may run once only waits in the buffer.
abbrev pub MayRepeat : Outcome → Type 0
MayRepeat o = eqb_ℤ o.task.max_attempts (pos 1) ≡ false

pub record IsSound (b : FinBuffer) (s : Store) : Type 0 where
  pub valid : IsValid s
  pub repeatable : All MayRepeat b.outcomes

buffered-MayRepeat :
    (m : Manager) (t : Task) (now : Time)
    → should_buffer_outcome m t now ≡ true
    → eqb_ℤ t.max_attempts (pos 1) ≡ false
unfolding should_buffer_outcome
buffered-MayRepeat m t now h = ground arith

buffer_outcome-outcomes :
    (o : Outcome) (now : Time) (b : FinBuffer)
    → (buffer_outcome o now b).outcomes ≡ b.outcomes ++ o ∷ []
unfolding buffer_outcome
buffer_outcome-outcomes o now b = ground arith

deliver-IsSound :
    (m : Manager) (at : WorkTimes) (o : Outcome) (b : FinBuffer) (s : Store)
    → IsSound b s
    → IsSound (deliver mem_api m at o b s).0 (deliver mem_api m at o b s).1
unfolding deliver
deliver-IsSound m at o b s v = elim (Bool-cases (should_buffer_outcome m o.task at.gated)) [
  | inl gated ↦ rw gated (record {
    valid = v.valid;
    repeatable = subst (All MayRepeat) (sym (buffer_outcome-outcomes o at.gated b)) (
        All-append MayRepeat b.outcomes (o ∷ []) v.repeatable
          (buffered-MayRepeat m o.task at.gated gated, tt));
  })
  | inr direct ↦
      rw direct
        (record { valid = finalize_now-IsValid o at.writing s v.valid; repeatable = v.repeatable })
]

abbrev Soundness : Manager × FinBuffer × Store × WorkNext → Type 0
Soundness (m, b, s, next) = IsSound b s

after_run-IsSound :
    (m : Manager) (at : WorkTimes) (b : FinBuffer) (s : Store) (p : Processed)
    → IsSound b s
    → Soundness (after_run mem_api m at b s p)
after_run-IsSound m at b s no_handler v = v
after_run-IsSound m at b s crashed v = v
after_run-IsSound m at b s (finished m' o) v = deliver-IsSound m' at o b s v

after_answer-IsSound :
    (m : Manager) (worker_id : Text) (handler : Task → HandlerRun) (at : WorkTimes) (b : FinBuffer)
    (r : Store × Result Task)
    → IsSound b r.0
    → Soundness (after_answer mem_api m worker_id handler at b r)
after_answer-IsSound m worker_id handler at b (s, err e) v = v
after_answer-IsSound m worker_id handler at b (s, ok t) v = after_run-IsSound _ at b s _ v

-- A round of a worker on memstore, whatever its handlers do and whenever its steps are taken, keeps
-- the store's invariant, and never leaves the outcome of a task that may run only once in the
-- buffer.
pub work_round-IsSound :
    (m : Manager) (worker_id : Text) (handler : Task → HandlerRun) (at : WorkTimes) (b : FinBuffer)
    (s : Store)
    → IsSound b s
    → IsSound
        (work_round mem_api m worker_id handler at b s).1
        (work_round mem_api m worker_id handler at b s).2
unfolding work_round
work_round-IsSound m worker_id handler at b s v =
    let opts = claim_options m worker_id m.cfg.lease_time in
    let claimed_valid : IsValid (claim opts at.claiming s).0 =
      subst IsValid (sym (claim-store opts at.claiming s))
        (claim_one-IsValid opts at.claiming s v.valid) in
    after_answer-IsSound m worker_id handler at b (claim opts at.claiming s)
      (record { valid = claimed_valid; repeatable = v.repeatable })
