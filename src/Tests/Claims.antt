-- ===== src/Tests/Claims.antt =====
-- Claims of memstore on two jobs.
use gotasks.MemStore.Claim.{claimed}
use gotasks.Tests.{first_job, with_jobs, enqueued_history, second_job, with_jobs-IsValid, worker}
use gotasks.Task.{Task, ok, no_task, err}
use gotasks.Prelude.Text.{bytes, text_eq_iff, Text, text_eq}
use gotasks.Prelude.Int.{pos}
use gotasks.Prelude.{length, arith, ◌≡◌, count_if, [], none, ◌∷◌, some, ◌⊎◌, refl, min}
use gotasks.MemStore.State.{new, find_task}
use gotasks.MemStore.Invariant.{IsValid}
use gotasks.MemStore.Claim.Independence.{pick-SameMap}
use gotasks.MemStore.Claim.Choice.{IsFirst, NoneClaimable, claim-Taken, claimed_store}
use gotasks.MemStore.Claim.Batch.{length-claim_loop}
use gotasks.MemStore.Claim.{pick, claimable, claim_loop, claim}
use gotasks.MemStore.Calls.History.{run-new-IsValid}
use gotasks.MemStore.Calls.{run}

claim-Taken_example :
    (NoneClaimable (worker (bytes "w1")) (pos 20) with_jobs.tasks
      × (claim (worker (bytes "w1")) (pos 20) with_jobs ≡ (with_jobs, err no_task)))
    ⊎ ((b : Task) × (find_task b.id with_jobs.tasks ≡ some b)
        × IsFirst (worker (bytes "w1")) (pos 20) b with_jobs.tasks
        × (claim (worker (bytes "w1")) (pos 20) with_jobs ≡ (
          claimed_store (worker (bytes "w1")) (pos 20) with_jobs b,
          ok (claimed (worker (bytes "w1")) (pos 20) 3 b),
        )))
claim-Taken_example =
    claim-Taken (worker (bytes "w1")) (pos 20) with_jobs with_jobs-IsValid.distinct

length-claim_loop_example :
    length (claim_loop 5 (worker (bytes "w1")) (pos 20) with_jobs).1
    ≡ min 5 (count_if (claimable (worker (bytes "w1")) (pos 20)) with_jobs.tasks)
length-claim_loop_example =
    length-claim_loop (worker (bytes "w1")) (pos 20) 5 with_jobs with_jobs-IsValid.distinct
      (omega arith)

swapped : (id : Text) → find_task id with_jobs.tasks ≡ find_task id (second_job ∷ first_job ∷ [])
unfolding find_task
swapped id = ground (arith, text_eq_iff first_job.id id, text_eq_iff second_job.id id)

pick-SameMap_example :
    pick (worker (bytes "w1")) (pos 20) none with_jobs.tasks
    ≡ pick (worker (bytes "w1")) (pos 20) none (second_job ∷ first_job ∷ [])
pick-SameMap_example =
    pick-SameMap (worker (bytes "w1")) (pos 20) with_jobs.tasks (second_job ∷ first_job ∷ [])
      with_jobs-IsValid.distinct (unfold text_eq in ((refl, tt), (tt, tt))) swapped

run-new-IsValid_example : IsValid (run enqueued_history new)
run-new-IsValid_example = run-new-IsValid enqueued_history ((refl, (refl, tt)), tt)
