-- ===== src/Tests/Recording.antt =====
-- Outcomes of the first job, once it was claimed.
use gotasks.MemStore.Finalize.Entries.{lost_count, finalize_batch-apply_all, apply_all}
use gotasks.Tests.{
  claims_second, with_claim-IsValid, with_second_claim, with_claim, second_job, second_claim,
  holding, worker, first_claim,
}
use gotasks.Task.{zero_time, Outcome, Time}
use gotasks.Prelude.Text.{text_eq, bytes}
use gotasks.Prelude.Int.{pos}
use gotasks.Prelude.Decimal.{decimal}
use gotasks.Prelude.{[], false, ◌∷◌, refl, none, arith, ◌≡◌, List}
use gotasks.MemStore.State.{held, put_task, lease_token, Store, check_held, find_task}
use gotasks.MemStore.Invariant.{IsIssued}
use gotasks.MemStore.Finalize.{finalize_batch, completed, apply_outcome, complete}
use gotasks.MemStore.Calls.Once.{finalized_once, reclaimed_fences}
use gotasks.MemStore.Calls.Fencing.{Rejects}
use gotasks.MemStore.Calls.{reaps, Call, extends, run}

later : List (Call × Time)
later = (extends first_claim (pos 50), pos 110) ∷ (reaps, pos 500) ∷ []

succeeded : Outcome
succeeded = record {
  task = first_claim;
  result = bytes "sent";
  failure = none;
  retry_at = zero_time;
  terminal = false;
}

with_done : Store
with_done = holding 3 (completed (bytes "sent") (pos 30) first_claim ∷ second_job ∷ [])

done_recorded : apply_outcome succeeded (pos 30) with_claim ≡ (with_done, none)
unfolding succeeded with_done apply_outcome complete held find_task check_held text_eq put_task
    completed
done_recorded = refl

finalized_once_example : Rejects succeeded.task (run later with_done)
finalized_once_example =
    finalized_once succeeded (pos 30) with_claim with_done later with_claim-IsValid done_recorded
      (unfold later in (tt, (tt, tt)))

first_token : IsIssued lease_token 3 first_claim.lease_token
unfolding lease_token decimal
first_token = (3, omega arith, refl)

reclaimed_fences_example : Rejects first_claim (run later with_second_claim)
reclaimed_fences_example =
    reclaimed_fences first_claim second_claim (worker (bytes "w2")) (pos 100) with_claim
      with_second_claim later with_claim-IsValid first_token claims_second refl
      (unfold later in (tt, (tt, tt)))

-- The same outcome twice: the second entry has lost its lease.
twice : List (Outcome × Time)
twice = (succeeded, pos 30) ∷ (succeeded, pos 31) ∷ []

finalize_batch-apply_all_example :
    finalize_batch twice with_claim
    ≡ (apply_all twice with_claim, lost_count twice with_claim, none)
finalize_batch-apply_all_example = finalize_batch-apply_all twice with_claim
