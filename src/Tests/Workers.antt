-- ===== src/Tests/Workers.antt =====
-- Workers, the finalize buffer and the fetcher.
use gotasks.Fetcher.Rounds.{fetch_once-Fits, FitsAfter}
use gotasks.Worker.Outcomes.{Settled, process-Settled}
use gotasks.Worker.Flush.{
  entered, buffer_run, add, BufferEvent, take_all, flusher_step-IsSafeStep, IsSafeStep,
}
use gotasks.Worker.Buffer.{empty_buffer, flusher_step}
use gotasks.Worker.{
  invoke, process, finalize_now, conclude, failure_outcome, next_delay, errors, is_terminal,
  finished,
}
use gotasks.Tests.Managers.{settled, manager}
use gotasks.Tests.{with_jobs-IsValid, with_jobs, with_claim, first_claim}
use gotasks.Task.{Outcome, Task, TaskError}
use gotasks.Prelude.Text.{contains, text_eq, bytes}
use gotasks.Prelude.Int.{pos, ◌+ℤ◌, quot_ℤ, wrap64}
use gotasks.Prelude.{some, refl, ◌∷◌, List, ◌+◌, false, [], ◌≡◌, arith, ◌*◌}
use gotasks.Options.{second, millisecond, PipelineConfig}
use gotasks.MemStore.State.{find_task, held, check_held}
use gotasks.MemStore.Api.{mem_api}
use gotasks.Manager.State.{count, add_at}
use gotasks.Manager.New.{default_config}
use gotasks.Fetcher.Start.{start_of_work}
use gotasks.Fetcher.Handshake.{start_of_work-Handshaken, Handshaken}
use gotasks.Fetcher.Bounds.{fetch_step-IsFetchStep, IsFetchStep}
use gotasks.Fetcher.{channel_capacity, fetch_once, fetch_step}
use gotasks.Backoff.{at_least_one, exponential_delay, double_loop, exponential_backoff, with_jitter}

abbrev boom : TaskError
boom = record { at = pos 40; attempt = 1; worker = bytes "w1"; message = bytes "boom" }

abbrev failure : Outcome
failure = record {
  task = first_claim;
  result = [];
  failure = some boom;
  retry_at = pos (40 + 30 * second);
  terminal = false;
}

runs :
    process manager (bytes "w1") first_claim (errors (bytes "boom")) (pos 40)
    ≡ finished manager failure
unfolding process conclude invoke contains text_eq next_delay failure_outcome is_terminal count
    add_at exponential_backoff exponential_delay double_loop with_jitter at_least_one wrap64 ◌+ℤ◌
    quot_ℤ default_config
runs = refl

delays : next_delay manager first_claim ≡ some (pos (30 * second))
unfolding next_delay exponential_backoff exponential_delay double_loop with_jitter at_least_one
    wrap64 ◌+ℤ◌ quot_ℤ default_config
delays = refl

holds : held first_claim.id first_claim.lease_token with_claim.tasks ≡ some first_claim
unfolding held find_task check_held text_eq
holds = refl

process-Settled_example :
    (v : Task) × (find_task first_claim.id (finalize_now mem_api failure (pos 45) with_claim).tasks
      ≡ some v)
    × Settled
        (bytes "w1")
        first_claim
        first_claim
        v
        (pos 40)
        (pos (30 * second))
        (invoke (errors (bytes "boom")))
process-Settled_example =
    process-Settled manager manager (bytes "w1") first_claim first_claim (errors (bytes "boom"))
      (pos 40) (pos 45) (pos (30 * second)) failure with_claim runs delays holds

abbrev pipeline : PipelineConfig
pipeline = record {
  claim_batch = pos 32;
  queue_lease = pos (60 * second);
  finalize_batch = pos 64;
  finalize_interval = pos (300 * millisecond);
  no_finalize = false;
}

abbrev additions : List BufferEvent
additions = add failure (pos 40) ∷ take_all ∷ add failure (pos 60) ∷ []

flusher_step-IsSafeStep_example :
    IsSafeStep pipeline
      (pos 65)
      (entered additions [])
      (buffer_run additions empty_buffer)
      (flusher_step pipeline (pos 65) (buffer_run additions empty_buffer))
flusher_step-IsSafeStep_example = flusher_step-IsSafeStep pipeline (pos 65) additions (omega arith)

fetch_step-IsFetchStep_example :
    IsFetchStep manager pipeline (first_claim ∷ []) (fetch_step manager pipeline (first_claim ∷ []))
unfolding default_config
fetch_step-IsFetchStep_example =
    fetch_step-IsFetchStep manager pipeline (first_claim ∷ []) (omega arith) (omega arith)

start_of_work-Handshaken_example :
    Handshaken first_claim settled.lease_time
      (pos 30)
      (pos 31)
      with_claim
      (start_of_work mem_api manager first_claim (pos 30) (pos 31) (pos 32) with_claim)
start_of_work-Handshaken_example =
    start_of_work-Handshaken manager first_claim (pos 30) (pos 31) (pos 32) with_claim

fetch_once-Fits_example :
    FitsAfter pipeline (fetch_once mem_api manager pipeline [] (pos 20) with_jobs)
unfolding default_config
fetch_once-Fits_example =
    fetch_once-Fits manager pipeline [] (pos 20) with_jobs (omega arith) (omega arith) (omega arith)
      (record {
        valid = with_jobs-IsValid;
        bounded = unfold channel_capacity default_config ◌+ℤ◌ in omega arith;
      })
