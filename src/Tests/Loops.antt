-- ===== src/Tests/Loops.antt =====
-- Start, a worker's round and the flush of the metrics.
use gotasks.Worker.Rounds.{IsSound, work_round-IsSound}
use gotasks.Worker.Loop.{WorkTimes, work_round}
use gotasks.Worker.Buffer.{empty_buffer}
use gotasks.Worker.{panics}
use gotasks.Tests.Managers.{manager}
use gotasks.Tests.{with_jobs-IsValid, with_jobs}
use gotasks.Task.{QueueCounters}
use gotasks.Prelude.Text.{Text, text_lt, bytes, text_eq}
use gotasks.Prelude.Int.{pos}
use gotasks.Prelude.{some, refl, true, [], ◌∷◌, ◌≡◌, List, false}
use gotasks.Policies.{find_policy, put_policy}
use gotasks.MemStore.Registry.{register_queues, register}
use gotasks.MemStore.Metrics.{no_counters, counter_totals, add_counters}
use gotasks.MemStore.Api.{mem_api}
use gotasks.Manager.State.{Manager}
use gotasks.Manager.Lifecycle.Running.{Answered, start-Answered}
use gotasks.Manager.Lifecycle.{start, sort_texts, insert_text}
use gotasks.Manager.Enqueue.{ensure_registered}
use gotasks.Janitor.Totals.{pending_totals, flush_metrics-totals}
use gotasks.Janitor.{counter_entries, flush_metrics}

abbrev counted : QueueCounters
counted = record { enqueued = 2; claimed = 1; done = 0; failed = 1; dead = 0 }

abbrev counting : Manager
counting = record manager { counters = some ((bytes "q", counted) ∷ []) }

counting_named : text_eq counting.manager_id [] ≡ false
unfolding text_eq
counting_named = refl

flush_metrics-totals_example :
    (counter_totals (bytes "q") (flush_metrics mem_api counting (pos 0) false with_jobs).1
      ≡ add_counters
          (counter_totals (bytes "q") with_jobs)
          (pending_totals (bytes "q") (counter_entries counting)))
    × (pending_totals
          (bytes "q")
          (counter_entries (flush_metrics mem_api counting (pos 0) false with_jobs).0)
        ≡ no_counters)
flush_metrics-totals_example =
    flush_metrics-totals (bytes "q") counting (pos 0) false with_jobs counting_named

abbrev types : List Text
types = bytes "sms" ∷ bytes "mail" ∷ []

start-Answered_example :
    Answered mem_api manager types true (start mem_api manager types true with_jobs)
start-Answered_example = start-Answered mem_api manager types true with_jobs

-- It succeeds, and sorts the types.
starts : (start mem_api manager types true with_jobs).0.types ≡ bytes "mail" ∷ bytes "sms" ∷ []
unfolding start ensure_registered register_queues register find_policy put_policy sort_texts
    insert_text text_lt
starts = refl

abbrev moments : WorkTimes
moments = record { claiming = pos 20; ran = pos 30; gated = pos 31; writing = pos 32 }

work_round-IsSound_example :
    IsSound
      (work_round mem_api manager
        (bytes "w1")
        (λ t. panics (bytes "oops"))
        moments
        empty_buffer
        with_jobs).1
      (work_round mem_api manager
        (bytes "w1")
        (λ t. panics (bytes "oops"))
        moments
        empty_buffer
        with_jobs).2
work_round-IsSound_example =
    work_round-IsSound manager (bytes "w1") (λ t. panics (bytes "oops")) moments empty_buffer
      with_jobs (record { valid = with_jobs-IsValid; repeatable = unfold empty_buffer in tt })
