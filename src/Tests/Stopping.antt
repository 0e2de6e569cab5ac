-- ===== src/Tests/Stopping.antt =====
-- A manager with four workers that is stopped while one of them runs a task.
use gotasks.Fetcher.{fetch_step, channel_capacity, low_water}
use gotasks.Manager.Shutdown.{
  Pool, Turn, stops, fetcher_looks, claim_returns, fetcher_sends, fetcher_leaves, worker_takes,
  worker_ends, worker_leaves, closer_closes, flusher_decides, flusher_drains, janitor_leaves,
  take_turn, take_turns, spawned_pool, all_out,
}
use gotasks.Manager.Shutdown.Ending.{IsEnded, CanMove, stopped_pool_ends}
use gotasks.Manager.Shutdown.Measure.{work_left}
use gotasks.Manager.New.{default_config}
use gotasks.Options.{PipelineConfig, second, millisecond}
use gotasks.Prelude.{
  ◌≤◌, ◌≡◌, refl, arith, ◌*◌, true, false, ◌⊎◌, List, [], ◌∷◌, length, Option, some, none,
}
use gotasks.Prelude.Int.{pos, ◌+ℤ◌, ◌-ℤ◌, quot_ℤ}
use gotasks.Task.{Outcome}
use gotasks.Tests.{first_claim}
use gotasks.Tests.Managers.{manager}
use gotasks.Worker.Buffer.{flusher_step, buffer_outcome, empty_buffer}

abbrev pipeline : PipelineConfig
pipeline = record {
  claim_batch = pos 32;
  queue_lease = pos (60 * second);
  finalize_batch = pos 64;
  finalize_interval = pos (300 * millisecond);
  no_finalize = false;
}

abbrev success : Outcome
success = record {
  task = first_claim;
  result = [];
  failure = none;
  retry_at = pos 0;
  terminal = false;
}

abbrev a_batch : List Turn
a_batch =
    flusher_decides (pos 5)
    ∷ fetcher_looks
    ∷ claim_returns (first_claim ∷ first_claim ∷ [])
    ∷ fetcher_sends
    ∷ worker_takes
    ∷ stops
    ∷ []

abbrev an_end : List Turn
an_end =
    worker_leaves
    ∷ worker_leaves
    ∷ worker_leaves
    ∷ fetcher_leaves
    ∷ worker_ends (some success) (pos 40)
    ∷ worker_leaves
    ∷ closer_closes
    ∷ janitor_leaves
    ∷ flusher_drains
    ∷ []

abbrev start : Pool
start = spawned_pool 4 true (pos 0)

abbrev pool_of : Option Pool → Pool
pool_of none = start
pool_of (some p) = p

-- After the turns of the batch, and at the end.
abbrev stopped : Pool
stopped = pool_of (take_turns manager pipeline a_batch start)

abbrev ended : Pool
ended = pool_of (take_turns manager pipeline an_end stopped)

reaches_stop : take_turns manager pipeline a_batch start ≡ some stopped
unfolding take_turns take_turn fetch_step channel_capacity low_water ◌+ℤ◌ quot_ℤ flusher_step
    empty_buffer ◌-ℤ◌ default_config
reaches_stop = refl

is_stopped : stopped.cancelled ≡ true
unfolding take_turns take_turn fetch_step channel_capacity low_water ◌+ℤ◌ quot_ℤ flusher_step
    empty_buffer ◌-ℤ◌ default_config
is_stopped = refl

reaches_end : take_turns manager pipeline an_end stopped ≡ some ended
unfolding take_turns take_turn fetch_step channel_capacity low_water ◌+ℤ◌ quot_ℤ flusher_step
    buffer_outcome empty_buffer ◌-ℤ◌ default_config
reaches_end = refl

all_end : (all_out ended ≡ true) × (ended.flushed ≡ success ∷ [])
unfolding take_turns take_turn fetch_step channel_capacity low_water ◌+ℤ◌ quot_ℤ flusher_step
    buffer_outcome all_out empty_buffer ◌-ℤ◌ default_config
all_end = (refl, refl)

stopped_pool_ends_example :
    (length an_end ≤ work_left pipeline stopped) × (IsEnded ended ⊎ CanMove manager pipeline ended)
stopped_pool_ends_example =
    stopped_pool_ends manager pipeline 4 true (pos 0) a_batch an_end stopped ended (omega arith)
      reaches_stop is_stopped reaches_end
