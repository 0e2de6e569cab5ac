-- ===== src/Worker.antt =====
-- worker.go: from a handler's run to the recorded outcome.
pub mod Outcomes
pub mod Buffer
pub mod Flush
pub mod Loop
pub mod Rounds
use gotasks.Task.{Outcome, Task, Duration, zero_time, Time}
use gotasks.Store.{StoreApi}
use gotasks.Prelude.Text.{Text, contains, bytes}
use gotasks.Prelude.Int.{wrap64, leb_ℤ, quot_ℤ, eqb_ℤ, ◌+ℤ◌, ◌*ℤ◌, ltb_ℤ, ◌-ℤ◌, ℤ, pos}
use gotasks.Prelude.{if◌then◌else◌, Option, not, Bool, ◌++◌, some, none, [], false, ◌&&◌, ◌*◌}
use gotasks.Options.{PipelineConfig, second}
use gotasks.Manager.State.{Event, count, Manager}

-- What a handler does when it is called.
pub data HandlerRun : Type 0 where
  returns : Text → HandlerRun
  errors : Text → HandlerRun
  panics : Text → HandlerRun

-- What `invoke` makes of it: a result, or the message of an error.
pub data Handled : Type 0 where
  value : Text → Handled
  fault : Text → Handled

-- A panic is an error like any other; `v` is the panic's value as %v prints it.
unfoldable pub invoke : HandlerRun → Handled
invoke (returns r) = value r
invoke (errors e) = fault e
invoke (panics v) = fault (bytes "panic: " ++ v)

-- The end of `process`: the outcome that goes on to finalization. Without one the task had no
-- handler, or the backoff strategy panicked and took the process down.
pub data Processed : Type 0 where
  no_handler crashed : Processed
  finished : Manager → Outcome → Processed

-- t.Attempts >= t.MaxAttempts
unfoldable pub is_terminal : Task → Bool
is_terminal t = leb_ℤ t.max_attempts (pos t.attempts)

unfoldable pub failure_outcome : Text → Task → Text → Time → Duration → Outcome
failure_outcome worker_id t e now delay = record {
  task = t;
  result = [];
  failure = some (record { at = now; attempt = t.attempts; worker = worker_id; message = e });
  retry_at = now +ℤ delay;
  terminal = is_terminal t;
}

unfoldable pub success_outcome : Task → Text → Outcome
success_outcome t r = record {
  task = t;
  result = r;
  failure = none;
  retry_at = zero_time;
  terminal = false;
}

-- m.cfg.Backoff.Next(t.Attempts), which New has checked to be set.
unfoldable pub next_delay : Manager → Task → Option Duration
next_delay m t = elim m.cfg.backoff [ none ↦ none | some b ↦ b (pos t.attempts) ]

abbrev pub fail_with : Manager → Text → Task → Text → Time → Option Duration → Processed
fail_with m worker_id t e now none = crashed
fail_with m worker_id t e now (some delay) =
    finished (count t.queue (if is_terminal t then Event.dead else Event.failed) 1 m)
      (failure_outcome worker_id t e now delay)

unfoldable pub conclude : Manager → Text → Task → Time → Handled → Processed
conclude m worker_id t now (value r) = finished (count t.queue Event.done 1 m) (success_outcome t r)
conclude m worker_id t now (fault e) = fail_with m worker_id t e now (next_delay m t)

-- `now` is the time after the handler's run.
unfoldable pub process : Manager → Text → Task → HandlerRun → Time → Processed
process m worker_id t run now =
    if contains m.types t.type then conclude m worker_id t now (invoke run) else no_handler

abbrev pub max_ℤ : ℤ → ℤ → ℤ
max_ℤ a b = if ltb_ℤ a b then b else a

-- finMargin = max(4 * FinalizeInterval, 2s), set by Start.
unfoldable pub fin_margin : PipelineConfig → Duration
fin_margin p = max_ℤ (wrap64 (pos 4 *ℤ p.finalize_interval)) (pos (2 * second))

-- t.MaxAttempts == 1, or time.Until(t.LeasedUntil) < finMargin: write at once.
unfoldable pub should_buffer_outcome : Manager → Task → Time → Bool
should_buffer_outcome m t now = elim m.cfg.pipeline [
  | none ↦ false
  | some p ↦
      not p.no_finalize
      && (not (eqb_ℤ t.max_attempts (pos 1)) && leb_ℤ (fin_margin p) (t.leased_until -ℤ now))
]

-- The interval of startHeartbeat, or none if it starts nothing.
unfoldable pub heartbeat_every : Duration → Duration → Option Duration
heartbeat_every interval lease_time =
    let every = if ltb_ℤ interval (pos 0) then quot_ℤ lease_time 3 else interval in
    if leb_ℤ every (pos 0) then none else some every

-- finalizeNow: the write, whose error is only logged.
unfoldable pub finalize_now : (api : StoreApi) → Outcome → Time → api.State → api.State
finalize_now api o now s = elim o.failure [
  | some e ↦ (api.fail o.task e o.retry_at o.terminal now s).0
  | none ↦ (api.complete o.task o.result now s).0
]
