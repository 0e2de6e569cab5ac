-- ===== src/Worker/Loop.antt =====
-- workerLoop and the heartbeat of worker.go, idleWait of manager.go: the rounds of a worker that
-- claims for itself.
use gotasks.Worker.Buffer.{FinBuffer, buffer_outcome}
use gotasks.Worker.{
  crashed, no_handler, finished, finalize_now, Processed, HandlerRun, process,
  should_buffer_outcome,
}
use gotasks.Task.{Result, Duration, Task, ok, Outcome, Time, lease_lost, err}
use gotasks.Store.{StoreApi}
use gotasks.Prelude.Text.{Text}
use gotasks.Prelude.{if◌then◌else◌, false, Bool, true}
use gotasks.Manager.State.{Manager, claim_options, Event, count}

-- The readings of the clock in a round: in the store for the claim, after the handler's run, at the
-- gate to the buffer, and in the store for the outcome.
pub record WorkTimes : Type 0 where
  pub claiming : Time
  pub ran : Time
  pub gated : Time
  pub writing : Time

-- The end of `process`: the outcome is buffered or written at once.
unfoldable pub deliver :
    (api : StoreApi) → Manager → WorkTimes → Outcome → FinBuffer → api.State → FinBuffer × api.State
deliver api m at o b s =
    if should_buffer_outcome m o.task at.gated
    then (buffer_outcome o at.gated b, s)
    else (b, finalize_now api o at.writing s)

-- How the loop goes on: at once, after idleWait, or not at all, since a panic ended the process.
pub data WorkNext : Type 0 where
  claims_again rests ended : WorkNext

abbrev pub after_run :
    (api : StoreApi)
    → Manager
    → WorkTimes
    → FinBuffer
    → api.State
    → Processed
    → Manager × FinBuffer × api.State × WorkNext
after_run api m at b s no_handler = (m, b, s, claims_again)
after_run api m at b s crashed = (m, b, s, ended)
after_run api m at b s (finished m' o) =
    let x = deliver api m' at o b s in (m', x.0, x.1, claims_again)

abbrev pub after_answer :
    (api : StoreApi)
    → Manager
    → Text
    → (Task → HandlerRun)
    → WorkTimes
    → FinBuffer
    → api.State × Result Task
    → Manager × FinBuffer × api.State × WorkNext
after_answer api m worker_id handler at b (s, err e) = (m, b, s, rests)
after_answer api m worker_id handler at b (s, ok t) =
    let m' = count t.queue Event.claimed 1 m in
    after_run api m' at b s (process m' worker_id t (handler t) at.ran)

-- A round of workerLoop; `handler` is what the handlers do on a task.
unfoldable pub work_round :
    (api : StoreApi)
    → Manager
    → Text
    → (Task → HandlerRun)
    → WorkTimes
    → FinBuffer
    → api.State
    → Manager × FinBuffer × api.State × WorkNext
work_round api m worker_id handler at b s =
    after_answer api m worker_id handler at b
      (api.claim (claim_options m worker_id m.cfg.lease_time) at.claiming s)

-- idleWait: the longest wait for a nudge.
unfoldable pub idle_time : Manager → Bool → Duration
idle_time m watching = if watching then m.cfg.fallback_poll else m.cfg.poll_interval

-- A tick of the heartbeat: the store after it, and whether the lease was lost, so that the handler
-- is cancelled and the ticks end.
abbrev pub is_lost : Result Time → Bool
is_lost (err lease_lost) = true
is_lost _ = false

unfoldable pub heartbeat_tick :
    (api : StoreApi) → Manager → Task → Time → api.State → api.State × Bool
heartbeat_tick api m t now s =
    let x = api.extend_lease t m.cfg.lease_time now s in (x.0, is_lost x.1)
