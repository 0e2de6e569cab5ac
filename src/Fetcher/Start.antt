-- ===== src/Fetcher/Start.antt =====
-- startOfWork of fetcher.go.
use gotasks.Task.{Result, before, err, Duration, Time, lease_lost, Task, ok}
use gotasks.Store.{StoreApi}
use gotasks.Prelude.{[], Option, some, if◌then◌else◌, ◌∷◌, none, List}
use gotasks.Options.{second}
use gotasks.Manager.State.{Manager}

-- What one attempt's answer leads to: an answer other than a lost lease is tried again.
abbrev pub attempted :
    {S : Type 0} → Task → (S → S × Option Task) → S × Result Time → S × Option Task
attempted t retry (s, ok until) = (s, some (record t { leased_until = until }))
attempted t retry (s, err lease_lost) = (s, none)
attempted t retry (s, err e) = retry s

-- The attempts to extend the lease, each with the time at which the backend reads the clock.
unfoldable pub extend_attempts :
    (api : StoreApi) → Task → Duration → List Time → api.State → api.State × Option Task
extend_attempts api t lease [] s = (s, none)
extend_attempts api t lease (at ∷ later) s =
    attempted t (extend_attempts api t lease later) (api.extend_lease t lease at s)

-- The task to run, with its new lease, or none if it is dropped. `now` is the time of the check on
-- the worker's own clock, and the other two those of the attempts.
unfoldable pub start_of_work :
    (api : StoreApi) → Manager → Task → Time → Time → Time → api.State → api.State × Option Task
start_of_work api m t now first second s =
    if before now t.leased_until
    then extend_attempts api t m.cfg.lease_time (first ∷ second ∷ []) s
    else (s, none)
