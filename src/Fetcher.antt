-- ===== src/Fetcher.antt =====
-- fetcher.go: the claims of pipeline mode, and the handshake before a buffered task runs.
--
-- The channel of fetched tasks is the list of the tasks in it, the oldest first. Where
-- claimCtx ends the loop is modelled in Manager.Shutdown; the hooks are no part of the model.
pub mod Start
pub mod Handshake
pub mod Bounds
pub mod Rounds
use gotasks.Worker.{max_ℤ}
use gotasks.Task.{ok, Time, err, Task, Result}
use gotasks.Store.{StoreApi}
use gotasks.Prelude.Text.{bytes}
use gotasks.Prelude.Int.{quot_ℤ, pos_part, ltb_ℤ, ◌+ℤ◌, ◌-ℤ◌, pos, ℤ}
use gotasks.Prelude.{◌++◌, [], length, if◌then◌else◌, List, ◌∷◌}
use gotasks.Options.{PipelineConfig}
use gotasks.Manager.State.{Event, count, Manager, claim_options}
use gotasks.Manager.New.{min_ℤ}

unfoldable pub low_water : PipelineConfig → ℤ
low_water p = max_ℤ (pos 1) (quot_ℤ p.claim_batch 2)

-- cap(m.taskCh), as Start makes it.
unfoldable pub channel_capacity : Manager → PipelineConfig → ℤ
channel_capacity m p = m.cfg.workers +ℤ p.claim_batch

-- What the fetcher does with a channel that it finds: wait for a worker's nudge, or claim.
pub data FetchStep : Type 0 where
  wait_for_nudge : FetchStep
  claim_up_to : ℤ → FetchStep

unfoldable pub fetch_step : Manager → PipelineConfig → List Task → FetchStep
fetch_step m p channel =
    let free = channel_capacity m p -ℤ pos (length channel) in
    if ltb_ℤ free (low_water p) then wait_for_nudge else claim_up_to (min_ℤ p.claim_batch free)

-- How an iteration of fetcherLoop goes on: at once, after a nudge, after a pause of 10 ms, or after
-- idleWait.
pub data FetchNext : Type 0 where
  again nudge pause idle : FetchNext

-- The tasks of a batch are counted and sent to the channel one by one.
abbrev pub count_claimed : List Task → Manager → Manager
count_claimed [] m = m
count_claimed (t ∷ ts) m = count_claimed ts (count t.queue Event.claimed 1 m)

abbrev pub delivered :
    {S : Type 0}
    → Manager
    → List Task
    → S × Result (List Task)
    → Manager × List Task × S × FetchNext
delivered m channel (s, ok []) = (m, channel, s, pause)
delivered m channel (s, ok (t ∷ ts)) = (count_claimed (t ∷ ts) m, channel ++ t ∷ ts, s, again)
delivered m channel (s, err e) = (m, channel, s, idle)

abbrev pub fetched :
    (api : StoreApi)
    → Manager
    → PipelineConfig
    → List Task
    → Time
    → api.State
    → FetchStep
    → Manager × List Task × api.State × FetchNext
fetched api m p channel now s wait_for_nudge = (m, channel, s, nudge)
fetched api m p channel now s (claim_up_to k) =
    let options = claim_options m (m.manager_id ++ bytes ".fetcher") p.queue_lease in
    delivered m channel (api.claim_batch options (pos_part k) now s)

-- An iteration of fetcherLoop.
unfoldable pub fetch_once :
    (api : StoreApi)
    → Manager
    → PipelineConfig
    → List Task
    → Time
    → api.State
    → Manager × List Task × api.State × FetchNext
fetch_once api m p channel now s = fetched api m p channel now s (fetch_step m p channel)
