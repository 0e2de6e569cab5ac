-- ===== src/Janitor.antt =====
-- janitorLoop, reap and flushMetrics of worker.go.
pub mod Totals
use mathlib.Core.Option
use gotasks.Worker.Buffer.{is_empty}
use gotasks.Task.{Time, zero_time, QueueCounters, before, Duration}
use gotasks.Store.{StoreApi}
use gotasks.Prelude.Text.{Text}
use gotasks.Prelude.Int.{leb_ℤ, ◌-ℤ◌, pos_part, negsuc, eqb_ℤ, pos, ◌+ℤ◌}
use gotasks.Prelude.{
  ◌||◌, [], false, Bool, true, not, map, ◌==◌, some, ◌∷◌, ◌-◌, List, ◌&&◌, none, ℕ, ◌%◌, Option,
  if◌then◌else◌, suc,
}
use gotasks.Options.{JanitorConfig, MetricsConfig}
use gotasks.MemStore.Metrics.{no_counters}
use gotasks.Manager.State.{Manager}
use gotasks.Manager.New.{is_none}

-- time.Time.Truncate: down to a multiple of `d` since the zero time.
abbrev pub remainder : Time → ℕ → ℕ
remainder (pos n) d = n % d
remainder (negsuc n) d = (d - suc n % d) % d

unfoldable pub truncate : Time → Duration → Time
truncate t d = if leb_ℤ d (pos 0) then t else t -ℤ pos (remainder t (pos_part d))

-- The variables nextReap, zero if the janitor does not reap, and nextMetrics, none unless metricsOn.
pub record Janitor : Type 0 where
  pub next_reap : Time
  pub next_metrics : Option Time

-- now.Truncate(Interval).Add(Interval), if metrics are on and EnsureMetrics succeeded.
abbrev pub first_window : Bool → Time → Option MetricsConfig → Option Time
first_window ready now none = none
first_window ready now (some mc) =
    if ready then some (truncate now mc.interval +ℤ mc.interval) else none

-- The first part of janitorLoop; `ready` is whether EnsureMetrics succeeds. None if there is nothing
-- to do.
unfoldable pub janitor_start : JanitorConfig → Bool → Time → Option Janitor
janitor_start jc ready now =
    let reap = if jc.no_reap then zero_time else now +ℤ jc.reap_interval in
    let window = first_window ready now jc.metrics in
    if eqb_ℤ reap zero_time && is_none window
    then none
    else some (record { next_reap = reap; next_metrics = window })

-- The time that the loop waits for.
unfoldable pub next_wake : Janitor → Time
next_wake j = elim j.next_metrics [
  | none ↦ j.next_reap
  | some w ↦ if eqb_ℤ j.next_reap zero_time || before w j.next_reap then w else j.next_reap
]

abbrev pub is_zero : QueueCounters → Bool
is_zero c =
    (c.enqueued == 0) && ((c.claimed == 0) && ((c.done == 0) && ((c.failed == 0) && (c.dead == 0))))

-- The entries that are written: qc != (QueueCounters{}).
unfoldable pub to_write : List (Text × QueueCounters) → List (Text × QueueCounters)
to_write [] = []
to_write ((q, c) ∷ cs) = let rest = to_write cs in if is_zero c then rest else (q, c) ∷ rest

-- Swap(0) on every counter.
unfoldable pub reset_counters : Manager → Manager
reset_counters m = record m { counters = Option.map (map (λ x. (x.0, no_counters))) m.counters }

abbrev pub counter_entries : Manager → List (Text × QueueCounters)
counter_entries m = elim m.counters [ none ↦ [] | some cs ↦ cs ]

-- flushMetrics, for the window that started at `window`.
unfoldable pub flush_metrics :
    (api : StoreApi) → Manager → Time → Bool → api.State → Manager × api.State
flush_metrics api m window drain s =
    let snapped = if drain then s else api.snapshot_metrics m.queue_names window s in
    let entries = to_write (counter_entries m) in
    (
      reset_counters m,
      if is_empty entries then snapped else api.record_counters m.manager_id window entries snapped,
    )

-- The readings of the clock in a round of the loop: at the test for reaping, in the store, after
-- reaping, and at the test for the metrics.
pub record Readings : Type 0 where
  pub tested : Time
  pub reaping : Time
  pub reaped : Time
  pub windowed : Time

unfoldable pub reap_round :
    (api : StoreApi) → JanitorConfig → Readings → Janitor → api.State → Janitor × api.State
reap_round api jc r j s =
    if not (eqb_ℤ j.next_reap zero_time) && not (before r.tested j.next_reap)
    then (record j { next_reap = r.reaped +ℤ jc.reap_interval }, (api.reap_expired r.reaping s).0)
    else (j, s)

-- One window at most is closed in a round, the one that ends at next_metrics.
abbrev pub close_window :
    (api : StoreApi)
    → Manager
    → Time
    → Janitor
    → api.State
    → Option MetricsConfig
    → Option Time
    → Manager × Janitor × api.State
close_window api m now j s (some mc) (some w) =
    let flushed = flush_metrics api m (w -ℤ mc.interval) false s in
    if before now w
    then (m, j, s)
    else (flushed.0, record j { next_metrics = some (w +ℤ mc.interval) }, flushed.1)
close_window api m now j s mc w = (m, j, s)

unfoldable pub metrics_round :
    (api : StoreApi)
    → JanitorConfig
    → Readings
    → Manager
    → Janitor
    → api.State
    → Manager × Janitor × api.State
metrics_round api jc r m j s = close_window api m r.windowed j s jc.metrics j.next_metrics

unfoldable pub janitor_round :
    (api : StoreApi)
    → JanitorConfig
    → Readings
    → Manager
    → Janitor
    → api.State
    → Manager × Janitor × api.State
janitor_round api jc r m j s = let x = reap_round api jc r j s in metrics_round api jc r m x.0 x.1

-- What the loop does when the manager stops: the open window is written, without gauges.
abbrev pub drain_window :
    (api : StoreApi)
    → Manager
    → api.State
    → Option MetricsConfig
    → Option Time
    → Manager × api.State
drain_window api m s (some mc) (some w) = flush_metrics api m (w -ℤ mc.interval) true s
drain_window api m s mc w = (m, s)

unfoldable pub janitor_stop :
    (api : StoreApi) → JanitorConfig → Manager → Janitor → api.State → Manager × api.State
janitor_stop api jc m j s = drain_window api m s jc.metrics j.next_metrics
