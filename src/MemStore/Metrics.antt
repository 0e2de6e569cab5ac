-- ===== src/MemStore/Metrics.antt =====
-- The metrics of memstore.go: SnapshotMetrics, RecordCounters, CounterTotals and MetricsCount.
use gotasks.Prelude.{
  ℕ, ◌+◌, Bool, false, not, ◌&&◌, ◌||◌, List, [], ◌∷◌, ◌++◌, length, if◌then◌else◌,
}
use gotasks.Prelude.Int.{eqb_ℤ}
use gotasks.Prelude.Text.{Text, text_eq}
use gotasks.Task.{QueueCounters, Time}
use gotasks.MemStore.State.{Store, Metric, GaugeKey}

abbrev pub no_counters : QueueCounters
no_counters = record { enqueued = 0; claimed = 0; done = 0; failed = 0; dead = 0 }

-- gaugeKeys[key]
unfoldable pub has_gauge : Text → Time → List GaugeKey → Bool
has_gauge q w [] = false
has_gauge q w (k ∷ ks) = (text_eq k.queue q && eqb_ℤ k.window_start w) || has_gauge q w ks

unfoldable pub snapshot_queue : Time → Text → Store → Store
snapshot_queue w q s = if has_gauge q w s.gauge_keys then s else record s {
  gauge_keys = record { queue = q; window_start = w } ∷ s.gauge_keys;
  metrics =
      s.metrics
      ++ record { queue = q; window_start = w; manager_id = []; counters = no_counters } ∷ [];
}

unfoldable pub snapshot_metrics : List Text → Time → Store → Store
snapshot_metrics [] w s = s
snapshot_metrics (q ∷ qs) w s = snapshot_metrics qs w (snapshot_queue w q s)

-- The map from queues to counters is the list of its entries, in the order of the `range`.
unfoldable pub record_counters : Text → Time → List (Text × QueueCounters) → Store → Store
record_counters manager_id w [] s = s
record_counters manager_id w ((q, c) ∷ cs) s = record_counters manager_id w cs (record s {
  metrics =
      s.metrics
      ++ record { queue = q; window_start = w; manager_id = manager_id; counters = c } ∷ [];
})

abbrev pub add_counters : QueueCounters → QueueCounters → QueueCounters
add_counters a b = record {
  enqueued = a.enqueued + b.enqueued;
  claimed = a.claimed + b.claimed;
  done = a.done + b.done;
  failed = a.failed + b.failed;
  dead = a.dead + b.dead;
}

-- The loop of CounterTotals, with the sums so far.
unfoldable pub sum_counters : Text → QueueCounters → List Metric → QueueCounters
sum_counters q out [] = out
sum_counters q out (m ∷ ms) =
    sum_counters q
      (if not (text_eq m.manager_id []) && text_eq m.queue q
        then add_counters out m.counters
        else out)
      ms

unfoldable pub counter_totals : Text → Store → QueueCounters
counter_totals q s = sum_counters q no_counters s.metrics

unfoldable pub metrics_count : Store → ℕ
metrics_count s = length s.metrics
