-- ===== src/Mongo/Metrics.antt =====
-- metrics.go and MetricsSeries of introspection.go: the documents of the metrics collection, how they
-- are written, and the points that are read from them.
pub mod Points
pub mod Sorted
pub mod Series
use gotasks.Mongo.Docs.{TaskDoc}
use gotasks.Mongo.Driver.{Tasks, Reply, got, lost}
use gotasks.Mongo.Listing.{MetricPoint, sort_metric_points}
use gotasks.Mongo.Overview.{count_status, oldest_due, due_age}
use gotasks.Mongo.Registry.{milliseconds}
use gotasks.Prelude.{
  ℕ, Bool, List, [], ◌∷◌, Option, none, some, true, false, ◌&&◌, if◌then◌else◌, map,
}
use gotasks.Prelude.Int.{ℤ, pos, ◌+ℤ◌, eqb_ℤ, leb_ℤ}
use gotasks.Prelude.Text.{Text, text_eq}
use gotasks.Task.{
  QueueCounters, Duration, Time, Result, ok, err, StoreError, other, pending, running, done, dead,
}

pub data Kind : Type 0 where
  gauges counters : Kind

pub record MetricDoc : Type 0 where
  pub queue : Text
  pub window_start : Time
  pub window_ms : ℤ
  pub kind : Kind
  pub manager_id : Text
  pub pending : ℕ
  pub running : ℕ
  pub done : ℕ
  pub dead : ℕ
  pub oldest_due_age_ms : ℤ
  pub enqueued : ℕ
  pub claimed : ℕ
  pub c_done : ℕ
  pub c_failed : ℕ
  pub c_dead : ℕ

-- A group of the aggregation.
pub record CounterSums : Type 0 where
  pub window : Time
  pub enqueued : ℕ
  pub claimed : ℕ
  pub c_done : ℕ
  pub c_failed : ℕ
  pub c_dead : ℕ

-- `refused` has a duplicate key among its errors, `failed` has none.
pub data Insertion : Type 0 where
  inserted refused failed : Insertion

pub record Metrics : Type 1 where
  pub State : Type 0
  pub docs : State → List MetricDoc
  pub insert_one : MetricDoc → State → State × Insertion
  -- Unordered.
  pub insert_many : List MetricDoc → State → State × Insertion
  pub find : (MetricDoc → Bool) → State → Reply (List MetricDoc)
  -- The documents that match, grouped by the start of their window, with sums of their counters.
  pub sum_by_window : (MetricDoc → Bool) → State → Reply (List CounterSums)

-- The filters of MetricsSeries.
abbrev pub is_kind : Kind → Kind → Bool
is_kind gauges gauges = true
is_kind counters counters = true
is_kind _ _ = false

unfoldable pub series_filter : Text → Kind → (from : Time) → MetricDoc → Bool
series_filter queue kind from d =
    text_eq d.queue queue && (is_kind kind d.kind && leb_ℤ from d.window_start)

abbrev pub blank : Time → MetricPoint
blank w = record {
  window_start = w;
  pending = 0;
  running = 0;
  done = 0;
  dead = 0;
  oldest_due_age_ms = pos 0;
  enqueued = pos 0;
  claimed = pos 0;
  c_done = pos 0;
  c_failed = pos 0;
  c_dead = pos 0;
}

-- A change of the point of a window, which is made if there is none. The source keeps the points in a
-- Go map.
unfoldable pub at_window : (MetricPoint → MetricPoint) → Time → List MetricPoint → List MetricPoint
at_window f w [] = f (blank w) ∷ []
at_window f w (p ∷ ps) =
    let rest = at_window f w ps in if eqb_ℤ p.window_start w then f p ∷ ps else p ∷ rest

abbrev pub with_gauges : MetricDoc → MetricPoint → MetricPoint
with_gauges g p = record p {
  pending = g.pending;
  running = g.running;
  done = g.done;
  dead = g.dead;
  oldest_due_age_ms = g.oldest_due_age_ms;
}

abbrev pub with_sums : CounterSums → MetricPoint → MetricPoint
with_sums c p = record p {
  enqueued = pos c.enqueued;
  claimed = pos c.claimed;
  c_done = pos c.c_done;
  c_failed = pos c.c_failed;
  c_dead = pos c.c_dead;
}

-- The loops over the gauges and over the sums.
module _ {A : Type 0} (window_of : A → Time) (change : A → MetricPoint → MetricPoint) where
  unfoldable pub put_each : List A → List MetricPoint → List MetricPoint
  put_each [] ps = ps
  put_each (x ∷ xs) ps = put_each xs (at_window (change x) (window_of x) ps)

abbrev pub put_gauges : List MetricDoc → List MetricPoint → List MetricPoint
put_gauges = put_each (λ g. g.window_start) with_gauges

abbrev pub put_sums : List CounterSums → List MetricPoint → List MetricPoint
put_sums = put_each (λ c. c.window) with_sums

abbrev pub series : Reply (List MetricDoc) → Reply (List CounterSums) → Result (List MetricPoint)
series lost sums = err other
series (got gs) lost = err other
series (got gs) (got cs) = ok (sort_metric_points (put_sums cs (put_gauges gs [])))

module _ (m : Metrics) where
  -- The collection may change between the two reads.
  unfoldable pub metrics_series :
      (queue : Text) → (from : Time) → m.State → m.State → Result (List MetricPoint)
  metrics_series queue from s later =
      series (m.find (series_filter queue gauges from) s)
        (m.sum_by_window (series_filter queue counters from) later)

  abbrev pub counter_doc :
      (manager_id : Text)
      → (window_start : Time) → (window : Duration) → Text × QueueCounters
      → MetricDoc
  counter_doc manager_id window_start window (queue, c) = record {
    queue = queue;
    window_start = window_start;
    window_ms = milliseconds window;
    kind = counters;
    manager_id = manager_id;
    pending = 0;
    running = 0;
    done = 0;
    dead = 0;
    oldest_due_age_ms = pos 0;
    enqueued = c.enqueued;
    claimed = c.claimed;
    c_done = c.done;
    c_failed = c.failed;
    c_dead = c.dead;
  }

  -- A duplicate is no error.
  abbrev pub recorded : m.State × Insertion → m.State × Option StoreError
  recorded (s, inserted) = (s, none)
  recorded (s, refused) = (s, none)
  recorded (s, failed) = (s, some other)

  unfoldable pub record_counters :
      (manager_id : Text)
      → (window_start : Time) → Duration
      → List (Text × QueueCounters)
      → m.State
      → m.State × Option StoreError
  record_counters manager_id window_start window [] s = (s, none)
  record_counters manager_id window_start window (e ∷ es) s =
      recorded (m.insert_many (map (counter_doc manager_id window_start window) (e ∷ es)) s)

  module _ (c : Tasks) where
    abbrev pub gauge_doc :
        (queue : Text)
        → (window_start : Time) → Duration
        → (now : Time) → (counts_p counts_r counts_d counts_x : Reply ℕ) → Reply (Option TaskDoc)
        → Option MetricDoc
    gauge_doc queue window_start window now (got a) (got b) (got d) (got x) (got oldest) =
        some (record {
          queue = queue;
          window_start = window_start;
          window_ms = milliseconds window;
          kind = gauges;
          manager_id = [];
          pending = a;
          running = b;
          done = d;
          dead = x;
          oldest_due_age_ms = due_age c now oldest;
          enqueued = 0;
          claimed = 0;
          c_done = 0;
          c_failed = 0;
          c_dead = 0;
        })
    gauge_doc queue window_start window now _ _ _ _ _ = none

    -- What is read of a queue: another manager may have written the gauges of the window already.
    abbrev pub gauges_of :
        (window_start : Time) → Duration → (now : Time) → (Text → c.State) → Text → Option MetricDoc
    gauges_of window_start window now tasks queue =
        let s = tasks queue in
        gauge_doc queue window_start window now (count_status c queue pending s)
          (count_status c queue running s) (count_status c queue done s)
          (count_status c queue dead s) (oldest_due c queue now s)

    abbrev pub after_gauges :
        (m.State → m.State × Option StoreError)
        → m.State × Option StoreError
        → m.State × Option StoreError
    after_gauges rest (s, none) = rest s
    after_gauges rest (s, some e) = (s, some e)

    abbrev pub insert_gauges : Option MetricDoc → m.State → m.State × Option StoreError
    insert_gauges none s = (s, some other)
    insert_gauges (some d) s = recorded (m.insert_one d s)

    unfoldable pub snapshot_metrics :
        (queues : List Text)
        → (window_start : Time) → Duration
        → (now : Time) → (Text → c.State)
        → m.State
        → m.State × Option StoreError
    snapshot_metrics [] window_start window now tasks s = (s, none)
    snapshot_metrics (q ∷ qs) window_start window now tasks s =
        after_gauges (λ s. snapshot_metrics qs window_start window now tasks s)
          (insert_gauges (gauges_of window_start window now tasks q) s)
