-- ===== src/Tests/Metrics.antt =====
-- A metrics collection with the gauges of one window and the counters of two managers.
use mathlib.Core.Path.{subst}
use gotasks.Mongo.Driver.{got}
use gotasks.Mongo.Metrics.{
  Metrics, MetricDoc, CounterSums, gauges, counters, failed, series_filter, metrics_series,
}
use gotasks.Mongo.Metrics.Points.{first_of}
use gotasks.Mongo.Metrics.Series.{
  matching, add_sums, AreSums, IsMetrics, IsSeries, metrics_series-IsSeries,
}
use gotasks.Prelude.{
  ℕ, ◌≤◌, ◌≡◌, refl, arith, Bool-cases, true, inl, inr, List, [], ◌∷◌, none, some, count_if,
  if◌then◌else◌, ap, false, sym, ◌∙◌,
}
use gotasks.Prelude.Int.{pos, eqb_ℤ}
use gotasks.Prelude.Text.{Text, bytes}
use gotasks.Task.{Time}

abbrev counter_doc : Text → Time → ℕ → MetricDoc
counter_doc manager w n = record {
  queue = bytes "q";
  window_start = w;
  window_ms = pos 60;
  kind = counters;
  manager_id = manager;
  pending = 0;
  running = 0;
  done = 0;
  dead = 0;
  oldest_due_age_ms = pos 0;
  enqueued = n;
  claimed = n;
  c_done = n;
  c_failed = 0;
  c_dead = 0;
}

abbrev gauge_doc : Time → MetricDoc
gauge_doc w = record (counter_doc [] w 0) { kind = gauges; pending = 7; oldest_due_age_ms = pos 30 }

abbrev two_managers : List MetricDoc
two_managers =
    counter_doc (bytes "a") (pos 120) 2
    ∷ gauge_doc (pos 60)
    ∷ counter_doc (bytes "a") (pos 60) 3
    ∷ counter_doc (bytes "b") (pos 60) 4
    ∷ []

-- The aggregation, with the sums of each window in a list.
unfoldable add_group : MetricDoc → List CounterSums → List CounterSums
add_group d [] = add_sums d.window_start d none ∷ []
add_group d (c ∷ cs) =
    let rest = add_group d cs in
    if eqb_ℤ c.window d.window_start then add_sums d.window_start d (some c) ∷ cs else c ∷ rest

unfoldable group : List MetricDoc → List CounterSums
group [] = []
group (d ∷ ds) = add_group d (group ds)

add_group-same :
    (d : MetricDoc) (cs : List CounterSums)
    → first_of (λ c. c.window) d.window_start (add_group d cs)
      ≡ some (add_sums d.window_start d (first_of (λ c. c.window) d.window_start cs))
unfolding add_group
add_group-same d [] = ground arith
add_group-same d (c ∷ cs) = ground (arith, add_group-same d cs)

add_group-other :
    (w : Time) (d : MetricDoc) (cs : List CounterSums)
    → eqb_ℤ d.window_start w ≡ false
    → first_of (λ c. c.window) w (add_group d cs) ≡ first_of (λ c. c.window) w cs
unfolding add_group
add_group-other w d [] h = ground arith
add_group-other w d (c ∷ cs) h = ground (arith, add_group-other w d cs h)

abbrev sums_in : Time → List CounterSums → ℕ
sums_in w cs = count_if (λ c. eqb_ℤ c.window w) cs

sums_in-other :
    (w : Time) (d : MetricDoc) (cs : List CounterSums)
    → eqb_ℤ d.window_start w ≡ false
    → sums_in w (add_group d cs) ≡ sums_in w cs
unfolding add_group
sums_in-other w d [] h = rw h refl
sums_in-other w d (c ∷ cs) h = elim (Bool-cases (eqb_ℤ c.window d.window_start)) [
  | inl here ↦ let miss : eqb_ℤ c.window w ≡ false = ground arith in rw (here, h, miss) refl
  | inr other ↦ rw (other, sums_in-other w d cs h) refl
]

sums_in-same :
    (d : MetricDoc) (cs : List CounterSums)
    → sums_in d.window_start cs ≤ 1
    → sums_in d.window_start (add_group d cs) ≤ 1
unfolding add_group
sums_in-same d [] h = ground arith
sums_in-same d (c ∷ cs) h = elim (Bool-cases (eqb_ℤ c.window d.window_start)) [
  | inl here ↦
      let self : eqb_ℤ d.window_start d.window_start ≡ true = ground arith in
      rw (here, self) (rw here at h)
  | inr other ↦ rw (other, other) (sums_in-same d cs (rw other at h))
]

group-AreSums : (ds : List MetricDoc) → AreSums ds (group ds)
unfolding group
group-AreSums [] w = (refl, omega arith)
group-AreSums (d ∷ ds) w =
    let (same, one) = group-AreSums ds w in
    elim (Bool-cases (eqb_ℤ d.window_start w)) [
      | inl here ↦
          let e : d.window_start ≡ w = ground arith in
          (
            rw here (
                subst
                  (λ v.
                    first_of (λ c. c.window) v (add_group d (group ds))
                    ≡ some (add_sums v d (first_of (λ c. c.window) v (group ds))))
                  e (add_group-same d (group ds))
                ∙ ap (λ o. some (add_sums w d o)) same),
            subst (λ v. sums_in v (add_group d (group ds)) ≤ 1) e
                (sums_in-same d (group ds) (subst (λ v. sums_in v (group ds) ≤ 1) (sym e) one)),
          )
      | inr miss ↦
          let k = sums_in-other w d (group ds) miss in
          (rw miss (add_group-other w d (group ds) miss ∙ same), omega (arith, k, one))
    ]

abbrev recorded_metrics : Metrics
recorded_metrics = record {
  State = Unit;
  docs = λ s. two_managers;
  insert_one = λ d s. (s, failed);
  insert_many = λ ds s. (s, failed);
  find = λ t s. got (matching t two_managers);
  sum_by_window = λ t s. got (group (matching t two_managers));
}

recorded_metrics-IsMetrics : IsMetrics recorded_metrics
unfolding series_filter
recorded_metrics-IsMetrics = record {
  finds = λ t s. inr refl;
  sums = λ t s. inr (_, refl, group-AreSums (matching t two_managers));
  identity = λ queue from w s. ground arith;
}

metrics_series-IsSeries_example :
    IsSeries
      (matching (series_filter (bytes "q") gauges (pos 60)) two_managers)
      (matching (series_filter (bytes "q") counters (pos 60)) two_managers)
      (metrics_series recorded_metrics (bytes "q") (pos 60) tt tt)
metrics_series-IsSeries_example =
    metrics_series-IsSeries recorded_metrics recorded_metrics-IsMetrics (bytes "q") (pos 60) tt tt
