-- ===== src/Mongo/Metrics/Series.antt =====
-- The points of MetricsSeries are those of the documents.
use mathlib.Core.Path.{ap₂}
use gotasks.Mongo.Driver.{got, lost}
use gotasks.Mongo.Listing.{MetricPoint}
use gotasks.Mongo.Metrics.{
  Metrics, MetricDoc, CounterSums, gauges, counters, series_filter, with_gauges, with_sums,
  put_gauges, put_sums, series, metrics_series,
}
use gotasks.Prelude.{
  ◌+◌, ◌≤◌, ◌≡◌, refl, ◌∙◌, arith, Bool, ◌⊎◌, inl, inr, List, [], ◌∷◌, Option, none, some, count_if,
  if◌then◌else◌,
}
use gotasks.Prelude.Int.{eqb_ℤ}
use gotasks.Prelude.Text.{Text}
use gotasks.Task.{Time, Result, ok, err, other}
use gotasks.Mongo.Metrics.Points.{
  point_of, Single, changed, first_of, put_each-Single, point_of-put_each,
}
use gotasks.Mongo.Metrics.Sorted.{IsAscending, point_of-sorted, sorted-IsAscending}

-- What a window's point is to be.
abbrev pub point_at : Time → Option MetricDoc → Option CounterSums → Option MetricPoint
point_at w g c =
    changed (λ c. c.window) with_sums w c (changed (λ g. g.window_start) with_gauges w g none)

-- The documents that match.
abbrev pub matching : (MetricDoc → Bool) → List MetricDoc → List MetricDoc
matching t [] = []
matching t (d ∷ ds) = let rest = matching t ds in if t d then d ∷ rest else rest

abbrev pub add_sums : Time → MetricDoc → Option CounterSums → CounterSums
add_sums w d none = record {
  window = w;
  enqueued = d.enqueued;
  claimed = d.claimed;
  c_done = d.c_done;
  c_failed = d.c_failed;
  c_dead = d.c_dead;
}
add_sums w d (some c) = record {
  window = w;
  enqueued = d.enqueued + c.enqueued;
  claimed = d.claimed + c.claimed;
  c_done = d.c_done + c.c_done;
  c_failed = d.c_failed + c.c_failed;
  c_dead = d.c_dead + c.c_dead;
}

-- The sums of the counters of a window, if a document has any.
abbrev pub sums_at : Time → List MetricDoc → Option CounterSums
sums_at w [] = none
sums_at w (d ∷ ds) =
    let rest = sums_at w ds in if eqb_ℤ d.window_start w then some (add_sums w d rest) else rest

abbrev pub gauges_at : Time → List MetricDoc → Option MetricDoc
gauges_at = first_of (λ d. d.window_start)

abbrev pub AreSums : List MetricDoc → List CounterSums → Type 0
AreSums ds cs =
    (w : Time)
    → (first_of (λ c. c.window) w cs ≡ sums_at w ds) × (count_if (λ c. eqb_ℤ c.window w) cs ≤ 1)

-- What is documented of the commands, for sums within 64 bits, and of the index metric_identity on
-- the gauges, which are all written under the empty manager id.
pub record IsMetrics (m : Metrics) : Type 1 where
  pub finds :
      (t : MetricDoc → Bool) (s : m.State)
      → (m.find t s ≡ lost) ⊎ (m.find t s ≡ got (matching t (m.docs s)))
  pub sums :
      (t : MetricDoc → Bool) (s : m.State)
      → (m.sum_by_window t s ≡ lost)
        ⊎ ((cs : List CounterSums) × (m.sum_by_window t s ≡ got cs)
            × AreSums (matching t (m.docs s)) cs)
  pub identity :
      (queue : Text) (from w : Time) (s : m.State)
      → count_if
          (λ d. eqb_ℤ d.window_start w)
          (matching (series_filter queue gauges from) (m.docs s))
        ≤ 1

-- The points in order, and for each window the one of its gauges and counters, if there are any.
abbrev pub IsSeries : List MetricDoc → List MetricDoc → Result (List MetricPoint) → Type 0
IsSeries gs ds (err e) = e ≡ other
IsSeries gs ds (ok ps) =
    IsAscending ps × ((w : Time) → point_of w ps ≡ point_at w (gauges_at w gs) (sums_at w ds))

series-IsSeries :
    (gs ds : List MetricDoc) (cs : List CounterSums)
    → ((w : Time) → count_if (λ d. eqb_ℤ d.window_start w) gs ≤ 1)
    → AreSums ds cs
    → IsSeries gs ds (series (got gs) (got cs))
series-IsSeries gs ds cs one a =
    let gauged = put_gauges gs [] in
    let single : Single gauged =
      put_each-Single (λ g. g.window_start) with_gauges (λ g p. refl) gs [] (λ w. omega arith) in
    let all_single : Single (put_sums cs gauged) =
      put_each-Single (λ c. c.window) with_sums (λ c p. refl) cs gauged single in
    (
      sorted-IsAscending (put_sums cs gauged) all_single,
      (λ w.
          point_of-sorted w (put_sums cs gauged) all_single
          ∙ point_of-put_each (λ c. c.window) with_sums (λ c p. refl) w cs gauged (a w).1
          ∙ ap₂ (λ c p. changed (λ c. c.window) with_sums w c p) (a w).0
              (point_of-put_each (λ g. g.window_start) with_gauges (λ g p. refl) w gs [] (one w))),
    )

-- MetricsSeries of a queue, over a collection that behaves as documented: the points come in the
-- order of their windows, one to a window; a window has one if it has gauges or counters of the
-- queue at `from` or later, with the gauges, or zeros, and with the sums of the counters of all
-- managers, or zeros; and if a command fails, there is an error that is not the store's own.
pub metrics_series-IsSeries :
    (m : Metrics)
    → IsMetrics m
    → (queue : Text) (from : Time) (s later : m.State)
    → IsSeries
        (matching (series_filter queue gauges from) (m.docs s))
        (matching (series_filter queue counters from) (m.docs later))
        (metrics_series m queue from s later)
unfolding metrics_series
metrics_series-IsSeries m h queue from s later =
    elim (h.finds (series_filter queue gauges from) s) [
      | inl e ↦ rw e refl
      | inr e ↦ elim (h.sums (series_filter queue counters from) later) [
        | inl k ↦ rw (e, k) refl
        | inr (cs, k, a) ↦ rw (e, k) (series-IsSeries _ _ cs (λ w. h.identity queue from w s) a)
      ]
    ]
