-- ===== src/Mongo/Metrics/Sorted.antt =====
-- Sorting points of different windows.
use gotasks.Mongo.Listing.{MetricPoint, sort_metric_points, sink, sink_all, turned_onto}
use gotasks.Mongo.Listing.Sorting.{sink-All, NotAfter, sort_metric_points-IsSortedFrom}
use gotasks.Prelude.{
  ◌≤◌, ◌≡◌, refl, sym, ◌∙◌, arith, true, Bool-cases, inl, inr, List, [], ◌∷◌, All, Pairwise, none,
  some, Option-cases, count_if,
}
use gotasks.Prelude.Int.{eqb_ℤ, ◌≤ℤ◌, ◌<ℤ◌}
use gotasks.Task.{Time}
use gotasks.Mongo.Metrics.Points.{starts, point_of, Single}

-- Sorting keeps the point of each window.
module _ (P : MetricPoint → Type 0) where
  sink_all-All : (xs ps : List MetricPoint) → All P xs → All P ps → All P (sink_all xs ps)
  unfolding sink_all
  sink_all-All xs [] h k = h
  sink_all-All xs (p ∷ ps) h k = sink_all-All (sink p xs) ps (sink-All P p xs k.0 h) k.1

  turned_onto-All : (xs ys : List MetricPoint) → All P xs → All P ys → All P (turned_onto xs ys)
  turned_onto-All [] ys h k = k
  turned_onto-All (x ∷ xs) ys h k = turned_onto-All xs (x ∷ ys) h.1 (h.0, k)

  sorted-All : (ps : List MetricPoint) → All P ps → All P (sort_metric_points ps)
  unfolding sort_metric_points
  sorted-All ps h = turned_onto-All (sink_all [] ps) [] (sink_all-All [] ps tt h) tt

-- Of a window with one point at most, all points are that one.
abbrev IsOnly : Time → MetricPoint → MetricPoint → Type 0
IsOnly w p q = eqb_ℤ q.window_start w ≡ true → q ≡ p

absent : (w : Time) (ps : List MetricPoint) → count_if (starts w) ps ≡ 0 → point_of w ps ≡ none
absent w [] h = refl
absent w (p ∷ ps) h = ground (arith, absent w ps)

none-count : (w : Time) (ps : List MetricPoint) → point_of w ps ≡ none → count_if (starts w) ps ≡ 0
none-count w [] h = refl
none-count w (p ∷ ps) h = ground (arith, none-count w ps)

count_zero-IsOnly :
    (w : Time) (p : MetricPoint) (ps : List MetricPoint)
    → count_if (starts w) ps ≡ 0
    → All (IsOnly w p) ps
count_zero-IsOnly w p [] h = tt
count_zero-IsOnly w p (q ∷ ps) h =
    ((λ here. absurd (ground arith)), count_zero-IsOnly w p ps (ground arith))

All-IsOnly :
    (w : Time) (p : MetricPoint) (ps : List MetricPoint)
    → count_if (starts w) ps ≤ 1
    → point_of w ps ≡ some p
    → All (IsOnly w p) ps × (count_if (starts w) ps ≡ 1)
All-IsOnly w p [] h e = absurd (ground arith)
All-IsOnly w p (q ∷ ps) h e = elim (Bool-cases (eqb_ℤ q.window_start w)) [
  | inl here ↦
      let same : q ≡ p = ground arith in
      (((λ _. same), count_zero-IsOnly w p ps (ground arith)), ground arith)
  | inr miss ↦
      let (others, n) = All-IsOnly w p ps (ground arith) (ground arith) in
      (((λ here. absurd (ground arith)), others), ground arith)
]

only-point_of :
    (w : Time) (p : MetricPoint) (ps : List MetricPoint)
    → All (IsOnly w p) ps
    → 1 ≤ count_if (starts w) ps
    → point_of w ps ≡ some p
only-point_of w p [] h n = absurd (omega (arith, n))
only-point_of w p (q ∷ ps) h n = elim (Bool-cases (eqb_ℤ q.window_start w)) [
  | inl here ↦ rw (here, h.0 here) refl
  | inr miss ↦ rw miss (only-point_of w p ps h.1 (ground arith))
]

pub point_of-sorted :
    (w : Time) (ps : List MetricPoint)
    → Single ps
    → point_of w (sort_metric_points ps) ≡ point_of w ps
point_of-sorted w ps h =
    let same = (sort_metric_points-IsSortedFrom ps).same_points (starts w) in
    elim (Option-cases (point_of w ps)) [
      | inl e ↦ absent w (sort_metric_points ps) (same ∙ none-count w ps e) ∙ sym e
      | inr (p, e) ↦
          let (only, n) = All-IsOnly w p ps (h w) e in
          only-point_of w p (sort_metric_points ps) (sorted-All (IsOnly w p) ps only)
            (omega (arith, same, n))
          ∙ sym e
    ]

-- In order, one point to a window.
abbrev pub IsAscending : List MetricPoint → Type 0
IsAscending ps = Pairwise (λ p q. p.window_start <ℤ q.window_start) ps

others_later :
    (p : MetricPoint) (ps : List MetricPoint)
    → All (NotAfter p) ps
    → count_if (starts p.window_start) ps ≡ 0
    → All (λ q. p.window_start <ℤ q.window_start) ps
others_later p [] h n = tt
others_later p (q ∷ ps) h n =
    let k : p.window_start ≤ℤ q.window_start = h.0 in
    (ground arith, others_later p ps h.1 (ground arith))

ascending : (ps : List MetricPoint) → Pairwise NotAfter ps → Single ps → IsAscending ps
ascending [] o h = tt
ascending (p ∷ ps) o h =
    let first : count_if (starts p.window_start) (p ∷ ps) ≤ 1 = h p.window_start in
    (others_later p ps o.0 (ground arith), ascending ps o.1 (λ w. let k = h w in ground arith))

pub sorted-IsAscending : (ps : List MetricPoint) → Single ps → IsAscending (sort_metric_points ps)
sorted-IsAscending ps h =
    let sorted = sort_metric_points-IsSortedFrom ps in
    ascending (sort_metric_points ps) sorted.ordered
      (λ w. let k = h w in let e = sorted.same_points (starts w) in omega (arith, k, e))
