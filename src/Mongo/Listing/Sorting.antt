-- ===== src/Mongo/Listing/Sorting.antt =====
-- sortMetricPoints sorts.
use gotasks.Prelude.Int.{ltb_ℤ, ◌≤ℤ◌}
use gotasks.Prelude.{
  ◌∷◌, All-map, refl, ◌≡◌, arith, inr, Bool, Pairwise, Bool-cases, All, inl, ◌+◌, List, count_if,
  [],
}
use gotasks.Mongo.Listing.{MetricPoint, turned_onto, sink, sort_metric_points, sink_all}

abbrev pub NotAfter : MetricPoint → MetricPoint → Type 0
NotAfter p q = p.window_start ≤ℤ q.window_start

-- In order, with every point as often as before.
pub record IsSortedFrom (ps qs : List MetricPoint) : Type 0 where
  pub ordered : Pairwise NotAfter qs
  pub same_points : (t : MetricPoint → Bool) → count_if t qs ≡ count_if t ps

-- Of points that are given from the last one on.
abbrev Falling : List MetricPoint → Type 0
Falling xs = Pairwise (λ x y. NotAfter y x) xs

pub sink-All :
    (P : MetricPoint → Type 0) (p : MetricPoint) (xs : List MetricPoint)
    → P p
    → All P xs
    → All P (sink p xs)
unfolding sink
sink-All P p [] h k = (h, tt)
sink-All P p (x ∷ xs) h k = elim (Bool-cases (ltb_ℤ p.window_start x.window_start)) [
  | inl below ↦ rw below (k.0, sink-All P p xs h k.1)
  | inr above ↦ rw above (h, k)
]

sink-Falling : (p : MetricPoint) (xs : List MetricPoint) → Falling xs → Falling (sink p xs)
unfolding sink
sink-Falling p [] h = (tt, tt)
sink-Falling p (x ∷ xs) h = elim (Bool-cases (ltb_ℤ p.window_start x.window_start)) [
  | inl below ↦
      rw below (sink-All (λ y. NotAfter y x) p xs (ground arith) h.0, sink-Falling p xs h.1)
  | inr above ↦
      let first : NotAfter x p = ground arith in
      rw above
        ((first, All-map (λ y. NotAfter y x) (λ y. NotAfter y p) xs (λ y k. omega arith) h.0), h)
]

count-sink :
    (t : MetricPoint → Bool) (p : MetricPoint) (xs : List MetricPoint)
    → count_if t (sink p xs) ≡ count_if t (p ∷ xs)
unfolding sink
count-sink t p [] = refl
count-sink t p (x ∷ xs) = ground (arith, count-sink t p xs)

sink_all-Falling : (xs ps : List MetricPoint) → Falling xs → Falling (sink_all xs ps)
unfolding sink_all
sink_all-Falling xs [] h = h
sink_all-Falling xs (p ∷ ps) h = sink_all-Falling (sink p xs) ps (sink-Falling p xs h)

count-sink_all :
    (t : MetricPoint → Bool) (xs ps : List MetricPoint)
    → count_if t (sink_all xs ps) ≡ count_if t xs + count_if t ps
unfolding sink_all
count-sink_all t xs [] = omega arith
count-sink_all t xs (p ∷ ps) = ground (arith, count-sink_all t (sink p xs) ps, count-sink t p xs)

turned_onto-ordered :
    (xs ys : List MetricPoint)
    → Falling xs
    → Pairwise NotAfter ys
    → All (λ x. All (NotAfter x) ys) xs
    → Pairwise NotAfter (turned_onto xs ys)
turned_onto-ordered [] ys f o a = o
turned_onto-ordered (x ∷ xs) ys f o a =
    turned_onto-ordered xs (x ∷ ys) f.1 (a.0, o) (both xs f.0 a.1)
  where
    both :
        (zs : List MetricPoint)
        → All (λ z. NotAfter z x) zs
        → All (λ z. All (NotAfter z) ys) zs
        → All (λ z. All (NotAfter z) (x ∷ ys)) zs
    both [] h k = tt
    both (z ∷ zs) h k = ((h.0, k.0), both zs h.1 k.1)

count-turned_onto :
    (t : MetricPoint → Bool) (xs ys : List MetricPoint)
    → count_if t (turned_onto xs ys) ≡ count_if t xs + count_if t ys
count-turned_onto t [] ys = omega arith
count-turned_onto t (x ∷ xs) ys = ground (arith, count-turned_onto t xs (x ∷ ys))

-- The points come out in the order of their windows, each as often as it was given.
pub sort_metric_points-IsSortedFrom :
    (ps : List MetricPoint) → IsSortedFrom ps (sort_metric_points ps)
unfolding sort_metric_points
sort_metric_points-IsSortedFrom ps = record {
  ordered =
      turned_onto-ordered (sink_all [] ps) [] (sink_all-Falling [] ps tt) tt
        (none_after (sink_all [] ps));
  same_points = λ t. omega (arith, count-turned_onto t (sink_all [] ps) [], count-sink_all t [] ps);
}
  where
    none_after : (xs : List MetricPoint) → All (λ x. All (NotAfter x) []) xs
    none_after [] = tt
    none_after (x ∷ xs) = (tt, none_after xs)
