-- ===== src/Mongo/Metrics/Points.antt =====
-- The points that MetricsSeries collects, by their windows.
use gotasks.Mongo.Listing.{MetricPoint}
use gotasks.Mongo.Metrics.{blank, at_window, put_each}
use gotasks.Prelude.{
  ◌≤◌, ◌≡◌, refl, ◌∙◌, ap, arith, Bool, false, Bool-cases, inl, inr, List, [], ◌∷◌, Option, none,
  some, count_if, if◌then◌else◌,
}
use gotasks.Prelude.Int.{eqb_ℤ}
use gotasks.Task.{Time}

abbrev pub starts : Time → MetricPoint → Bool
starts w p = eqb_ℤ p.window_start w

abbrev pub point_of : Time → List MetricPoint → Option MetricPoint
point_of w [] = none
point_of w (p ∷ ps) = let rest = point_of w ps in if eqb_ℤ p.window_start w then some p else rest

abbrev pub Single : List MetricPoint → Type 0
Single ps = (w : Time) → count_if (starts w) ps ≤ 1

-- A window's point with a change, if the window has one.
abbrev pub or_blank : Time → Option MetricPoint → MetricPoint
or_blank w none = blank w
or_blank w (some p) = p

module _ (f : MetricPoint → MetricPoint)
    (k : (p : MetricPoint) → (f p).window_start ≡ p.window_start) where
  point_of-at_window :
      (w : Time) (ps : List MetricPoint)
      → point_of w (at_window f w ps) ≡ some (f (or_blank w (point_of w ps)))
  unfolding at_window
  point_of-at_window w [] = ground (arith, k (blank w))
  point_of-at_window w (p ∷ ps) = ground (arith, point_of-at_window w ps, k p)

  point_of-at_other :
      (w v : Time) (ps : List MetricPoint)
      → eqb_ℤ v w ≡ false
      → point_of w (at_window f v ps) ≡ point_of w ps
  unfolding at_window
  point_of-at_other w v [] h = ground (arith, k (blank v))
  point_of-at_other w v (p ∷ ps) h = ground (arith, point_of-at_other w v ps h, k p)

  count-at_other :
      (w v : Time) (ps : List MetricPoint)
      → eqb_ℤ v w ≡ false
      → count_if (starts w) (at_window f v ps) ≡ count_if (starts w) ps
  unfolding at_window
  count-at_other w v [] h = ground (arith, k (blank v))
  count-at_other w v (p ∷ ps) h = ground (arith, count-at_other w v ps h, k p)

  count-at_window :
      (w : Time) (ps : List MetricPoint)
      → count_if (starts w) ps ≤ 1
      → count_if (starts w) (at_window f w ps) ≤ 1
  unfolding at_window
  count-at_window w [] h = ground (arith, k (blank w))
  count-at_window w (p ∷ ps) h = elim (Bool-cases (eqb_ℤ p.window_start w)) [
    | inl here ↦ ground (arith, k p)
    | inr miss ↦
        let rest : count_if (starts w) (at_window f w ps) ≤ 1 =
          count-at_window w ps (ground arith) in
        ground (arith, k p)
  ]

  at_window-Single : (v : Time) (ps : List MetricPoint) → Single ps → Single (at_window f v ps)
  at_window-Single v ps h w = elim (Bool-cases (eqb_ℤ v w)) [
    | inl same ↦ ground (arith, count-at_window w ps (h w))
    | inr differ ↦ ground (arith, count-at_other w v ps differ, h w)
  ]

-- The first of a window.
module _ {A : Type 0} (window_of : A → Time) where
  abbrev pub first_of : Time → List A → Option A
  first_of w [] = none
  first_of w (x ∷ xs) = let rest = first_of w xs in if eqb_ℤ (window_of x) w then some x else rest

  none_of :
      (w : Time) (xs : List A) → count_if (λ x. eqb_ℤ (window_of x) w) xs ≡ 0 → first_of w xs ≡ none
  none_of w [] h = refl
  none_of w (x ∷ xs) h = ground (arith, none_of w xs)

  abbrev pub changed :
      (A → MetricPoint → MetricPoint) → Time → Option A → Option MetricPoint → Option MetricPoint
  changed change w none p = p
  changed change w (some x) p = some (change x (or_blank w p))

  module _ (change : A → MetricPoint → MetricPoint)
      (k : (x : A) (p : MetricPoint) → (change x p).window_start ≡ p.window_start) where
    pub put_each-Single :
        (xs : List A) (ps : List MetricPoint) → Single ps → Single (put_each window_of change xs ps)
    unfolding put_each
    put_each-Single [] ps h = h
    put_each-Single (x ∷ xs) ps h =
        put_each-Single xs _ (at_window-Single (change x) (k x) (window_of x) ps h)

    pub point_of-put_each :
        (w : Time) (xs : List A) (ps : List MetricPoint)
        → count_if (λ x. eqb_ℤ (window_of x) w) xs ≤ 1
        → point_of w (put_each window_of change xs ps)
          ≡ changed change w (first_of w xs) (point_of w ps)
    unfolding put_each
    point_of-put_each w [] ps h = refl
    point_of-put_each w (x ∷ xs) ps h = elim (Bool-cases (eqb_ℤ (window_of x) w)) [
      | inl here ↦
          let last : count_if (λ x. eqb_ℤ (window_of x) w) xs ≡ 0 = ground arith in
          let same : window_of x ≡ w = ground arith in
          rw here (
            point_of-put_each w xs (at_window (change x) (window_of x) ps) (omega arith)
            ∙ ap (λ o. changed change w o (point_of w (at_window (change x) (window_of x) ps)))
                (none_of w xs last)
            ∙ ap (λ v. point_of w (at_window (change x) v ps)) same
            ∙ point_of-at_window (change x) (k x) w ps)
      | inr miss ↦ rw miss (
          point_of-put_each w xs (at_window (change x) (window_of x) ps) (ground arith)
          ∙ ap (λ o. changed change w (first_of w xs) o)
              (point_of-at_other (change x) (k x) w (window_of x) ps miss))
    ]
