-- ===== src/Manager/Shutdown/Turns.antt =====
-- The turns of the fetcher, the workers, Stop and the janitor.
use mathlib.Core.Path.{subst}
use gotasks.Fetcher.{channel_capacity}
use gotasks.Manager.Shutdown.{
  FetcherAt, at_top, full, pausing, idle, left, claiming, sending, Pool, with_batch, enabled, looks,
  nudges, finds, wakes, returns, fails, sends, leaves,
}
use gotasks.Manager.Shutdown.Measure.{fetcher_work, work_left, IsPool, Progress}
use gotasks.Manager.State.{Manager}
use gotasks.Options.{PipelineConfig}
use gotasks.Prelude.{
  ◌+◌, ◌*◌, ◌<◌, ◌≡◌, refl, arith, Bool, true, false, List, [], ◌∷◌, ◌++◌, length, length-append,
  some,
}
use gotasks.Prelude.Int.{ℤ, pos, pos_part, leb_ℤ, ltb_ℤ}
use gotasks.Task.{Task}

module _ (m : Manager) (c : PipelineConfig) where
  pub enabled-Progress :
      (b : Bool) (p q r : Pool)
      → enabled b q ≡ some r
      → (b ≡ true → Progress c p q)
      → Progress c p r
  enabled-Progress true p q r h k = let e : q ≡ r = ground arith in subst (Progress c p) e (k refl)
  enabled-Progress false p q r h k = absurd (ground arith)

  -- A turn that moves the fetcher only, or takes the token of fetchNudge with it.
  moved-Progress :
      (p : Pool) (f : FetcherAt) (token : Bool)
      → IsPool c p
      → (p.cancelled ≡ true → fetcher_work f < fetcher_work p.fetcher)
      → Progress c p (record p { fetcher = f; nudged = token })
  unfolding work_left
  moved-Progress p f token o h = (
    record { kept = o.kept; armed = o.armed; drained = o.drained; finished = o.finished },
    (λ k. let less = h k in (k, omega (arith, less))),
  )

  pub looks-Progress :
      (p q : Pool) (f : FetcherAt)
      → p.fetcher ≡ f
      → IsPool c p
      → looks m c p f ≡ some q
      → Progress c p q
  looks-Progress p q at_top e o h =
      enabled-Progress true p _ q h
        (λ _. moved-Progress p _ p.nudged o (λ k. rw (k, e) (omega arith)))
  looks-Progress p q full e o h = absurd (ground arith)
  looks-Progress p q pausing e o h = absurd (ground arith)
  looks-Progress p q idle e o h = absurd (ground arith)
  looks-Progress p q left e o h = absurd (ground arith)
  looks-Progress p q (claiming n) e o h = absurd (ground arith)
  looks-Progress p q (sending us) e o h = absurd (ground arith)

  pub nudges-Progress :
      (p q : Pool) (f : FetcherAt)
      → p.fetcher ≡ f
      → IsPool c p
      → nudges m c p f ≡ some q
      → Progress c p q
  nudges-Progress p q full e o h =
      enabled-Progress p.nudged p _ q h
        (λ _. moved-Progress p at_top false o (λ k. rw e (omega arith)))
  nudges-Progress p q at_top e o h = absurd (ground arith)
  nudges-Progress p q pausing e o h = absurd (ground arith)
  nudges-Progress p q idle e o h = absurd (ground arith)
  nudges-Progress p q left e o h = absurd (ground arith)
  nudges-Progress p q (claiming n) e o h = absurd (ground arith)
  nudges-Progress p q (sending us) e o h = absurd (ground arith)

  pub wakes-Progress :
      (p q : Pool) (f : FetcherAt)
      → p.fetcher ≡ f
      → IsPool c p
      → wakes m c p f ≡ some q
      → Progress c p q
  wakes-Progress p q pausing e o h =
      enabled-Progress true p _ q h (λ _. moved-Progress p _ p.nudged o (λ k. rw e (omega arith)))
  wakes-Progress p q idle e o h =
      enabled-Progress true p _ q h (λ _. moved-Progress p _ p.nudged o (λ k. rw e (omega arith)))
  wakes-Progress p q at_top e o h = absurd (ground arith)
  wakes-Progress p q full e o h = absurd (ground arith)
  wakes-Progress p q left e o h = absurd (ground arith)
  wakes-Progress p q (claiming n) e o h = absurd (ground arith)
  wakes-Progress p q (sending us) e o h = absurd (ground arith)

  pub finds-Progress :
      (p q : Pool) (f : FetcherAt)
      → p.fetcher ≡ f
      → IsPool c p
      → finds m c p f ≡ some q
      → Progress c p q
  finds-Progress p q (claiming n) e o h =
      enabled-Progress true p _ q h (λ _. moved-Progress p _ p.nudged o (λ k. rw e (omega arith)))
  finds-Progress p q at_top e o h = absurd (ground arith)
  finds-Progress p q full e o h = absurd (ground arith)
  finds-Progress p q pausing e o h = absurd (ground arith)
  finds-Progress p q idle e o h = absurd (ground arith)
  finds-Progress p q left e o h = absurd (ground arith)
  finds-Progress p q (sending us) e o h = absurd (ground arith)

  batch-work :
      (ts : List Task) (k : ℤ)
      → leb_ℤ (pos (length ts)) k ≡ true
      → fetcher_work (with_batch m c ts) < 4 + 15 * pos_part k
  batch-work [] k h = omega arith
  batch-work (t ∷ ts) k h = ground arith

  pub returns-Progress :
      (ts : List Task) (p q : Pool) (f : FetcherAt)
      → p.fetcher ≡ f
      → IsPool c p
      → returns m c ts p f ≡ some q
      → Progress c p q
  returns-Progress ts p q (claiming n) e o h =
      enabled-Progress (leb_ℤ (pos (length ts)) n) p _ q h
        (λ fits. moved-Progress p _ p.nudged o (λ _. rw e (batch-work ts n fits)))
  returns-Progress ts p q at_top e o h = absurd (ground arith)
  returns-Progress ts p q full e o h = absurd (ground arith)
  returns-Progress ts p q pausing e o h = absurd (ground arith)
  returns-Progress ts p q idle e o h = absurd (ground arith)
  returns-Progress ts p q left e o h = absurd (ground arith)
  returns-Progress ts p q (sending us) e o h = absurd (ground arith)

  pub fails-Progress :
      (p q : Pool) (f : FetcherAt)
      → p.fetcher ≡ f
      → IsPool c p
      → fails m c p f ≡ some q
      → Progress c p q
  fails-Progress p q (claiming n) e o h =
      enabled-Progress true p _ q h
        (λ _. moved-Progress p _ p.nudged o (λ k. rw (k, e) (omega arith)))
  fails-Progress p q at_top e o h = absurd (ground arith)
  fails-Progress p q full e o h = absurd (ground arith)
  fails-Progress p q pausing e o h = absurd (ground arith)
  fails-Progress p q idle e o h = absurd (ground arith)
  fails-Progress p q left e o h = absurd (ground arith)
  fails-Progress p q (sending us) e o h = absurd (ground arith)

  pub leaves-Progress :
      (p q : Pool) (f : FetcherAt)
      → p.fetcher ≡ f
      → IsPool c p
      → leaves m c p f ≡ some q
      → Progress c p q
  leaves-Progress p q full e o h =
      enabled-Progress p.cancelled p _ q h
        (λ _. moved-Progress p _ p.nudged o (λ k. rw e (omega arith)))
  leaves-Progress p q pausing e o h =
      enabled-Progress p.cancelled p _ q h
        (λ _. moved-Progress p _ p.nudged o (λ k. rw e (omega arith)))
  leaves-Progress p q (sending us) e o h =
      enabled-Progress p.cancelled p _ q h
        (λ _. moved-Progress p _ p.nudged o (λ k. rw e (omega arith)))
  leaves-Progress p q at_top e o h = absurd (ground arith)
  leaves-Progress p q idle e o h = absurd (ground arith)
  leaves-Progress p q left e o h = absurd (ground arith)
  leaves-Progress p q (claiming n) e o h = absurd (ground arith)

  sent-Progress :
      (p : Pool) (t : Task) (ts : List Task)
      → p.fetcher ≡ sending (t ∷ ts)
      → IsPool c p
      → Progress c p (record p { fetcher = sending ts; channel = p.channel ++ t ∷ [] })
  unfolding work_left
  sent-Progress p t ts e o = (
    record { kept = o.kept; armed = o.armed; drained = o.drained; finished = o.finished },
    (λ k. (k, rw (e, length-append p.channel (t ∷ [])) (omega arith))),
  )

  pub sends-Progress :
      (p q : Pool) (f : FetcherAt)
      → p.fetcher ≡ f
      → IsPool c p
      → sends m c p f ≡ some q
      → Progress c p q
  sends-Progress p q (sending []) e o h =
      enabled-Progress true p _ q h (λ _. moved-Progress p _ p.nudged o (λ k. rw e (omega arith)))
  sends-Progress p q (sending (t ∷ ts)) e o h =
      enabled-Progress (ltb_ℤ (pos (length p.channel)) (channel_capacity m c)) p _ q h
        (λ _. sent-Progress p t ts e o)
  sends-Progress p q at_top e o h = absurd (ground arith)
  sends-Progress p q full e o h = absurd (ground arith)
  sends-Progress p q pausing e o h = absurd (ground arith)
  sends-Progress p q idle e o h = absurd (ground arith)
  sends-Progress p q left e o h = absurd (ground arith)
  sends-Progress p q (claiming n) e o h = absurd (ground arith)
