-- ===== src/Manager/Shutdown/Flusher.antt =====
-- The turns of the flusher.
use mathlib.Core.List.{append-nil}
use mathlib.Core.Path.{subst}
use gotasks.Manager.Shutdown.{
  left, FlusherAt, deciding, sleeping, Pool, after_step, flush_all, decides, wakes_up, rings,
  drains,
}
use gotasks.Manager.Shutdown.Measure.{is_due, flusher_work, work_left, IsArmed, IsPool, Progress}
use gotasks.Manager.State.{Manager}
use gotasks.Options.{PipelineConfig}
use gotasks.Prelude.{
  ◌≤◌, ◌≡◌, refl, sym, ◌∙◌, arith, Bool, true, false, not, ltb, ◌++◌, length, Option, none, some,
  if◌then◌else◌,
}
use gotasks.Prelude.Int.{pos, leb_ℤ, ◌≤ℤ◌}
use gotasks.Task.{Time, before}
use gotasks.Manager.Shutdown.Turns.{enabled-Progress}
use gotasks.Worker.Buffer.{FinBuffer, FlushStep, flush, sleep, flusher_step, flush_deadline}

module _ (m : Manager) (c : PipelineConfig) where
  -- A decision: with outcomes to flush, or to sleep, if no flush was due.
  StepCase : Time → FinBuffer → FlushStep → Type 0
  StepCase since b flush = 1 ≤ length b.outcomes
  StepCase since b (sleep d) = (is_due c since b ≡ false) × IsArmed c b (sleeping d)

  step-case :
      (since now : Time) (b : FinBuffer)
      → pos 1 ≤ℤ c.finalize_batch
      → leb_ℤ since now ≡ true
      → StepCase since b (flusher_step c now b)
  unfolding flusher_step StepCase
  step-case since now b h k =
      on (leb_ℤ c.finalize_batch (pos (length b.outcomes))) (ltb 0 (length b.outcomes))
        (before now (flush_deadline c b)) refl refl refl
    where
      on :
          (full some_held early : Bool)
          → leb_ℤ c.finalize_batch (pos (length b.outcomes)) ≡ full
          → ltb 0 (length b.outcomes) ≡ some_held
          → before now (flush_deadline c b) ≡ early
          → StepCase since b (
              if full
              then flush
              else if some_held
              then (if early then sleep (some (flush_deadline c b)) else flush)
              else sleep none)
      on true held early e f g = ground arith
      on false true true e f g = (ground arith, (ground arith, ground arith))
      on false true false e f g = ground arith
      on false false early e f g = (ground arith, tt)

  flushing-Progress :
      (p : Pool) (since now : Time)
      → p.flusher ≡ deciding since
      → 1 ≤ length p.buffer.outcomes
      → IsPool c p
      → Progress c p (flush_all (deciding now) p)
  unfolding work_left
  flushing-Progress p since now e n o = (
    record {
      kept = o.kept ∙ sym (append-nil (p.flushed ++ p.buffer.outcomes));
      armed = tt;
      drained = tt;
      finished = o.finished;
    },
    (λ h. (h, rw e (omega (arith, n)))),
  )

  asleep-Progress :
      (p : Pool) (since : Time) (d : Option Time)
      → p.flusher ≡ deciding since
      → is_due c since p.buffer ≡ false
      → IsArmed c p.buffer (sleeping d)
      → IsPool c p
      → Progress c p (record p { flusher = sleeping d })
  unfolding work_left
  asleep-Progress p since d e n a o = (
    record { kept = o.kept; armed = a; drained = tt; finished = o.finished },
    (λ h. (h, rw (e, n) (omega arith))),
  )

  decided-Progress :
      (p : Pool) (since now : Time) (x : FlushStep)
      → p.flusher ≡ deciding since
      → StepCase since p.buffer x
      → IsPool c p
      → Progress c p (after_step now x p)
  unfolding StepCase
  decided-Progress p since now flush e k o = flushing-Progress p since now e k o
  decided-Progress p since now (sleep d) e (k, a) o = asleep-Progress p since d e k a o

  pub decides-Progress :
      (now : Time) (p q : Pool) (f : FlusherAt)
      → pos 1 ≤ℤ c.finalize_batch
      → p.flusher ≡ f
      → IsPool c p
      → decides m c now p f ≡ some q
      → Progress c p q
  decides-Progress now p q (deciding since) b e o h = enabled-Progress m c _ p _ q h (λ g.
      decided-Progress p since now (flusher_step c now p.buffer) e
        (step-case since now p.buffer b g) o)
  decides-Progress now p q (sleeping d) b e o h = absurd (ground arith)
  decides-Progress now p q left b e o h = absurd (ground arith)

  woken-Progress :
      (p : Pool) (d : Option Time) (now : Time)
      → p.flusher ≡ sleeping d
      → p.woken ≡ true
      → IsPool c p
      → Progress c p (record p { woken = false; flusher = deciding now })
  unfolding work_left
  woken-Progress p d now e w o =
      let small = deciding_work-small now p.buffer in
      (
        record { kept = o.kept; armed = tt; drained = tt; finished = o.finished },
        (λ h. (h, rw (e, w) (omega (arith, small)))),
      )
    where
      deciding_work-small : (now : Time) (b : FinBuffer) → flusher_work c b (deciding now) ≤ 3
      deciding_work-small now b = ground arith

  pub wakes_up-Progress :
      (now : Time) (p q : Pool) (f : FlusherAt)
      → p.flusher ≡ f
      → IsPool c p
      → wakes_up m c now p f ≡ some q
      → Progress c p q
  wakes_up-Progress now p q (sleeping d) e o h =
      enabled-Progress m c _ p _ q h (λ g. woken-Progress p d now e g o)
  wakes_up-Progress now p q (deciding since) e o h = absurd (ground arith)
  wakes_up-Progress now p q left e o h = absurd (ground arith)

  due_at :
      (d now : Time) (b : FinBuffer)
      → not (before now d) ≡ true
      → IsArmed c b (sleeping (some d))
      → is_due c now b ≡ true
  due_at d now b h a = let (n, k) = a in ground arith

  rung-Progress :
      (p : Pool) (d now : Time)
      → p.flusher ≡ sleeping (some d)
      → is_due c now p.buffer ≡ true
      → IsPool c p
      → Progress c p (record p { flusher = deciding now })
  unfolding work_left
  rung-Progress p d now e k o = (
    record { kept = o.kept; armed = tt; drained = tt; finished = o.finished },
    (λ h. (h, rw (e, k) (omega arith))),
  )

  pub rings-Progress :
      (now : Time) (p q : Pool) (f : FlusherAt)
      → p.flusher ≡ f
      → IsPool c p
      → rings m c now p f ≡ some q
      → Progress c p q
  rings-Progress now p q (sleeping (some d)) e o h = enabled-Progress m c _ p _ q h (λ g.
      rung-Progress p d now e (due_at d now p.buffer g (subst (IsArmed c p.buffer) e o.armed)) o)
  rings-Progress now p q (sleeping none) e o h = absurd (ground arith)
  rings-Progress now p q (deciding since) e o h = absurd (ground arith)
  rings-Progress now p q left e o h = absurd (ground arith)

  drained-Progress :
      (p : Pool) (d : Option Time)
      → p.flusher ≡ sleeping d
      → p.closed ≡ true
      → IsPool c p
      → Progress c p (flush_all left p)
  unfolding work_left
  drained-Progress p d e k o = (
    record {
      kept = o.kept ∙ sym (append-nil (p.flushed ++ p.buffer.outcomes));
      armed = tt;
      drained = (k, refl);
      finished = o.finished;
    },
    (λ h. (h, rw e (omega arith))),
  )

  pub drains-Progress :
      (p q : Pool) (f : FlusherAt)
      → p.flusher ≡ f
      → IsPool c p
      → drains m c p f ≡ some q
      → Progress c p q
  drains-Progress p q (sleeping d) e o h =
      enabled-Progress m c _ p _ q h (λ g. drained-Progress p d e g o)
  drains-Progress p q (deciding since) e o h = absurd (ground arith)
  drains-Progress p q left e o h = absurd (ground arith)
