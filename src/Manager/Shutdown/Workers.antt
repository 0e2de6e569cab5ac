-- ===== src/Manager/Shutdown/Workers.antt =====
-- The turns of the workers, of the one that closes workersDone, of Stop and of the janitor.
use mathlib.Core.List.{append_assoc}
use gotasks.Manager.Shutdown.{
  left, FlusherAt, deciding, sleeping, Pool, with_outcome, enabled, one_less, all_but_first,
}
use gotasks.Manager.Shutdown.Measure.{work_left, IsDrained, IsPool, Progress}
use gotasks.Manager.State.{Manager}
use gotasks.Options.{PipelineConfig}
use gotasks.Prelude.{
  ℕ, zero, suc, ◌+◌, ◌≡◌, refl, sym, ◌∙◌, ap, arith, true, false, not, ◌&&◌, ltb, List, [], ◌∷◌,
  ◌++◌, length, length-append, Option, none, some,
}
use gotasks.Task.{Task, Outcome, Time}
use gotasks.Manager.Shutdown.Turns.{enabled-Progress}
use gotasks.Manager.Shutdown.{
  take_turn, stops, worker_takes, worker_ends, worker_leaves, closer_closes, janitor_leaves,
}
use gotasks.Worker.Buffer.{buffer_outcome}
use gotasks.Manager.Shutdown.Buffering.{
  length-buffer_outcome, buffer_outcome-IsArmed, flusher_work-small,
}

module _ (m : Manager) (c : PipelineConfig) where
  taken-Progress :
      (p : Pool) (n : ℕ) (t : Task) (ts : List Task)
      → p.waiting ≡ suc n
      → p.channel ≡ t ∷ ts
      → IsPool c p
      → Progress c p (record p { waiting = n; busy = suc p.busy; channel = ts; nudged = true })
  unfolding work_left
  taken-Progress p n t ts e k o = (
    record {
      kept = o.kept;
      armed = o.armed;
      drained = o.drained;
      finished = λ h. (let z = o.finished h in omega (arith, z, e));
    },
    (λ h. (h, rw (e, k) (omega arith))),
  )

  pub takes-Progress :
      (p q : Pool) → IsPool c p → take_turn m c worker_takes p ≡ some q → Progress c p q
  unfolding take_turn
  takes-Progress p q o h = on p.waiting p.channel refl refl h
    where
      on :
          (n : ℕ) (ts : List Task)
          → p.waiting ≡ n
          → p.channel ≡ ts
          → enabled (ltb 0 n && ltb 0 (length ts)) (record p {
            waiting = one_less n;
            busy = suc p.busy;
            channel = all_but_first ts;
            nudged = true;
          })
            ≡ some q
          → Progress c p q
      on zero ts e k h = absurd (ground arith)
      on (suc n) [] e k h = absurd (ground arith)
      on (suc n) (t ∷ ts) e k h =
          enabled-Progress m c _ p _ q h (λ _. taken-Progress p n t ts e k o)

  -- A worker that is done, without its outcome.
  freed-Progress :
      (p : Pool) (n : ℕ)
      → p.busy ≡ suc n
      → IsPool c p
      → Progress c p (record p { waiting = suc p.waiting; busy = n })
  unfolding work_left
  freed-Progress p n e o = (
    record {
      kept = o.kept;
      armed = o.armed;
      drained = o.drained;
      finished = λ h. (let z = o.finished h in absurd (omega (arith, z, e)));
    },
    (λ h. (h, rw e (omega arith))),
  )

  busy-IsDrained :
      (p : Pool) (f : FlusherAt) (n : ℕ)
      → p.busy ≡ suc n
      → IsPool c p
      → IsDrained p f
      → (q : Pool) → IsDrained q f
  busy-IsDrained p left n e o d q = let z = o.finished d.0 in absurd (omega (arith, z, e))
  busy-IsDrained p (deciding t) n e o d q = tt
  busy-IsDrained p (sleeping t) n e o d q = tt

  stored-Progress :
      (p : Pool) (n : ℕ) (o : Outcome) (now : Time)
      → p.busy ≡ suc n
      → IsPool c p
      → Progress c p (with_outcome (some o) now (record p { waiting = suc p.waiting; busy = n }))
  unfolding work_left
  stored-Progress p n o now e k =
      let longer = length-buffer_outcome c o now p.buffer in
      let size = ap length longer ∙ length-append p.buffer.outcomes (o ∷ []) in
      let flusher = flusher_work-small c (buffer_outcome o now p.buffer) p.flusher _ refl in
      (
        record {
          kept =
              ap (λ os. os ++ o ∷ []) k.kept
              ∙ append_assoc p.flushed p.buffer.outcomes (o ∷ [])
              ∙ ap (λ os. p.flushed ++ os) (sym longer);
          armed = buffer_outcome-IsArmed c o now p.buffer p.flusher k.armed;
          drained =
              busy-IsDrained p p.flusher n e k k.drained
                (with_outcome (some o) now (record p { waiting = suc p.waiting; busy = n }));
          finished = λ h. (let z = k.finished h in absurd (omega (arith, z, e)));
        },
        (λ h. (h, rw e (omega (arith, size, flusher)))),
      )

  ended-Progress :
      (p : Pool) (n : ℕ) (o : Option Outcome) (now : Time)
      → p.busy ≡ suc n
      → IsPool c p
      → Progress c p (with_outcome o now (record p { waiting = suc p.waiting; busy = n }))
  ended-Progress p n none now e k = freed-Progress p n e k
  ended-Progress p n (some o) now e k = stored-Progress p n o now e k

  pub ends-Progress :
      (x : Option Outcome) (now : Time) (p q : Pool)
      → IsPool c p
      → take_turn m c (worker_ends x now) p ≡ some q
      → Progress c p q
  unfolding take_turn
  ends-Progress x now p q o h = on p.busy refl h
    where
      on :
          (n : ℕ)
          → p.busy ≡ n
          → enabled
              (ltb 0 n)
              (with_outcome x now (record p { waiting = suc p.waiting; busy = one_less n }))
            ≡ some q
          → Progress c p q
      on zero e h = absurd (ground arith)
      on (suc n) e h = enabled-Progress m c _ p _ q h (λ _. ended-Progress p n x now e o)

  gone-Progress :
      (p : Pool) (n : ℕ)
      → p.waiting ≡ suc n
      → IsPool c p
      → Progress c p (record p { waiting = n; gone = suc p.gone })
  unfolding work_left
  gone-Progress p n e o = (
    record {
      kept = o.kept;
      armed = o.armed;
      drained = o.drained;
      finished = λ h. (let z = o.finished h in absurd (omega (arith, z, e)));
    },
    (λ h. (h, rw e (omega arith))),
  )

  pub leaves_pool-Progress :
      (p q : Pool) → IsPool c p → take_turn m c worker_leaves p ≡ some q → Progress c p q
  unfolding take_turn
  leaves_pool-Progress p q o h = on p.waiting refl h
    where
      on :
          (n : ℕ)
          → p.waiting ≡ n
          → enabled (p.cancelled && ltb 0 n) (record p { waiting = one_less n; gone = suc p.gone })
            ≡ some q
          → Progress c p q
      on zero e h = absurd (ground arith)
      on (suc n) e h = enabled-Progress m c _ p _ q h (λ _. gone-Progress p n e o)

  closed-IsDrained :
      (p : Pool) (f : FlusherAt) → IsDrained p f → IsDrained (record p { closed = true }) f
  closed-IsDrained p left d = (refl, d.1)
  closed-IsDrained p (deciding t) d = tt
  closed-IsDrained p (sleeping t) d = tt

  closed-Progress :
      (p : Pool)
      → (not p.closed && not (ltb 0 (p.waiting + p.busy))) ≡ true
      → IsPool c p
      → Progress c p (record p { closed = true })
  unfolding work_left
  closed-Progress p g o =
      let is_open : p.closed ≡ false = ground arith in
      (
        record {
          kept = o.kept;
          armed = o.armed;
          drained = closed-IsDrained p p.flusher o.drained;
          finished = λ _. ground arith;
        },
        (λ h. (h, rw is_open (omega arith))),
      )

  pub closes-Progress :
      (p q : Pool) → IsPool c p → take_turn m c closer_closes p ≡ some q → Progress c p q
  unfolding take_turn
  closes-Progress p q o h = enabled-Progress m c _ p _ q h (λ g. closed-Progress p g o)

  pub stops-Progress : (p q : Pool) → IsPool c p → take_turn m c stops p ≡ some q → Progress c p q
  unfolding take_turn
  stops-Progress p q o h = enabled-Progress m c _ p _ q h (λ g. (
    record { kept = o.kept; armed = o.armed; drained = o.drained; finished = o.finished },
    (λ k. absurd (ground arith)),
  ))

  janitor-Progress :
      (p : Pool) → p.janitor ≡ true → IsPool c p → Progress c p (record p { janitor = false })
  unfolding work_left
  janitor-Progress p e o = (
    record { kept = o.kept; armed = o.armed; drained = o.drained; finished = o.finished },
    (λ h. (h, rw e (omega arith))),
  )

  pub janitor_leaves-Progress :
      (p q : Pool) → IsPool c p → take_turn m c janitor_leaves p ≡ some q → Progress c p q
  unfolding take_turn
  janitor_leaves-Progress p q o h =
      enabled-Progress m c _ p _ q h (λ g. janitor-Progress p (ground arith) o)
