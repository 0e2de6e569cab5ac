-- ===== src/Manager/Shutdown/Ending.antt =====
-- A manager that is stopped comes to an end.
use mathlib.Core.List.{append-nil}
use mathlib.Core.Path.{subst}
use gotasks.Fetcher.{fetch_step}
use gotasks.Manager.Shutdown.{
  FetcherAt, at_top, full, pausing, idle, left, claiming, sending, FlusherAt, deciding, sleeping,
  Pool, Turn, stops, fetcher_looks, fetcher_nudged, finds_none, fetcher_wakes, claim_returns,
  claim_fails, fetcher_sends, fetcher_leaves, worker_takes, worker_ends, worker_leaves,
  closer_closes, flusher_decides, flusher_woken, flusher_timer, flusher_drains, janitor_leaves,
  take_turn, take_turns, spawned_pool, all_out, after_step, flush_all, looked, one_less, go_on,
}
use gotasks.Manager.Shutdown.Flusher.{
  decides-Progress, wakes_up-Progress, rings-Progress, drains-Progress,
}
use gotasks.Manager.Shutdown.Measure.{work_left, IsPool, IsDrained, Progress}
use gotasks.Manager.Shutdown.Turns.{
  looks-Progress, nudges-Progress, finds-Progress, wakes-Progress, returns-Progress, fails-Progress,
  leaves-Progress, sends-Progress,
}
use gotasks.Manager.Shutdown.Workers.{
  takes-Progress, ends-Progress, leaves_pool-Progress, closes-Progress, stops-Progress,
  janitor_leaves-Progress,
}
use gotasks.Manager.State.{Manager}
use gotasks.Options.{PipelineConfig}
use gotasks.Prelude.{
  ℕ, zero, suc, ◌+◌, ◌≤◌, ◌≡◌, refl, sym, ◌∙◌, ap, arith, Bool, true, false, ltb, Bool-cases, ◌⊎◌,
  inl, inr, List, [], ◌∷◌, ◌++◌, length, Option, none, some, if◌then◌else◌,
}
use gotasks.Prelude.Int.{pos, ◌≤ℤ◌, leb_ℤ}
use gotasks.Task.{Time}
use gotasks.Worker.Buffer.{flusher_step, empty_buffer}

-- Some goroutine can go on.
abbrev pub CanMove : Manager → PipelineConfig → Pool → Type 0
CanMove m c p = (x : Turn) × (q : Pool) × (take_turn m c x p ≡ some q)

-- All goroutines have returned, and every outcome that was put into the buffer went to the store, once
-- and in order.
abbrev pub IsEnded : Pool → Type 0
IsEnded p = (all_out p ≡ true) × (p.flushed ≡ p.buffered)

module _ (m : Manager) (c : PipelineConfig) (batch : pos 1 ≤ℤ c.finalize_batch) where
  turn-Progress : (x : Turn) (p q : Pool) → IsPool c p → take_turn m c x p ≡ some q → Progress c p q
  turn-Progress stops p q o h = stops-Progress m c p q o h
  turn-Progress fetcher_looks p q o h =
      looks-Progress m c p q p.fetcher refl o (unfold take_turn in h)
  turn-Progress fetcher_wakes p q o h =
      wakes-Progress m c p q p.fetcher refl o (unfold take_turn in h)
  turn-Progress fetcher_nudged p q o h =
      nudges-Progress m c p q p.fetcher refl o (unfold take_turn in h)
  turn-Progress finds_none p q o h = finds-Progress m c p q p.fetcher refl o (unfold take_turn in h)
  turn-Progress (claim_returns ts) p q o h =
      returns-Progress m c ts p q p.fetcher refl o (unfold take_turn in h)
  turn-Progress claim_fails p q o h =
      fails-Progress m c p q p.fetcher refl o (unfold take_turn in h)
  turn-Progress fetcher_sends p q o h =
      sends-Progress m c p q p.fetcher refl o (unfold take_turn in h)
  turn-Progress fetcher_leaves p q o h =
      leaves-Progress m c p q p.fetcher refl o (unfold take_turn in h)
  turn-Progress worker_takes p q o h = takes-Progress m c p q o h
  turn-Progress (worker_ends x now) p q o h = ends-Progress m c x now p q o h
  turn-Progress worker_leaves p q o h = leaves_pool-Progress m c p q o h
  turn-Progress closer_closes p q o h = closes-Progress m c p q o h
  turn-Progress (flusher_decides now) p q o h =
      decides-Progress m c now p q p.flusher batch refl o (unfold take_turn in h)
  turn-Progress (flusher_woken now) p q o h =
      wakes_up-Progress m c now p q p.flusher refl o (unfold take_turn in h)
  turn-Progress (flusher_timer now) p q o h =
      rings-Progress m c now p q p.flusher refl o (unfold take_turn in h)
  turn-Progress flusher_drains p q o h =
      drains-Progress m c p q p.flusher refl o (unfold take_turn in h)
  turn-Progress janitor_leaves p q o h = janitor_leaves-Progress m c p q o h

  turns-Progress :
      (xs : List Turn) (p q : Pool)
      → IsPool c p
      → take_turns m c xs p ≡ some q
      → IsPool c q
        × (p.cancelled ≡ true → (q.cancelled ≡ true) × (length xs + work_left c q ≤ work_left c p))
  unfolding take_turns
  turns-Progress [] p q o h =
      let e : p ≡ q = ground arith in
      (
        subst (IsPool c) e o,
        (λ k.
            subst (λ q. (q.cancelled ≡ true) × (0 + work_left c q ≤ work_left c p)) e
              (k, omega arith)),
      )
  turns-Progress (x ∷ xs) p q o h =
      after_turn (λ r. turns-Progress xs r q) (take_turn m c x p) refl h
    where
      after_turn :
          ((r : Pool)
            → IsPool c r
            → take_turns m c xs r ≡ some q
            → IsPool c q
              × (r.cancelled ≡ true
                  → (q.cancelled ≡ true) × (length xs + work_left c q ≤ work_left c r)))
          → (r : Option Pool) → take_turn m c x p ≡ r
          → go_on m c (λ p. take_turns m c xs p) r ≡ some q
          → IsPool c q
            × (p.cancelled ≡ true
                → (q.cancelled ≡ true) × (suc (length xs) + work_left c q ≤ work_left c p))
      after_turn rest none e h = absurd (ground arith)
      after_turn rest (some r) e h =
          let (o', less) = turn-Progress x p r o e in
          let (o'', more) = rest r o' h in
          (o'', (λ k. let (k', n) = less k in let (k'', l) = more k' in (k'', omega (arith, n, l))))

  spawned-IsPool :
      (workers : ℕ) (janitor : Bool) (now : Time) → IsPool c (spawned_pool workers janitor now)
  spawned-IsPool workers janitor now = record {
    kept = unfold empty_buffer in refl;
    armed = tt;
    drained = tt;
    finished = λ h. absurd (ground arith);
  }

  -- No deadlock, from one goroutine to the next.
  janitor-last :
      (p : Pool)
      → p.cancelled ≡ true
      → IsPool c p
      → p.fetcher ≡ left
      → p.waiting + p.busy ≡ 0
      → p.flusher ≡ left
      → IsEnded p ⊎ CanMove m c p
  unfolding all_out
  janitor-last p k o f w l = elim (Bool-cases p.janitor) [
    | inl here ↦
        inr (janitor_leaves, record p { janitor = false }, unfold take_turn in rw (k, here) refl)
    | inr out ↦
        let (closed, empty) = subst (IsDrained p) l o.drained in
        let nobody : p.waiting ≡ 0 = omega (arith, w) in
        let no_work : p.busy ≡ 0 = omega (arith, w) in
        inl (
          rw (f, nobody, no_work, closed, l, out) refl,
          sym (o.kept ∙ ap (λ os. p.flushed ++ os) empty ∙ append-nil p.flushed),
        )
  ]

  flusher-next :
      (p : Pool) (x : FlusherAt)
      → p.cancelled ≡ true
      → IsPool c p
      → p.fetcher ≡ left
      → p.waiting + p.busy ≡ 0
      → p.closed ≡ true
      → p.flusher ≡ x
      → IsEnded p ⊎ CanMove m c p
  flusher-next p (deciding t) k o f w closed e = inr (
    flusher_decides t,
    after_step t (flusher_step c t p.buffer) p,
    unfold take_turn in rw (e, reflexive t) refl,
  )
    where
      reflexive : (t : Time) → leb_ℤ t t ≡ true
      reflexive t = ground arith
  flusher-next p (sleeping d) k o f w closed e =
      inr (flusher_drains, flush_all left p, unfold take_turn in rw (e, closed) refl)
  flusher-next p left k o f w closed e = janitor-last p k o f w e

  held_one : (x n : ℕ) → x ≡ suc n → ltb 0 x ≡ true
  held_one x n e = ground arith

  workers-next :
      (p : Pool) (n b : ℕ)
      → p.cancelled ≡ true
      → IsPool c p
      → p.fetcher ≡ left
      → p.waiting ≡ n
      → p.busy ≡ b
      → IsEnded p ⊎ CanMove m c p
  workers-next p (suc n) b k o f w e = inr (
    worker_leaves,
    record p { waiting = one_less p.waiting; gone = suc p.gone },
    unfold take_turn in rw (k, held_one p.waiting n w) refl,
  )
  workers-next p zero (suc b) k o f w e = inr (
    worker_ends none (pos 0),
    record p { waiting = suc p.waiting; busy = one_less p.busy },
    unfold take_turn in rw (held_one p.busy b e) refl,
  )
  workers-next p zero zero k o f w e = elim (Bool-cases p.closed) [
    | inl closed ↦ flusher-next p p.flusher k o f (omega (arith, w, e)) closed refl
    | inr still ↦
        inr (closer_closes, record p { closed = true }, unfold take_turn in rw (still, w, e) refl)
  ]

  fetcher-next :
      (p : Pool) (f : FetcherAt)
      → p.cancelled ≡ true
      → IsPool c p
      → p.fetcher ≡ f
      → IsEnded p ⊎ CanMove m c p
  fetcher-next p at_top k o e = inr (
    fetcher_looks,
    record p { fetcher = looked m c p.cancelled (fetch_step m c p.channel) },
    unfold take_turn in rw e refl,
  )
  fetcher-next p pausing k o e =
      inr (fetcher_wakes, record p { fetcher = at_top }, unfold take_turn in rw e refl)
  fetcher-next p idle k o e =
      inr (fetcher_wakes, record p { fetcher = at_top }, unfold take_turn in rw e refl)
  fetcher-next p full k o e =
      inr (fetcher_leaves, record p { fetcher = left }, unfold take_turn in rw (e, k) refl)
  fetcher-next p (claiming n) k o e = inr (
    claim_fails,
    record p { fetcher = if p.cancelled then left else idle },
    unfold take_turn in rw e refl,
  )
  fetcher-next p (sending ts) k o e =
      inr (fetcher_leaves, record p { fetcher = left }, unfold take_turn in rw (e, k) refl)
  fetcher-next p left k o e = workers-next p p.waiting p.busy k o e refl refl

-- Once Stop has cancelled the claims of a manager in pipeline mode with the finalize buffer, however
-- its goroutines interleaved until then and go on, each handler and store call returning: they take a
-- bounded number of turns, in which rounds of the janitor do not count; as long as one of them has not
-- returned, one of them can go on; and when all have returned, every outcome that a worker put into
-- the buffer was handed to the store, once and in order.
pub stopped_pool_ends :
    (m : Manager) (c : PipelineConfig) (workers : ℕ) (janitor : Bool) (now : Time)
    (before after : List Turn) (p q : Pool)
    → pos 1 ≤ℤ c.finalize_batch
    → take_turns m c before (spawned_pool workers janitor now) ≡ some p
    → p.cancelled ≡ true
    → take_turns m c after p ≡ some q
    → (length after ≤ work_left c p) × (IsEnded q ⊎ CanMove m c q)
stopped_pool_ends m c workers janitor now before after p q batch reached stopped taken =
    let (o, _) =
      turns-Progress m c batch before (spawned_pool workers janitor now) p
        (spawned-IsPool m c batch workers janitor now) reached in
    let (o', bound) = turns-Progress m c batch after p q o taken in
    let (k, less) = bound stopped in
    (omega (arith, less), fetcher-next m c batch q q.fetcher k o' refl)
