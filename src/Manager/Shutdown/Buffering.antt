-- ===== src/Manager/Shutdown/Buffering.antt =====
-- What an outcome that is put into the buffer does to the flusher.
use gotasks.Manager.Shutdown.{left, FlusherAt, deciding, sleeping}
use gotasks.Manager.Shutdown.Measure.{flusher_work, IsArmed}
use gotasks.Options.{PipelineConfig}
use gotasks.Prelude.{
  ℕ, ◌≤◌, ◌<◌, ◌≡◌, refl, ◌∙◌, ap, arith, Bool, true, false, List, [], ◌∷◌, ◌++◌, length,
  length-append, none, some, if◌then◌else◌,
}
use gotasks.Prelude.Int.{◌≤ℤ◌}
use gotasks.Task.{Outcome, Time, before}
use gotasks.Worker.Buffer.{FinBuffer, buffer_outcome, flush_deadline, is_empty}
use gotasks.Worker.{fin_margin}
use gotasks.Prelude.Int.{◌+ℤ◌, ◌-ℤ◌, quot_ℤ, -ℤ_parts}

module _ (c : PipelineConfig) where
  pub length-buffer_outcome :
      (o : Outcome) (now : Time) (b : FinBuffer)
      → (buffer_outcome o now b).outcomes ≡ b.outcomes ++ o ∷ []
  unfolding buffer_outcome
  length-buffer_outcome o now b = on (is_empty b.outcomes)
    where
      on :
          (e : Bool)
          → (if e
              then record {
                outcomes = b.outcomes ++ o ∷ [];
                oldest = now;
                min_lease = o.task.leased_until;
              }
              else record b {
                outcomes = b.outcomes ++ o ∷ [];
                min_lease =
                    if before o.task.leased_until b.min_lease
                    then o.task.leased_until
                    else b.min_lease;
              }).outcomes
            ≡ b.outcomes ++ o ∷ []
      on true = refl
      on false = refl

  minimum_mono :
      (a x y : Time) → x ≤ℤ y → (if before x a then x else a) ≤ℤ (if before y a then y else a)
  minimum_mono a x y h = ground arith

  less_mono : (x y d : Time) → x ≤ℤ y → x -ℤ d ≤ℤ y -ℤ d
  less_mono x y d h = omega (arith, h, -ℤ_parts x d, -ℤ_parts y d)

  sooner_least : (x y : Time) → (if before x y then x else y) ≤ℤ y
  sooner_least x y = ground arith

  -- One more outcome does not put the deadline off.
  deadline-buffer_outcome :
      (o : Outcome) (now : Time) (b : FinBuffer)
      → 0 < length b.outcomes
      → flush_deadline c (buffer_outcome o now b) ≤ℤ flush_deadline c b
  unfolding buffer_outcome flush_deadline
  deadline-buffer_outcome o now b n = on b.outcomes n
    where
      on :
          (os : List Outcome)
          → 0 < length os
          → flush_deadline c (buffer_outcome o now (record b { outcomes = os }))
            ≤ℤ flush_deadline c (record b { outcomes = os })
      on [] n = absurd (omega (arith, n))
      on (x ∷ os) n =
          let least =
            if before o.task.leased_until b.min_lease then o.task.leased_until else b.min_lease in
          let half = quot_ℤ (fin_margin c) 2 in
          minimum_mono (b.oldest +ℤ c.finalize_interval) (least -ℤ half) (b.min_lease -ℤ half)
            (less_mono least b.min_lease half (sooner_least o.task.leased_until b.min_lease))

  pub buffer_outcome-IsArmed :
      (o : Outcome) (now : Time) (b : FinBuffer) (f : FlusherAt)
      → IsArmed c b f
      → IsArmed c (buffer_outcome o now b) f
  buffer_outcome-IsArmed o now b (sleeping (some d)) (n, h) =
      let e = ap length (length-buffer_outcome o now b) ∙ length-append b.outcomes (o ∷ []) in
      let k = deadline-buffer_outcome o now b n in (omega (arith, e), omega (arith, h, k))
  buffer_outcome-IsArmed o now b (sleeping none) h = tt
  buffer_outcome-IsArmed o now b (deciding t) h = tt
  buffer_outcome-IsArmed o now b left h = tt

  pub flusher_work-small : (b : FinBuffer) (f : FlusherAt) (n : ℕ) → n ≡ flusher_work c b f → n ≤ 3
  flusher_work-small b left n e = omega (arith, e)
  flusher_work-small b (sleeping d) n e = omega (arith, e)
  flusher_work-small b (deciding t) n e = ground arith
