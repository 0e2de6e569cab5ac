-- ===== src/Manager/Shutdown/Measure.antt =====
-- What is left of the work of a pool that is cancelled, and what holds of every pool.
use gotasks.Manager.Shutdown.{
  FetcherAt, at_top, full, pausing, idle, left, claiming, sending, FlusherAt, deciding, sleeping,
  Pool,
}
use gotasks.Options.{PipelineConfig}
use gotasks.Prelude.{
  ℕ, ◌+◌, ◌*◌, ◌<◌, ◌≡◌, Bool, true, false, not, ◌&&◌, ltb, [], ◌++◌, length, some, if◌then◌else◌,
}
use gotasks.Prelude.Int.{pos_part, ◌≤ℤ◌}
use gotasks.Task.{Time, before}
use gotasks.Worker.Buffer.{FinBuffer, flush_deadline}

abbrev pub fetcher_work : FetcherAt → ℕ
fetcher_work left = 0
fetcher_work at_top = 1
fetcher_work full = 2
fetcher_work pausing = 2
fetcher_work idle = 2
fetcher_work (sending ts) = 3 + 15 * length ts
fetcher_work (claiming k) = 4 + 15 * pos_part k

abbrev pub bit : Bool → ℕ
bit true = 1
bit false = 0

-- Whether the flusher is sure to flush when it decides at a time or later.
abbrev pub is_due : PipelineConfig → Time → FinBuffer → Bool
is_due c now b = ltb 0 (length b.outcomes) && not (before now (flush_deadline c b))

abbrev pub flusher_work : PipelineConfig → FinBuffer → FlusherAt → ℕ
flusher_work c b left = 0
flusher_work c b (sleeping d) = 1
flusher_work c b (deciding since) = if is_due c since b then 0 else 3

unfoldable pub work_left : PipelineConfig → Pool → ℕ
work_left c p =
    (fetcher_work p.fetcher + 14 * length p.channel)
    + (p.waiting + 13 * p.busy)
    + (bit (not p.closed) + bit p.janitor)
    + (4 * length p.buffer.outcomes + 4 * bit p.woken + flusher_work c p.buffer p.flusher)

-- A flusher that sleeps until a deadline has outcomes, whose own deadline is not later.
abbrev pub IsArmed : PipelineConfig → FinBuffer → FlusherAt → Type 0
IsArmed c b (sleeping (some d)) = (0 < length b.outcomes) × (flush_deadline c b ≤ℤ d)
IsArmed c b _ = Unit

abbrev pub IsDrained : Pool → FlusherAt → Type 0
IsDrained p left = (p.closed ≡ true) × (p.buffer.outcomes ≡ [])
IsDrained p _ = Unit

pub record IsPool (c : PipelineConfig) (p : Pool) : Type 0 where
  -- Every outcome is flushed, in order, or in the buffer.
  pub kept : p.buffered ≡ p.flushed ++ p.buffer.outcomes
  pub armed : IsArmed c p.buffer p.flusher
  pub drained : IsDrained p p.flusher
  pub finished : p.closed ≡ true → p.waiting + p.busy ≡ 0

-- A turn that keeps the pool in order and has done some of the work.
abbrev pub Progress : PipelineConfig → Pool → Pool → Type 0
Progress c p q =
    IsPool c q × (p.cancelled ≡ true → (q.cancelled ≡ true) × (work_left c q < work_left c p))
