-- ===== src/Fetcher/Bounds.antt =====
-- The bounds that keep the fetcher of fetcher.go within its channel, and awake.
use gotasks.Manager.New.{min_ℤ}
use gotasks.Worker.{max_ℤ}
use gotasks.Task.{Task}
use gotasks.Prelude.Int.{◌+ℤ◌, ℤ, ◌≤ℤ◌, ltb_ℤ, pos, ◌-ℤ◌, quot_ℤ}
use gotasks.Prelude.{inl, List, ◌<◌, length, true, Bool-cases, arith, false, ℕ, ◌≡◌, inr}
use gotasks.Options.{PipelineConfig}
use gotasks.Manager.State.{Manager}
use gotasks.Fetcher.{
  FetchStep, claim_up_to, low_water, wait_for_nudge, fetch_step, channel_capacity,
}

abbrev pub IsFetchStep : Manager → PipelineConfig → List Task → FetchStep → Type 0
IsFetchStep m p channel wait_for_nudge = 0 < length channel
IsFetchStep m p channel (claim_up_to k) =
    (pos 1 ≤ℤ k)
    × (low_water p ≤ℤ k)
    × (k ≤ℤ p.claim_batch)
    × (pos (length channel) +ℤ k ≤ℤ channel_capacity m p)

free-bounds :
    (w b : ℤ) (n : ℕ)
    → pos 1 ≤ℤ w
    → pos 1 ≤ℤ b
    → ltb_ℤ ((w +ℤ b) -ℤ pos n) (max_ℤ (pos 1) (quot_ℤ b 2)) ≡ true
    → 0 < n
unfolding ◌+ℤ◌ ◌-ℤ◌ quot_ℤ
free-bounds w b n hw hb h = ground arith

room :
    (w b : ℤ) (n : ℕ)
    → pos 1 ≤ℤ w
    → pos 1 ≤ℤ b
    → ltb_ℤ ((w +ℤ b) -ℤ pos n) (max_ℤ (pos 1) (quot_ℤ b 2)) ≡ false
    → let k = min_ℤ b ((w +ℤ b) -ℤ pos n) in
      (pos 1 ≤ℤ k) × (max_ℤ (pos 1) (quot_ℤ b 2) ≤ℤ k) × (k ≤ℤ b) × (pos n +ℤ k ≤ℤ w +ℤ b)
unfolding ◌+ℤ◌ ◌-ℤ◌ quot_ℤ
room w b n hw hb h = (ground arith, ground arith, ground arith, ground arith)

-- With at least one worker and a claim batch of at least one, as New requires: the fetcher waits for
-- a worker's nudge only if there is a task in the channel for a worker to take. Otherwise it claims
-- at least one task, at least the low-water mark and at most a batch, and never more than the
-- channel has room for.
pub fetch_step-IsFetchStep :
    (m : Manager) (p : PipelineConfig) (channel : List Task)
    → pos 1 ≤ℤ m.cfg.workers
    → pos 1 ≤ℤ p.claim_batch
    → IsFetchStep m p channel (fetch_step m p channel)
unfolding fetch_step low_water channel_capacity
fetch_step-IsFetchStep m p channel hw hb =
    let free = channel_capacity m p -ℤ pos (length channel) in
    elim (Bool-cases (ltb_ℤ free (low_water p))) [
      | inl short ↦ rw short (free-bounds m.cfg.workers p.claim_batch (length channel) hw hb short)
      | inr enough ↦ rw enough (room m.cfg.workers p.claim_batch (length channel) hw hb enough)
    ]
