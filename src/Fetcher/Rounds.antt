-- ===== src/Fetcher/Rounds.antt =====
-- The iterations of fetcherLoop on memstore: the channel never holds more than it has room for.
use gotasks.Prelude.Text.{bytes}
use gotasks.MemStore.Invariant.Batches.{claim_loop-IsValid}
use gotasks.MemStore.Claim.Batch.{length-claim_loop}
use gotasks.MemStore.Api.{mem_api}
use gotasks.Fetcher.Bounds.{fetch_step-IsFetchStep, IsFetchStep}
use gotasks.Task.{Time, Task}
use gotasks.Prelude.Int.{negsuc, +ℤ_parts, pos, ◌≤ℤ◌}
use gotasks.Prelude.{◌++◌, arith, length, ◌≡◌, ◌∷◌, ℕ, ◌+◌, List, [], refl, ◌≤◌, length-append}
use gotasks.Options.{PipelineConfig}
use gotasks.MemStore.State.{Store}
use gotasks.MemStore.Invariant.{IsValid}
use gotasks.MemStore.Claim.{claim_loop, claim_batch, or_none_claimed}
use gotasks.Manager.State.{claim_options, Manager, count}
use gotasks.Fetcher.{
  FetchStep, fetch_step, wait_for_nudge, fetched, fetch_once, claim_up_to, delivered, FetchNext,
  count_claimed, channel_capacity,
}

-- A fetcher between two iterations.
pub record Fits (m : Manager) (p : PipelineConfig) (channel : List Task) (s : Store) : Type 0 where
  pub valid : IsValid s
  pub bounded : pos (length channel) ≤ℤ channel_capacity m p

count_claimed-cfg : (ts : List Task) (m : Manager) → (count_claimed ts m).cfg ≡ m.cfg
unfolding count
count_claimed-cfg [] m = refl
count_claimed-cfg (t ∷ ts) m = count_claimed-cfg ts _

abbrev pub FitsAfter : PipelineConfig → Manager × List Task × Store × FetchNext → Type 0
FitsAfter p (m, channel, s, next) = Fits m p channel s

delivered-Fits :
    (m : Manager) (p : PipelineConfig) (channel : List Task) (k : ℕ) (r : Store × List Task)
    → IsValid r.0
    → length r.1 ≤ k
    → pos (length channel + k) ≤ℤ channel_capacity m p
    → FitsAfter p (delivered m channel (or_none_claimed r))
unfolding channel_capacity
delivered-Fits m p channel k (s, []) v le fits = record { valid = v; bounded = omega arith }
delivered-Fits m p channel k (s, t ∷ ts) v le fits = record {
  valid = v;
  bounded = rw (count_claimed-cfg (t ∷ ts) m, length-append channel (t ∷ ts)) (omega arith);
}

stepped-Fits :
    (m : Manager) (p : PipelineConfig) (channel : List Task) (now : Time) (s : Store)
    (step : FetchStep)
    → pos 0 ≤ℤ p.queue_lease
    → Fits m p channel s
    → IsFetchStep m p channel step
    → FitsAfter p (fetched mem_api m p channel now s step)
unfolding claim_batch claim_options
stepped-Fits m p channel now s wait_for_nudge lease f h = f
stepped-Fits m p channel now s (claim_up_to (negsuc k)) lease f (low, _, _, fits) =
    absurd (omega arith)
stepped-Fits m p channel now s (claim_up_to (pos k)) lease f (low, _, _, fits) =
    let options = claim_options m (m.manager_id ++ bytes ".fetcher") p.queue_lease in
    delivered-Fits m p channel k (claim_loop k options now s)
      (claim_loop-IsValid k options now s f.valid)
      (omega (arith, length-claim_loop options now k s f.valid.distinct lease))
      (omega (arith, fits, +ℤ_parts (pos (length channel)) (pos k)))

-- An iteration of the fetcher on a valid memstore, with at least one worker, a claim batch of at
-- least one and a queue lease that is not negative, keeps the store valid, and the tasks in the
-- channel within its capacity.
pub fetch_once-Fits :
    (m : Manager) (p : PipelineConfig) (channel : List Task) (now : Time) (s : Store)
    → pos 1 ≤ℤ m.cfg.workers
    → pos 1 ≤ℤ p.claim_batch
    → pos 0 ≤ℤ p.queue_lease
    → Fits m p channel s
    → FitsAfter p (fetch_once mem_api m p channel now s)
unfolding fetch_once
fetch_once-Fits m p channel now s workers batch lease f =
    stepped-Fits m p channel now s (fetch_step m p channel) lease f
      (fetch_step-IsFetchStep m p channel workers batch)
