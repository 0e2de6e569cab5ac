-- ===== src/Worker/Buffer.antt =====
-- The finalize buffer of worker.go: finBuf, finOldest and finMinLease, under finMu.
use gotasks.Worker.{fin_margin}
use gotasks.Task.{zero_time, before, Time, Outcome}
use gotasks.Store.{StoreApi}
use gotasks.Prelude.Int.{pos, quot_ℤ, leb_ℤ, ◌-ℤ◌, ◌+ℤ◌}
use gotasks.Prelude.{
  ltb, List, if◌then◌else◌, [], Option, none, map, true, false, ◌∷◌, Bool, length, ◌++◌, some,
}
use gotasks.Options.{PipelineConfig}

pub record FinBuffer : Type 0 where
  pub outcomes : List Outcome
  pub oldest : Time
  pub min_lease : Time

unfoldable pub empty_buffer : FinBuffer
empty_buffer = record { outcomes = []; oldest = zero_time; min_lease = zero_time }

abbrev pub is_empty {ℓ} : {A : Type ℓ} → List A → Bool
is_empty [] = true
is_empty (x ∷ xs) = false

-- bufferOutcome
unfoldable pub buffer_outcome : Outcome → Time → FinBuffer → FinBuffer
buffer_outcome o now b =
    let until = o.task.leased_until in
    let added = b.outcomes ++ o ∷ [] in
    if is_empty b.outcomes
    then record { outcomes = added; oldest = now; min_lease = until }
    else record b {
      outcomes = added;
      min_lease = if before until b.min_lease then until else b.min_lease;
    }

-- The deadline that flusherLoop computes for a buffer that is not empty.
unfoldable pub flush_deadline : PipelineConfig → FinBuffer → Time
flush_deadline p b =
    let aged = b.oldest +ℤ p.finalize_interval in
    let lease_edge = b.min_lease -ℤ quot_ℤ (fin_margin p) 2 in
    if before lease_edge aged then lease_edge else aged

-- What flusherLoop does with the buffer as it finds it: write it, or sleep until woken, and at most
-- until a deadline.
pub data FlushStep : Type 0 where
  flush : FlushStep
  sleep : Option Time → FlushStep

unfoldable pub flusher_step : PipelineConfig → Time → FinBuffer → FlushStep
flusher_step p now b =
    let n = length b.outcomes in
    let deadline = flush_deadline p b in
    if leb_ℤ p.finalize_batch (pos n)
    then flush
    else if ltb 0 n
    then (if before now deadline then sleep (some deadline) else flush)
    else sleep none

-- flushOutcomes: the buffer is taken, and written as one batch whose error is only logged. Each
-- entry goes with the time at which the backend writes it.
unfoldable pub flush_outcomes :
    (api : StoreApi) → (Outcome → Time) → FinBuffer → api.State → FinBuffer × api.State
flush_outcomes api written b s =
    let rest = record b { outcomes = [] } in
    let batch = map (λ o. (o, written o)) b.outcomes in
    if is_empty b.outcomes then (rest, s) else (rest, (api.finalize_batch batch s).0)
