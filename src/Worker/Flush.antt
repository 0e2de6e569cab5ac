-- ===== src/Worker/Flush.antt =====
-- The finalize buffer of worker.go: how long an outcome can stay in it.
use gotasks.Store.{StoreApi}
use gotasks.Worker.{fin_margin}
use gotasks.Options.{PipelineConfig}
use gotasks.Worker.Buffer.{
  flush_outcomes, is_empty, flusher_step, flush_deadline, flush, sleep, FlushStep, FinBuffer,
  buffer_outcome, empty_buffer,
}
use mathlib.Core.Path.{subst}
use gotasks.Task.{Duration, before, Time, Outcome}
use gotasks.Prelude.Int.{◌-ℤ◌, leb_ℤ, -ℤ_parts, +ℤ_parts, ◌+ℤ◌, ◌<ℤ◌, quot_ℤ, pos, ◌≤ℤ◌}
use gotasks.Prelude.{
  suc, ◌++◌, length-append, false, inr, true, inl, refl, Bool-cases, ltb, if◌then◌else◌, ◌≡◌, [],
  length, All-append, none, some, ◌<◌, ◌∷◌, All-map, All, arith, List,
}

-- No buffered outcome has a lease that ends before the earliest one that the buffer records.
pub IsBuffered : FinBuffer → Type 0
IsBuffered b = All (λ o. b.min_lease ≤ℤ o.task.leased_until) b.outcomes

pub empty_buffer-IsBuffered : IsBuffered empty_buffer
unfolding empty_buffer IsBuffered
empty_buffer-IsBuffered = tt

lower :
    (a b : Time) (os : List Outcome)
    → a ≤ℤ b
    → All (λ o. b ≤ℤ o.task.leased_until) os
    → All (λ o. a ≤ℤ o.task.leased_until) os
lower a b os le h =
    All-map (λ o. b ≤ℤ o.task.leased_until) (λ o. a ≤ℤ o.task.leased_until) os
      (λ o ge. omega (arith, le, ge)) h

abbrev sooner : Time → Time → Time
sooner a b = if before a b then a else b

sooner-le-left : (a b : Time) → sooner a b ≤ℤ a
sooner-le-left a b = ground arith

sooner-le-right : (a b : Time) → sooner a b ≤ℤ b
sooner-le-right a b = ground arith

added-IsBuffered :
    (o : Outcome) (now oldest least : Time) (os : List Outcome)
    → All (λ o. least ≤ℤ o.task.leased_until) os
    → IsBuffered
        (buffer_outcome o now (record { outcomes = os; oldest = oldest; min_lease = least }))
unfolding buffer_outcome IsBuffered
added-IsBuffered o now oldest least [] h = (ground arith, tt)
added-IsBuffered o now oldest least (x ∷ os) h =
    All-append (λ o'. sooner o.task.leased_until least ≤ℤ o'.task.leased_until) (x ∷ os) (o ∷ [])
      (lower (sooner o.task.leased_until least) least (x ∷ os)
        (sooner-le-right o.task.leased_until least) h)
      (sooner-le-left o.task.leased_until least, tt)

pub buffer_outcome-IsBuffered :
    (o : Outcome) (now : Time) (b : FinBuffer) → IsBuffered b → IsBuffered (buffer_outcome o now b)
unfolding IsBuffered
buffer_outcome-IsBuffered o now b h = added-IsBuffered o now b.oldest b.min_lease b.outcomes h

-- What happens to the buffer: a worker adds an outcome, or the flusher takes what is there.
pub data BufferEvent : Type 0 where
  add : Outcome → Time → BufferEvent
  take_all : BufferEvent

abbrev pub buffer_event : BufferEvent → FinBuffer → FinBuffer
buffer_event (add o now) b = buffer_outcome o now b
buffer_event take_all b = record b { outcomes = [] }

-- The second event is what flushOutcomes does to the buffer, over any backend.
flush_outcomes-taken :
    (api : StoreApi) (written : Outcome → Time) (b : FinBuffer) (s : api.State)
    → (flush_outcomes api written b s).0 ≡ buffer_event take_all b
unfolding flush_outcomes
flush_outcomes-taken api written b s = elim (Bool-cases (is_empty b.outcomes)) [
  | inl empty ↦ rw empty refl
  | inr full ↦ rw full refl
]

abbrev pub buffer_run : List BufferEvent → FinBuffer → FinBuffer
buffer_run [] b = b
buffer_run (e ∷ es) b = buffer_run es (buffer_event e b)

buffer_event-IsBuffered :
    (e : BufferEvent) (b : FinBuffer) → IsBuffered b → IsBuffered (buffer_event e b)
unfolding IsBuffered
buffer_event-IsBuffered (add o now) b h = buffer_outcome-IsBuffered o now b h
buffer_event-IsBuffered take_all b h = tt

buffer_run-IsBuffered :
    (es : List BufferEvent) (b : FinBuffer) → IsBuffered b → IsBuffered (buffer_run es b)
buffer_run-IsBuffered [] b h = h
buffer_run-IsBuffered (e ∷ es) b h =
    buffer_run-IsBuffered es (buffer_event e b) (buffer_event-IsBuffered e b h)

-- When the outcomes that are in the buffer were added, the first one first.
abbrev pub entered : List BufferEvent → List Time → List Time
entered [] ts = ts
entered (add o now ∷ es) ts = entered es (ts ++ now ∷ [])
entered (take_all ∷ es) ts = entered es []

-- The buffer records when its first outcome was added.
abbrev IsDated : FinBuffer → List Time → Type 0
IsDated b [] = b.outcomes ≡ []
IsDated b (t ∷ ts) = (b.oldest ≡ t) × (length b.outcomes ≡ suc (length ts))

added-IsDated :
    (o : Outcome) (now oldest least : Time) (os : List Outcome) (ts : List Time)
    → IsDated (record { outcomes = os; oldest = oldest; min_lease = least }) ts
    → IsDated
        (buffer_outcome o now (record { outcomes = os; oldest = oldest; min_lease = least }))
        (ts ++ now ∷ [])
unfolding buffer_outcome
added-IsDated o now oldest least [] [] h = (refl, refl)
added-IsDated o now oldest least [] (t ∷ ts) h = absurd (ground arith)
added-IsDated o now oldest least (x ∷ os) [] h = absurd (ground arith)
added-IsDated o now oldest least (x ∷ os) (t ∷ ts) h =
    let (same, size) = h in
    let one = length-append (x ∷ os) (o ∷ []) in
    let other = length-append ts (now ∷ []) in (same, omega (arith, size, one, other))

buffer_run-IsDated :
    (es : List BufferEvent) (b : FinBuffer) (ts : List Time)
    → IsDated b ts
    → IsDated (buffer_run es b) (entered es ts)
buffer_run-IsDated [] b ts h = h
buffer_run-IsDated (add o now ∷ es) b ts h =
    buffer_run-IsDated es (buffer_outcome o now b) (ts ++ now ∷ [])
      (added-IsDated o now b.oldest b.min_lease b.outcomes ts h)
buffer_run-IsDated (take_all ∷ es) b ts h =
    buffer_run-IsDated es (record b { outcomes = [] }) [] refl

-- At most the interval after the first of these times.
abbrev pub AgesBy : Duration → Time → List Time → Type 0
AgesBy interval d [] = ⊥
AgesBy interval d (t ∷ ts) = d ≤ℤ t +ℤ interval

-- A sleep until `d` that starts at `now`: it ends, in the future, half a margin before every
-- buffered lease, and a flush interval after the first of the buffered outcomes was added at the
-- latest, and the buffer is not empty and not full.
pub record IsSafeSleep (p : PipelineConfig) (now : Time) (ts : List Time) (b : FinBuffer) (d : Time)
    : Type 0 where
  pub later : now <ℤ d
  pub leased : All (λ o. d +ℤ quot_ℤ (fin_margin p) 2 ≤ℤ o.task.leased_until) b.outcomes
  pub aged : AgesBy p.finalize_interval d ts
  pub held : length b.outcomes ≡ length ts
  pub free : pos (length b.outcomes) <ℤ p.finalize_batch

-- What the flusher's next step promises: it flushes outcomes that are there, and sleeps without a
-- timer only on an empty buffer.
abbrev pub IsSafeStep : PipelineConfig → Time → List Time → FinBuffer → FlushStep → Type 0
IsSafeStep p now ts b flush = 0 < length b.outcomes
IsSafeStep p now ts b (sleep none) = b.outcomes ≡ []
IsSafeStep p now ts b (sleep (some d)) = IsSafeSleep p now ts b d

deadline-le-aged :
    (p : PipelineConfig) (b : FinBuffer) → flush_deadline p b ≤ℤ b.oldest +ℤ p.finalize_interval
unfolding flush_deadline
deadline-le-aged p b =
    sooner-le-right (b.min_lease -ℤ quot_ℤ (fin_margin p) 2) (b.oldest +ℤ p.finalize_interval)

deadline-le-edge :
    (p : PipelineConfig) (b : FinBuffer)
    → flush_deadline p b ≤ℤ b.min_lease -ℤ quot_ℤ (fin_margin p) 2
unfolding flush_deadline
deadline-le-edge p b =
    sooner-le-left (b.min_lease -ℤ quot_ℤ (fin_margin p) 2) (b.oldest +ℤ p.finalize_interval)

room-before : (d least half lease : Time) → d ≤ℤ least -ℤ half → least ≤ℤ lease → d +ℤ half ≤ℤ lease
room-before d least half lease h1 h2 = omega (arith, -ℤ_parts least half, +ℤ_parts d half, h1, h2)

deadline-leased :
    (p : PipelineConfig) (b : FinBuffer)
    → IsBuffered b
    → All (λ o. flush_deadline p b +ℤ quot_ℤ (fin_margin p) 2 ≤ℤ o.task.leased_until) b.outcomes
unfolding IsBuffered
deadline-leased p b h =
    All-map (λ o. b.min_lease ≤ℤ o.task.leased_until)
      (λ o. flush_deadline p b +ℤ quot_ℤ (fin_margin p) 2 ≤ℤ o.task.leased_until) b.outcomes
      (λ o.
        room-before (flush_deadline p b) b.min_lease (quot_ℤ (fin_margin p) 2) o.task.leased_until
          (deadline-le-edge p b))
      h

empty-list : (os : List Outcome) → ltb 0 (length os) ≡ false → os ≡ []
empty-list [] h = refl
empty-list (o ∷ os) h = ground arith

aged-by :
    (p : PipelineConfig) (b : FinBuffer) (ts : List Time)
    → IsDated b ts
    → 0 < length b.outcomes
    → AgesBy p.finalize_interval (flush_deadline p b) ts × (length b.outcomes ≡ length ts)
aged-by p b [] h held = absurd (ground arith)
aged-by p b (t ∷ ts) (same, size) held =
    (subst (λ t. flush_deadline p b ≤ℤ t +ℤ p.finalize_interval) same (deadline-le-aged p b), size)

sleeps :
    (p : PipelineConfig) (now : Time) (ts : List Time) (b : FinBuffer)
    → IsBuffered b
    → IsDated b ts
    → leb_ℤ p.finalize_batch (pos (length b.outcomes)) ≡ false
    → ltb 0 (length b.outcomes) ≡ true
    → before now (flush_deadline p b) ≡ true
    → IsSafeSleep p now ts b (flush_deadline p b)
sleeps p now ts b h k full some_held early =
    let (aged, size) = aged-by p b ts k (ground arith) in
    record {
      later = ground arith;
      leased = deadline-leased p b h;
      aged = aged;
      held = size;
      free = ground arith;
    }

safe-step :
    (p : PipelineConfig) (now : Time) (ts : List Time) (b : FinBuffer)
    → pos 1 ≤ℤ p.finalize_batch
    → IsBuffered b
    → IsDated b ts
    → IsSafeStep p now ts b (flusher_step p now b)
unfolding flusher_step
safe-step p now ts b l h k = elim (Bool-cases (leb_ℤ p.finalize_batch (pos (length b.outcomes)))) [
  | inl full ↦ rw full (ground (arith, l))
  | inr full ↦ elim (Bool-cases (ltb 0 (length b.outcomes))) [
    | inr empty ↦ rw (full, empty) (empty-list b.outcomes empty)
    | inl held ↦ elim (Bool-cases (before now (flush_deadline p b))) [
      | inl early ↦ rw (full, held, early) (sleeps p now ts b h k full held early)
      | inr late ↦ rw (full, held, late) (ground arith)
    ]
  ]
]

-- For a batch size of one or more, whatever outcomes were buffered and taken before, in any order and
-- at any times: the flusher flushes only if there are outcomes, sleeps without a timer only if there
-- are none, and otherwise sleeps only while the buffer is not full and at most until a future time
-- that lies half a safety margin before the end of every buffered lease, and no later than a flush
-- interval after the time at which the first of the buffered outcomes was added.
pub flusher_step-IsSafeStep :
    (p : PipelineConfig) (now : Time) (es : List BufferEvent)
    → pos 1 ≤ℤ p.finalize_batch
    → IsSafeStep p now
        (entered es [])
        (buffer_run es empty_buffer)
        (flusher_step p now (buffer_run es empty_buffer))
flusher_step-IsSafeStep p now es l =
    safe-step p now (entered es []) (buffer_run es empty_buffer) l
      (buffer_run-IsBuffered es empty_buffer empty_buffer-IsBuffered)
      (buffer_run-IsDated es empty_buffer [] (unfold empty_buffer in refl))
