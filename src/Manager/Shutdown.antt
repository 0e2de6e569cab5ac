-- ===== src/Manager/Shutdown.antt =====
-- The goroutines of a manager in pipeline mode with the finalize buffer, as they interleave: the
-- fetcher, the workers, the one that closes workersDone, the flusher and the janitor, and Stop. Each
-- turn is one goroutine's way from one select or call of the store to the next; the flusher's decision
-- and its taking of the buffer are one turn.
--
-- What the turns write to the store, and what a worker does with a task, stand in Worker and Fetcher.
-- A round of the janitor, which changes nothing here, is no turn.
pub mod Measure
pub mod Turns
pub mod Buffering
pub mod Workers
pub mod Flusher
pub mod Ending
use gotasks.Fetcher.{fetch_step, FetchStep, wait_for_nudge, claim_up_to, channel_capacity}
use gotasks.Manager.State.{Manager}
use gotasks.Options.{PipelineConfig}
use gotasks.Prelude.{
  ℕ, zero, suc, ◌+◌, Bool, true, false, not, ◌&&◌, ltb, List, [], ◌∷◌, ◌++◌, length, Option, none,
  some, if◌then◌else◌,
}
use gotasks.Prelude.Int.{ℤ, pos, leb_ℤ, ltb_ℤ}
use gotasks.Task.{Task, Outcome, Time, before}
use gotasks.Worker.Buffer.{
  FinBuffer, empty_buffer, buffer_outcome, FlushStep, flush, sleep, flusher_step,
}

-- `full` waits for a worker to take a task, `pausing` is the pause of 10 ms, and `idle` is in idleWait.
pub data FetcherAt : Type 0 where
  at_top full pausing idle left : FetcherAt
  claiming : ℤ → FetcherAt
  sending : List Task → FetcherAt

-- `deciding` with the time of its last wake-up, `sleeping` with the deadline of its timer.
pub data FlusherAt : Type 0 where
  deciding : Time → FlusherAt
  sleeping : Option Time → FlusherAt
  left : FlusherAt

pub record Pool : Type 0 where
  -- claimCtx is cancelled.
  pub cancelled : Bool
  pub fetcher : FetcherAt
  pub channel : List Task
  -- fetchNudge has a token.
  pub nudged : Bool
  -- How many workers wait for a task, work on one, and have returned.
  pub waiting : ℕ
  pub busy : ℕ
  pub gone : ℕ
  -- workersDone is closed.
  pub closed : Bool
  pub buffer : FinBuffer
  -- finWake has a token.
  pub woken : Bool
  pub flusher : FlusherAt
  pub janitor : Bool
  -- What workers put into the buffer so far, and what went to the store from it, in order.
  pub buffered : List Outcome
  pub flushed : List Outcome

pub data Turn : Type 0 where
  stops fetcher_looks fetcher_nudged fetcher_wakes finds_none claim_fails fetcher_sends
        fetcher_leaves :
      Turn
  claim_returns : List Task → Turn
  worker_takes worker_leaves closer_closes flusher_drains janitor_leaves : Turn
  -- With an outcome for the buffer; or with none, since it was written at once or there is none.
  worker_ends : Option Outcome → Time → Turn
  flusher_decides flusher_woken flusher_timer : Time → Turn

abbrev pub enabled : Bool → Pool → Option Pool
enabled true p = some p
enabled false p = none

-- The flusher takes the buffer.
abbrev pub flush_all : FlusherAt → Pool → Pool
flush_all f p = record p {
  flushed = p.flushed ++ p.buffer.outcomes;
  buffer = record p.buffer { outcomes = [] };
  flusher = f;
}

abbrev pub after_step : Time → FlushStep → Pool → Pool
after_step now flush p = flush_all (deciding now) p
after_step now (sleep d) p = record p { flusher = sleeping d }

abbrev pub with_outcome : Option Outcome → Time → Pool → Pool
with_outcome none now p = p
with_outcome (some o) now p = record p {
  buffer = buffer_outcome o now p.buffer;
  woken = true;
  buffered = p.buffered ++ o ∷ [];
}

abbrev pub one_less : ℕ → ℕ
one_less zero = zero
one_less (suc n) = n

abbrev pub all_but_first : List Task → List Task
all_but_first [] = []
all_but_first (t ∷ ts) = ts

module _ (m : Manager) (c : PipelineConfig) where
  abbrev pub looked : Bool → FetchStep → FetcherAt
  looked true step = left
  looked false wait_for_nudge = full
  looked false (claim_up_to k) = claiming k

  abbrev pub looks : Pool → FetcherAt → Option Pool
  looks p at_top = some (record p { fetcher = looked p.cancelled (fetch_step m c p.channel) })
  looks p _ = none

  -- The receive from fetchNudge: without a token, only the end of claimCtx ends the wait.
  abbrev pub nudges : Pool → FetcherAt → Option Pool
  nudges p full = enabled p.nudged (record p { fetcher = at_top; nudged = false })
  nudges p _ = none

  -- A pause and idleWait end with their timers, and idleWait with claimCtx.
  abbrev pub wakes : Pool → FetcherAt → Option Pool
  wakes p pausing = some (record p { fetcher = at_top })
  wakes p idle = some (record p { fetcher = at_top })
  wakes p _ = none

  -- A batch that is not empty is sent task by task; after an empty one there is a pause.
  abbrev pub with_batch : List Task → FetcherAt
  with_batch [] = pausing
  with_batch (t ∷ ts) = sending (t ∷ ts)

  abbrev pub returns : List Task → Pool → FetcherAt → Option Pool
  returns ts p (claiming k) =
      enabled (leb_ℤ (pos (length ts)) k) (record p { fetcher = with_batch ts })
  returns ts p _ = none

  -- ErrNoTask
  abbrev pub finds : Pool → FetcherAt → Option Pool
  finds p (claiming k) = some (record p { fetcher = idle })
  finds p _ = none

  abbrev pub fails : Pool → FetcherAt → Option Pool
  fails p (claiming k) = some (record p { fetcher = if p.cancelled then left else idle })
  fails p _ = none

  abbrev pub sends : Pool → FetcherAt → Option Pool
  sends p (sending []) = some (record p { fetcher = at_top })
  sends p (sending (t ∷ ts)) =
      enabled (ltb_ℤ (pos (length p.channel)) (channel_capacity m c))
        (record p { fetcher = sending ts; channel = p.channel ++ t ∷ [] })
  sends p _ = none

  abbrev pub leaves : Pool → FetcherAt → Option Pool
  leaves p full = enabled p.cancelled (record p { fetcher = left })
  leaves p pausing = enabled p.cancelled (record p { fetcher = left })
  leaves p (sending ts) = enabled p.cancelled (record p { fetcher = left })
  leaves p _ = none

  abbrev pub decides : Time → Pool → FlusherAt → Option Pool
  decides now p (deciding since) =
      enabled (leb_ℤ since now) (after_step now (flusher_step c now p.buffer) p)
  decides now p _ = none

  abbrev pub wakes_up : Time → Pool → FlusherAt → Option Pool
  wakes_up now p (sleeping d) = enabled p.woken (record p { woken = false; flusher = deciding now })
  wakes_up now p _ = none

  abbrev pub rings : Time → Pool → FlusherAt → Option Pool
  rings now p (sleeping (some d)) =
      enabled (not (before now d)) (record p { flusher = deciding now })
  rings now p _ = none

  abbrev pub drains : Pool → FlusherAt → Option Pool
  drains p (sleeping d) = enabled p.closed (flush_all left p)
  drains p _ = none

  -- None, if the goroutine cannot move that way.
  unfoldable pub take_turn : Turn → Pool → Option Pool
  take_turn stops p = enabled (not p.cancelled) (record p { cancelled = true })
  take_turn fetcher_looks p = looks p p.fetcher
  take_turn fetcher_nudged p = nudges p p.fetcher
  take_turn fetcher_wakes p = wakes p p.fetcher
  take_turn finds_none p = finds p p.fetcher
  take_turn (claim_returns ts) p = returns ts p p.fetcher
  take_turn claim_fails p = fails p p.fetcher
  take_turn fetcher_sends p = sends p p.fetcher
  take_turn fetcher_leaves p = leaves p p.fetcher
  take_turn worker_takes p = enabled (ltb 0 p.waiting && ltb 0 (length p.channel)) (record p {
    waiting = one_less p.waiting;
    busy = suc p.busy;
    channel = all_but_first p.channel;
    nudged = true;
  })
  take_turn (worker_ends o now) p =
      enabled (ltb 0 p.busy)
        (with_outcome o now (record p { waiting = suc p.waiting; busy = one_less p.busy }))
  take_turn worker_leaves p =
      enabled (p.cancelled && ltb 0 p.waiting)
        (record p { waiting = one_less p.waiting; gone = suc p.gone })
  take_turn closer_closes p =
      enabled (not p.closed && not (ltb 0 (p.waiting + p.busy))) (record p { closed = true })
  take_turn (flusher_decides now) p = decides now p p.flusher
  take_turn (flusher_woken now) p = wakes_up now p p.flusher
  take_turn (flusher_timer now) p = rings now p p.flusher
  take_turn flusher_drains p = drains p p.flusher
  take_turn janitor_leaves p = enabled (p.cancelled && p.janitor) (record p { janitor = false })

  abbrev pub go_on : (Pool → Option Pool) → Option Pool → Option Pool
  go_on rest none = none
  go_on rest (some p) = rest p

  unfoldable pub take_turns : List Turn → Pool → Option Pool
  take_turns [] p = some p
  take_turns (x ∷ xs) p = go_on (λ p. take_turns xs p) (take_turn x p)

-- What Start spawns, at a time.
abbrev pub spawned_pool : (workers : ℕ) → (janitor : Bool) → Time → Pool
spawned_pool workers janitor now = record {
  cancelled = false;
  fetcher = at_top;
  channel = [];
  nudged = false;
  waiting = workers;
  busy = 0;
  gone = 0;
  closed = false;
  buffer = empty_buffer;
  woken = false;
  flusher = deciding now;
  janitor = janitor;
  buffered = [];
  flushed = [];
}

abbrev pub fetcher_out : FetcherAt → Bool
fetcher_out left = true
fetcher_out _ = false

abbrev pub flusher_out : FlusherAt → Bool
flusher_out left = true
flusher_out _ = false

-- m.wg is at zero: Stop returns.
unfoldable pub all_out : Pool → Bool
all_out p =
    fetcher_out p.fetcher
    && (not (ltb 0 (p.waiting + p.busy)) && (p.closed && (flusher_out p.flusher && not p.janitor)))
