-- ===== src/Janitor/Totals.antt =====
-- No event is lost or counted twice between the manager's counters and memstore.
use gotasks.Worker.Buffer.{is_empty}
use gotasks.MemStore.Api.{mem_api}
use gotasks.Manager.State.{Manager}
use gotasks.Task.{Time, QueueCounters}
use gotasks.Prelude.Text.{text_eq, Text}
use gotasks.Prelude.{
  Option, map, some, none, ap, ◌∙◌, true, Bool-cases, inl, Bool, false, sym, inr, ◌≡◌, ◌++◌, ◌∷◌,
  if◌then◌else◌, List, arith, [], refl,
}
use gotasks.MemStore.State.{Store, Metric}
use gotasks.MemStore.Metrics.{
  snapshot_metrics, snapshot_queue, record_counters, has_gauge, counter_totals, sum_counters,
  add_counters, no_counters,
}
use gotasks.Janitor.{flush_metrics, counter_entries, reset_counters, is_zero, to_write}

-- What the entries hold for a queue.
abbrev pub pending_totals : Text → List (Text × QueueCounters) → QueueCounters
pending_totals q [] = no_counters
pending_totals q ((p, c) ∷ cs) =
    let rest = pending_totals q cs in if text_eq p q then add_counters c rest else rest

add_assoc :
    (a b c : QueueCounters) → add_counters (add_counters a b) c ≡ add_counters a (add_counters b c)
add_assoc a b c = ground arith

add_none : (a : QueueCounters) → add_counters a no_counters ≡ a
add_none a = ground arith

sum-append :
    (q : Text) (ms ns : List Metric) (out : QueueCounters)
    → sum_counters q out (ms ++ ns) ≡ sum_counters q (sum_counters q out ms) ns
unfolding sum_counters
sum-append q [] ns out = refl
sum-append q (m ∷ ms) ns out = sum-append q ms ns _

-- Entries that are all zero add nothing.
zero-skipped :
    (c rest : QueueCounters) (b : Bool)
    → is_zero c ≡ true
    → (if b then add_counters c rest else rest) ≡ rest
zero-skipped c rest true h = ground arith
zero-skipped c rest false h = refl

to_write-pending :
    (q : Text) (cs : List (Text × QueueCounters))
    → pending_totals q (to_write cs) ≡ pending_totals q cs
unfolding to_write
to_write-pending q [] = refl
to_write-pending q ((p, c) ∷ cs) = elim (Bool-cases (is_zero c)) [
  | inl empty ↦
      rw empty
        (to_write-pending q cs ∙ sym (zero-skipped c (pending_totals q cs) (text_eq p q) empty))
  | inr some_event ↦ rw (some_event, to_write-pending q cs) refl
]

-- What a snapshot adds belongs to no manager.
gauge-totals :
    (q p : Text) (w : Time) (s : Store)
    → counter_totals q (snapshot_queue w p s) ≡ counter_totals q s
unfolding snapshot_queue counter_totals sum_counters text_eq
gauge-totals q p w s = elim (Bool-cases (has_gauge p w s.gauge_keys)) [
  | inl there ↦ rw (snapshot_queue, there) refl
  | inr absent ↦ rw (snapshot_queue, absent) (sum-append q s.metrics _ no_counters)
]

snapshot-totals :
    (q : Text) (qs : List Text) (w : Time) (s : Store)
    → counter_totals q (snapshot_metrics qs w s) ≡ counter_totals q s
unfolding snapshot_metrics
snapshot-totals q [] w s = refl
snapshot-totals q (p ∷ qs) w s =
    snapshot-totals q qs w (snapshot_queue w p s) ∙ gauge-totals q p w s

chosen :
    (b : Bool) (sum c rest : QueueCounters)
    → add_counters (if b then add_counters sum c else sum) rest
      ≡ add_counters sum (if b then add_counters c rest else rest)
chosen true sum c rest = add_assoc sum c rest
chosen false sum c rest = refl

record-totals :
    (q id : Text) (w : Time) (cs : List (Text × QueueCounters)) (s : Store)
    → text_eq id [] ≡ false
    → counter_totals q (record_counters id w cs s)
      ≡ add_counters (counter_totals q s) (pending_totals q cs)
unfolding record_counters counter_totals
record-totals q id w [] s named = sym (add_none (counter_totals q s))
record-totals q id w ((p, c) ∷ cs) s named =
    record-totals q id w cs _ named
    ∙ ap (λ x. add_counters x (pending_totals q cs)) (added s.metrics)
    ∙ chosen (text_eq p q) (counter_totals q s) c (pending_totals q cs)
  where
    added :
        (ms : List Metric)
        → sum_counters q no_counters
            (ms ++ record { queue = p; window_start = w; manager_id = id; counters = c } ∷ [])
          ≡ (if text_eq p q
              then add_counters (sum_counters q no_counters ms) c
              else sum_counters q no_counters ms)
    added ms = sum-append q ms _ no_counters ∙ unfold sum_counters in rw named refl

reset-pending :
    (q : Text) (cs : List (Text × QueueCounters))
    → pending_totals q (map (λ x. (x.0, no_counters)) cs) ≡ no_counters
reset-pending q [] = refl
reset-pending q ((p, c) ∷ cs) = ground (arith, reset-pending q cs)

-- The write, whether or not there is anything to write.
written-totals :
    (q id : Text) (w : Time) (cs : List (Text × QueueCounters)) (s : Store)
    → text_eq id [] ≡ false
    → counter_totals q (if is_empty cs then s else record_counters id w cs s)
      ≡ add_counters (counter_totals q s) (pending_totals q cs)
written-totals q id w [] s named = sym (add_none (counter_totals q s))
written-totals q id w (c ∷ cs) s named = record-totals q id w (c ∷ cs) s named

snapped-totals :
    (q : Text) (drain : Bool) (qs : List Text) (w : Time) (s : Store)
    → counter_totals q (if drain then s else snapshot_metrics qs w s) ≡ counter_totals q s
snapped-totals q true qs w s = refl
snapped-totals q false qs w s = snapshot-totals q qs w s

reset-totals :
    (q : Text) (m : Manager) → pending_totals q (counter_entries (reset_counters m)) ≡ no_counters
unfolding reset_counters
reset-totals q m = go m.counters
  where
    go :
        (o : Option (List (Text × QueueCounters)))
        → pending_totals q (counter_entries (reset_counters (record m { counters = o })))
          ≡ no_counters
    go none = refl
    go (some cs) = reset-pending q cs

-- On memstore, and with an id that is not empty, flushMetrics moves the manager's counters into the
-- store: for every queue the totals of the store grow by exactly what the manager had counted since
-- the last flush, and the manager's counters are zero afterwards, whether it drains or not.
pub flush_metrics-totals :
    (q : Text) (m : Manager) (window : Time) (drain : Bool) (s : Store)
    → text_eq m.manager_id [] ≡ false
    → (counter_totals q (flush_metrics mem_api m window drain s).1
        ≡ add_counters (counter_totals q s) (pending_totals q (counter_entries m)))
      × (pending_totals q (counter_entries (flush_metrics mem_api m window drain s).0)
          ≡ no_counters)
unfolding flush_metrics
flush_metrics-totals q m window drain s named = (
  written-totals q m.manager_id window (to_write (counter_entries m)) _ named
      ∙ ap (λ x. add_counters x (pending_totals q (to_write (counter_entries m))))
          (snapped-totals q drain m.queue_names window s)
      ∙ ap (add_counters (counter_totals q s)) (to_write-pending q (counter_entries m)),
  reset-totals q m,
)
