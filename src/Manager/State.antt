-- ===== src/Manager/State.antt =====
-- The fields of Manager that the modelled methods read and write, and the counters.
use gotasks.Task.{QueuePolicy, QueueCounters, ClaimOptions, Duration}
use gotasks.Prelude.Text.{text_eq, Text}
use gotasks.Prelude.Int.{ℤ}
use gotasks.Prelude.{
  false, List, not, if◌then◌else◌, ◌+◌, ℕ, some, none, ◌++◌, ◌∷◌, [], Option, map, Bool,
}
use gotasks.Options.Setters.{apply_setters, Setter}
use gotasks.Options.{Config}
use gotasks.MemStore.Metrics.{no_counters}
use gotasks.Manager.New.{
  ◌>>◌, ◌>>=◌, reject, store_nil, resolve_config, default_config, fail_if, accept,
  manager_id_failed, Checked,
}
use mathlib.Core.Option

pub record Manager : Type 0 where
  pub cfg : Config
  pub types : List Text
  pub queue_names : List Text
  pub queues : List QueuePolicy
  pub manager_id : Text
  -- nil while metrics are off; otherwise one entry for each declared queue.
  pub counters : Option (List (Text × QueueCounters))
  pub registered : Bool
  pub started : Bool

-- The field of queueCounters that a call of `count` picks.
pub data Event : Type 0 where
  enqueued claimed done failed dead : Event

abbrev pub bump : Event → ℕ → QueueCounters → QueueCounters
bump enqueued n c = record c { enqueued = c.enqueued + n }
bump claimed n c = record c { claimed = c.claimed + n }
bump done n c = record c { done = c.done + n }
bump failed n c = record c { failed = c.failed + n }
bump dead n c = record c { dead = c.dead + n }

-- if c, ok := m.counters[queue]; ok { pick(c).Add(n) }
unfoldable pub add_at : Text → Event → ℕ → List (Text × QueueCounters) → List (Text × QueueCounters)
add_at queue e n [] = []
add_at queue e n ((q, c) ∷ cs) =
    if text_eq q queue then (q, bump e n c) ∷ cs else (q, c) ∷ add_at queue e n cs

unfoldable pub count : Text → Event → ℕ → Manager → Manager
count queue e n m = record m { counters = Option.map (add_at queue e n) m.counters }

-- claimOptions
unfoldable pub claim_options : Manager → Text → Duration → ClaimOptions
claim_options m worker_id lease = record {
  worker_id = worker_id;
  types = m.types;
  queues = m.queue_names;
  fifo = m.cfg.fifo;
  lease = lease;
}

-- finalizeOn
unfoldable pub finalize_on : Manager → Bool
finalize_on m = elim m.cfg.pipeline [ none ↦ false | some p ↦ not p.no_finalize ]

-- New: the store may be nil, and crypto/rand may fail to give the suffix (in hexadecimal).
unfoldable pub new_manager : (ℤ → ℤ) → Bool → List Setter → Option Text → Checked Manager
new_manager draw store_given setters suffix = do
  fail_if (not store_given) store_nil
  resolved ← resolve_config (apply_setters setters (default_config draw))
  let c = resolved.0
  let names = map (λ q. q.name) c.queues
  elim suffix [
    | none ↦ reject manager_id_failed
    | some x ↦ accept (record {
      cfg = c;
      types = [];
      queue_names = names;
      queues = resolved.1;
      manager_id = c.manager_name ++ b'.' ∷ x;
      counters = elim c.janitor.metrics [
        | none ↦ none
        | some mc ↦ some (map (λ q. (q, no_counters)) names)
      ];
      registered = false;
      started = false;
    })
  ]
