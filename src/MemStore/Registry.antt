-- ===== src/MemStore/Registry.antt =====
-- The queues registry of memstore.go: RegisterQueues, Queues and SetQueuePolicy.
pub mod Drift
use gotasks.Policies.{put_policy, find_policy}
use gotasks.Prelude.{Bool, ◌&&◌, Option, none, some, List, [], ◌∷◌, if◌then◌else◌}
use gotasks.Prelude.Int.{eqb_ℤ}
use gotasks.Task.{QueuePolicy, StoreError, queue_conflict}
use gotasks.MemStore.State.{Store}

unfoldable pub same_policy : QueuePolicy → QueuePolicy → Bool
same_policy a b = eqb_ℤ a.ttl b.ttl && eqb_ℤ a.max_attempts b.max_attempts

-- What the loop of RegisterQueues does with a queue, by the entry that the registry has for it: `same`
-- is how the loop goes on with the registry as it is, `added` how it goes on with the queue added.
-- A conflict ends it, and what was added stays.
abbrev pub registered :
    QueuePolicy
    → List QueuePolicy
    → (same added : List QueuePolicy × Option StoreError) → Option QueuePolicy
    → List QueuePolicy × Option StoreError
registered q reg same added none = added
registered q reg same added (some existing) =
    if same_policy existing q then same else (reg, some queue_conflict)

-- The loop of RegisterQueues over the registry.
unfoldable pub register : List QueuePolicy → List QueuePolicy → List QueuePolicy × Option StoreError
register [] reg = (reg, none)
register (q ∷ qs) reg =
    registered q reg (register qs reg) (register qs (put_policy q reg)) (find_policy q.name reg)

unfoldable pub register_queues : List QueuePolicy → Store → Store × Option StoreError
register_queues qs s = let r = register qs s.registry in (record s { registry = r.0 }, r.1)

unfoldable pub queues : Store → List QueuePolicy
queues s = s.registry

unfoldable pub set_queue_policy : QueuePolicy → Store → Store
set_queue_policy q s = record s { registry = put_policy q s.registry }
