-- ===== src/MemStore/State.antt =====
-- The state of memstore.Store, and the reads and writes of its task map.
--
-- The Go map from ids to tasks is the list of its tasks, each of which carries its key as its `id`,
-- in the order in which a `range` visits them; an assignment to a key that is there replaces the
-- entry. The methods mutate a task through its pointer: the model puts the changed task back.
-- `clone` copies a task, which in a model of values is the task itself.
use gotasks.Prelude.{
  ℕ, Bool, false, ◌&&◌, ◌||◌, Option, none, some, List, [], ◌∷◌, ◌++◌, if◌then◌else◌,
}
use gotasks.Prelude.Text.{Text, text_eq, bytes}
use gotasks.Prelude.Decimal.{decimal}
use gotasks.Task.{Task, QueuePolicy, QueueCounters, Time, status_eq, pending, running}

pub record Metric : Type 0 where
  pub queue : Text
  pub window_start : Time
  pub manager_id : Text
  pub counters : QueueCounters

-- A key of `gaugeKeys`: the queue's name and the window's start, which the source joins by "|".
pub record GaugeKey : Type 0 where
  pub queue : Text
  pub window_start : Time

pub record Store : Type 0 where
  pub seq : ℕ
  pub tasks : List Task
  pub registry : List QueuePolicy
  pub metrics : List Metric
  pub gauge_keys : List GaugeKey
  pub force_lease_lost : Bool

unfoldable pub new : Store
new = record {
  seq = 0;
  tasks = [];
  registry = [];
  metrics = [];
  gauge_keys = [];
  force_lease_lost = false;
}

-- t, ok := tasks[id]
unfoldable pub find_task : Text → List Task → Option Task
find_task id [] = none
find_task id (t ∷ ts) = if text_eq t.id id then some t else find_task id ts

-- tasks[c.ID] = c
unfoldable pub put_task : Task → List Task → List Task
put_task c [] = c ∷ []
put_task c (t ∷ ts) = if text_eq t.id c.id then c ∷ ts else t ∷ put_task c ts

-- fmt.Sprintf("task-%d", seq)
unfoldable pub task_id : ℕ → Text
task_id n = bytes "task-" ++ decimal n

-- fmt.Sprintf("lease-%d", seq)
unfoldable pub lease_token : ℕ → Text
lease_token n = bytes "lease-" ++ decimal n

unfoldable pub is_active : Task → Bool
is_active t = status_eq t.status pending || status_eq t.status running

unfoldable pub active_key_holder : Text → List Task → Option Task
active_key_holder key [] = none
active_key_holder key (t ∷ ts) =
    if text_eq t.unique_key key && is_active t then some t else active_key_holder key ts

-- held(id, leaseToken): the task, if it is running under this token.
unfoldable pub check_held : Text → Option Task → Option Task
check_held token none = none
check_held token (some t) =
    if status_eq t.status running && text_eq t.lease_token token then some t else none

unfoldable pub held : Text → Text → List Task → Option Task
held id token ts = check_held token (find_task id ts)

-- ForceLeaseLost
unfoldable pub set_force_lease_lost : Bool → Store → Store
set_force_lease_lost v s = record s { force_lease_lost = v }
