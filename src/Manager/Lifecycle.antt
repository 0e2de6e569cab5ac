-- ===== src/Manager/Lifecycle.antt =====
-- RegisterHandler, Start and Stop of manager.go, up to the goroutines that Start spawns.
--
-- The map of handlers is the list of its keys, the task types.
pub mod Running
use gotasks.Task.{StoreError}
use gotasks.Store.{StoreApi}
use gotasks.Prelude.Text.{text_eq, contains, Text, text_lt}
use gotasks.Prelude.Int.{ℤ, pos}
use gotasks.Prelude.{
  [], List, none, if◌then◌else◌, ◌++◌, ◌||◌, length, ◌&&◌, true, ◌∷◌, false, Bool, some, ◌==◌,
  Option, not,
}
use gotasks.Manager.State.{Manager, finalize_on}
use gotasks.Manager.New.{is_none}
use gotasks.Manager.Enqueue.{ensure_registered}

pub data LifecycleError : Type 0 where
  type_missing handler_nil registered_late registered_twice : LifecycleError
  no_handlers already_started : LifecycleError
  not_registered : StoreError → LifecycleError

-- RegisterHandler; `given` says that the handler is not nil.
unfoldable pub register_handler :
    Manager → Text → Bool → List Text → List Text × Option LifecycleError
register_handler m type given handlers =
    if text_eq type []
    then (handlers, some type_missing)
    else if not given
    then (handlers, some handler_nil)
    else if m.started
    then (handlers, some registered_late)
    else if contains handlers type
    then (handlers, some registered_twice)
    else (handlers ++ type ∷ [], none)

-- sort.Strings
unfoldable pub insert_text : Text → List Text → List Text
insert_text x [] = x ∷ []
insert_text x (y ∷ ys) = let rest = insert_text x ys in if text_lt y x then y ∷ rest else x ∷ y ∷ ys

unfoldable pub sort_texts : List Text → List Text
sort_texts [] = []
sort_texts (x ∷ xs) = insert_text x (sort_texts xs)

-- What Start spawns: the loops, the workers' loops among them, and the fan-out of the watch channel.
pub record Spawned : Type 0 where
  pub workers : ℤ
  pub batch_workers : ℤ
  pub fetcher : Bool
  pub fan_out : Bool
  pub flusher : Bool
  pub janitor : Bool

-- `watching` says that the store is a Watcher whose WatchRunnable succeeds.
unfoldable pub spawned : Manager → Bool → Spawned
spawned m watching = record {
  workers = if is_none m.cfg.pipeline then m.cfg.workers else pos 0;
  batch_workers = if is_none m.cfg.pipeline then pos 0 else m.cfg.workers;
  fetcher = not (is_none m.cfg.pipeline);
  fan_out = is_none m.cfg.pipeline && (not m.cfg.disable_change_stream && watching);
  flusher = finalize_on m;
  janitor = not m.cfg.janitor.no_reap || not (is_none m.cfg.janitor.metrics);
}

pub data StartResult : Type 0 where
  refused : LifecycleError → StartResult
  running_with : Spawned → StartResult

-- Start, from the answer of ensureRegistered on.
abbrev pub started_with :
    {S : Type 0} → List Text → Bool → Manager × S × Option StoreError → Manager × S × StartResult
started_with handlers watching (m, s, some e) =
    (record m { started = false }, s, refused (not_registered e))
started_with handlers watching (m, s, none) =
    let m' = record m { types = sort_texts handlers } in (m', s, running_with (spawned m' watching))

unfoldable pub start :
    (api : StoreApi) → Manager → List Text → Bool → api.State → Manager × api.State × StartResult
start api m handlers watching s =
    if length handlers == 0
    then (m, s, refused no_handlers)
    else if m.started
    then (m, s, refused already_started)
    else started_with handlers watching (ensure_registered api (record m { started = true }) s)
