-- ===== src/MemStore/Enqueue.antt =====
-- Store.Enqueue of memstore.go.
use gotasks.Prelude.{suc, Option, none, some, List, [], ◌∷◌, if◌then◌else◌}
use gotasks.Prelude.Text.{Text, text_eq}
use gotasks.Task.{Task, Result, ok, err, duplicate}
use gotasks.MemStore.State.{Store, put_task, task_id, active_key_holder}

-- The active task that holds the key of `t`, if `t` has a key.
unfoldable pub conflict : Store → Task → Option Task
conflict s t = if text_eq t.unique_key [] then none else active_key_holder t.unique_key s.tasks

-- One round of the loop that finds no conflict: the copy gets the next id and is stored under it.
unfoldable pub insert : Store → Task → Store
insert s t = record s {
  seq = suc s.seq;
  tasks = put_task (record t { id = task_id (suc s.seq) }) s.tasks;
}

abbrev pub with_id : Text → Store × Result (List Text) → Store × Result (List Text)
with_id id (s, ok ids) = (s, ok (id ∷ ids))
with_id id (s, err e) = (s, err e)

-- A conflict ends the call with no ids; what the earlier rounds stored stays.
unfoldable pub enqueue : Store → List Task → Store × Result (List Text)
enqueue s [] = (s, ok [])
enqueue s (t ∷ ts) =
    let rest = enqueue (insert s t) ts in
    elim (conflict s t) [
      | some holder ↦ (s, err (duplicate t.unique_key holder.id))
      | none ↦ with_id (task_id (suc s.seq)) rest
    ]
