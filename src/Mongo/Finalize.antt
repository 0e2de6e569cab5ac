-- ===== src/Mongo/Finalize.antt =====
-- Store.Complete, Fail, FinalizeBatch, ExtendLease, Requeue, RequeueDead and ReapExpired of
-- mongostore.go, and RequeueDeadByQueue and DeleteTask of introspection.go.
use gotasks.Mongo.Driver.{Reply}
use gotasks.Prelude.Text.{Text, text_eq}
use gotasks.Prelude.Int.{◌+ℤ◌}
use gotasks.Prelude.{length, some, if◌then◌else◌, none, List, ℕ, ◌-◌, ◌∷◌, Option, [], Bool, ◌==◌}
use gotasks.Mongo.Writes.{
  requeue_update, reap_filter, lease_filter, reap_update, fail_update, extend_update, dead_filter,
  complete_update,
}
use gotasks.Mongo.Query.{status_is, id_is, Update, Filter, type_is, queue_is}
use gotasks.Mongo.Driver.{Counts, lost, Tasks, got}
use gotasks.Mongo.Docs.{ObjectId, oid, Bson, json_to_raw}
use gotasks.Task.{
  StoreError, other, Result, Duration, ok, Time, err, not_found, TaskError, lease_lost, Task,
  Outcome, dead,
}

module _ (b : Bson) (c : Tasks) where
  -- completeWrite and failWrite
  abbrev pub Write : Type 0
  Write = Filter × Update

  abbrev pub completed_write : Time → Text → Result ObjectId → Option Text → Result Write
  completed_write now token (err e) raw = err e
  completed_write now token (ok o) none = err other
  completed_write now token (ok o) (some raw) = ok (lease_filter o token, complete_update raw now)

  unfoldable pub complete_write : Task → Text → Time → Result Write
  complete_write t result now =
      completed_write now t.lease_token (oid b t.id) (json_to_raw b result)

  abbrev pub failed_write : Task → TaskError → Time → Bool → Time → Result ObjectId → Result Write
  failed_write t e retry_at terminal now (err x) = err x
  failed_write t e retry_at terminal now (ok o) =
      ok (lease_filter o t.lease_token, fail_update e retry_at terminal now)

  unfoldable pub fail_write : Task → TaskError → Time → Bool → Time → Result Write
  fail_write t e retry_at terminal now = failed_write t e retry_at terminal now (oid b t.id)

  -- A write to one document: no match is the error `missing`.
  abbrev pub matched_one : StoreError → c.State × Reply Counts → c.State × Option StoreError
  matched_one missing (s, lost) = (s, some other)
  matched_one missing (s, got n) = (s, if n.matched == 0 then some missing else none)

  abbrev pub write_one : Result Write → c.State → c.State × Option StoreError
  write_one (err e) s = (s, some e)
  write_one (ok (f, u)) s = matched_one lease_lost (c.update_one f u s)

  unfoldable pub complete : Task → Text → Time → c.State → c.State × Option StoreError
  complete t result now s = write_one (complete_write t result now) s

  unfoldable pub fail :
      Task → TaskError → Time → Bool → Time → c.State → c.State × Option StoreError
  fail t e retry_at terminal now s = write_one (fail_write t e retry_at terminal now) s

  -- The loop of FinalizeBatch over the outcomes: the first error ends it.
  unfoldable pub outcome_write : Outcome → Time → Result Write
  outcome_write o now = elim o.failure [
    | none ↦ complete_write o.task o.result now
    | some e ↦ fail_write o.task e o.retry_at o.terminal now
  ]

  abbrev pub add_write : Result Write → Result (List Write) → Result (List Write)
  add_write (err e) rest = err e
  add_write (ok w) (err e) = err e
  add_write (ok w) (ok ws) = ok (w ∷ ws)

  unfoldable pub outcome_writes : List Outcome → Time → Result (List Write)
  outcome_writes [] now = ok []
  outcome_writes (o ∷ os) now = add_write (outcome_write o now) (outcome_writes os now)

  -- The count is that of the entries that matched nothing.
  abbrev pub bulk_reply : ℕ → c.State × Reply ℕ → c.State × ℕ × Option StoreError
  bulk_reply n (s, lost) = (s, 0, some other)
  bulk_reply n (s, got k) = (s, n - k, none)

  abbrev pub write_all : ℕ → Result (List Write) → c.State → c.State × ℕ × Option StoreError
  write_all n (err e) s = (s, 0, some e)
  write_all n (ok ws) s = bulk_reply n (c.bulk_write ws s)

  unfoldable pub finalize_batch : List Outcome → Time → c.State → c.State × ℕ × Option StoreError
  finalize_batch [] now s = (s, 0, none)
  finalize_batch (o ∷ os) now s = write_all (length (o ∷ os)) (outcome_writes (o ∷ os) now) s

  abbrev pub extend_reply : Time → c.State × Option StoreError → c.State × Result Time
  extend_reply until (s, none) = (s, ok until)
  extend_reply until (s, some e) = (s, err e)

  abbrev pub extend_found :
      Task → Duration → Time → c.State → Result ObjectId → c.State × Result Time
  extend_found t lease now s (err e) = (s, err e)
  extend_found t lease now s (ok o) = extend_reply (now +ℤ lease) (
      matched_one lease_lost
        (c.update_one (lease_filter o t.lease_token) (extend_update now lease) s))

  unfoldable pub extend_lease : Task → Duration → Time → c.State → c.State × Result Time
  extend_lease t lease now s = extend_found t lease now s (oid b t.id)

  abbrev pub requeue_found : Time → c.State → Result ObjectId → c.State × Option StoreError
  requeue_found now s (err e) = (s, some e)
  requeue_found now s (ok o) = matched_one not_found (
      c.update_one (record { all_of = id_is o ∷ status_is dead ∷ []; any_of = [] })
        (requeue_update now) s)

  unfoldable pub requeue : Text → Time → c.State → c.State × Option StoreError
  requeue id now s = requeue_found now s (oid b id)

  abbrev pub modified_many : c.State × Reply Counts → c.State × Result ℕ
  modified_many (s, lost) = (s, err other)
  modified_many (s, got n) = (s, ok n.modified)

  unfoldable pub requeue_dead : Text → Time → c.State → c.State × Result ℕ
  requeue_dead task_type now s = modified_many (
      c.update_many (dead_filter (if text_eq task_type [] then [] else type_is task_type ∷ []))
        (requeue_update now) s)

  unfoldable pub requeue_dead_by_queue : Text → Time → c.State → c.State × Result ℕ
  requeue_dead_by_queue queue now s =
      modified_many (c.update_many (dead_filter (queue_is queue ∷ [])) (requeue_update now) s)

  unfoldable pub reap_expired : Time → c.State → c.State × Result ℕ
  reap_expired now s = modified_many (c.update_many (reap_filter now) (reap_update now) s)

  abbrev pub deleted_one : c.State × Reply ℕ → c.State × Option StoreError
  deleted_one (s, lost) = (s, some other)
  deleted_one (s, got n) = (s, if n == 0 then some not_found else none)

  abbrev pub delete_found : c.State → Result ObjectId → c.State × Option StoreError
  delete_found s (err e) = (s, some e)
  delete_found s (ok o) =
      deleted_one (c.delete_one (record { all_of = id_is o ∷ []; any_of = [] }) s)

  unfoldable pub delete_task : Text → c.State → c.State × Option StoreError
  delete_task id s = delete_found s (oid b id)
