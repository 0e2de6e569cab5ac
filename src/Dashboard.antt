-- ===== src/Dashboard.antt =====
-- dashboard.go: the handlers of the API on mongostore, those over its tasks here. A request is given by what the
-- handler reads of it, and a response by its status and what is encoded in its body.
pub mod Requeue
pub mod Views
use gotasks.Mongo.Listing
use gotasks.Mongo.Finalize
use gotasks.Mongo.Finalize.{requeue, requeue_dead_by_queue}
use gotasks.Mongo.Docs.{Bson}
use gotasks.Mongo.Driver.{Tasks}
use gotasks.Mongo.Listing.{TaskQuery, MetricPoint}
use gotasks.Mongo.Overview.{QueueOverview}
use gotasks.Task.{Task, Time, Result, ok, err, StoreError, not_found}
use gotasks.Prelude.Text.{Text}
use gotasks.Prelude.{ℕ, List, [], ◌∷◌, Option, none, some}

pub data HttpStatus : Type 0 where
  http_ok bad_request http_not_found internal_error : HttpStatus

pub data Body : Type 0 where
  ok_body : Body
  error_body : StoreError → Body
  task_body : Task → Body
  tasks_body : List Task → (next_id : Text) → (total : ℕ) → Body
  requeued_body : ℕ → Body
  queues_body : List QueueOverview → (next_name : Text) → (total : ℕ) → Body
  queue_body : QueueOverview → Body
  points_body : List MetricPoint → Body
  queue_required : Body

pub record Response : Type 0 where
  pub status : HttpStatus
  pub body : Body

unfoldable pub error_status : StoreError → HttpStatus
error_status not_found = http_not_found
error_status _ = internal_error

unfoldable pub write_err : StoreError → Response
write_err e = record { status = error_status e; body = error_body e }

abbrev pub write_ok : Body → Response
write_ok x = record { status = http_ok; body = x }

-- The id of the last task, for the next page.
abbrev pub last_id : List Task → Text
last_id [] = []
last_id (t ∷ []) = t.id
last_id (t ∷ u ∷ ts) = last_id (u ∷ ts)

abbrev pub list_response : Result (List Task × ℕ) → Response
list_response (err e) = write_err e
list_response (ok (ts, total)) = write_ok (tasks_body ts (last_id ts) total)

abbrev pub task_response : Result Task → Response
task_response (err e) = write_err e
task_response (ok t) = write_ok (task_body t)

abbrev pub ok_response : Option StoreError → Response
ok_response none = write_ok ok_body
ok_response (some e) = write_err e

abbrev pub count_response : Result ℕ → Response
count_response (err e) = write_err e
count_response (ok n) = write_ok (requeued_body n)

module _ (b : Bson) (c : Tasks) where
  unfoldable pub list_tasks : TaskQuery → (later : c.State → c.State) → c.State → Response
  list_tasks q later s = list_response (Listing.list_tasks b c q later s)

  unfoldable pub get_task : Text → c.State → Response
  get_task id s = task_response (Listing.get_task b c id s)

  unfoldable pub requeue_task : Text → Time → c.State → c.State × Response
  requeue_task id now s = let r = requeue b c id now s in (r.0, ok_response r.1)

  unfoldable pub delete_task : Text → c.State → c.State × Response
  delete_task id s = let r = Finalize.delete_task b c id s in (r.0, ok_response r.1)

  unfoldable pub requeue_dead : Text → Time → c.State → c.State × Response
  requeue_dead queue now s =
      let r = requeue_dead_by_queue b c queue now s in (r.0, count_response r.1)
