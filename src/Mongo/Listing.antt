-- ===== src/Mongo/Listing.antt =====
-- ListTasks, GetTask and sortMetricPoints of introspection.go.
pub mod Pages
pub mod Sorting
use gotasks.Prelude.Text.{bytes, text_eq, Text}
use gotasks.Prelude.Int.{ℤ, pos, ltb_ℤ, pos_part, leb_ℤ}
use gotasks.Prelude.{ltb, ◌++◌, ◌∷◌, [], some, none, List, if◌then◌else◌, ℕ, Option}
use gotasks.Mongo.Query.{id_is, id_below, status_is, Filter, id_in, queue_is, Cond, type_is}
use gotasks.Mongo.Docs.{Bson, TaskDoc, oid, ObjectId}
use gotasks.Mongo.Claim.{task_result, to_tasks}
use gotasks.Mongo.Driver.{Reply, got, lost, Tasks, natural, descending}
use gotasks.Task.{other, ok, Time, Result, Task, err, not_found, pending, running, done, dead}

pub record TaskQuery : Type 0 where
  pub queue : Text
  pub status : Text
  pub type : Text
  pub limit : ℤ
  pub before : Text

-- A text that is no status matches no document.
unfoldable pub status_cond : Text → Cond
status_cond x =
    if text_eq x (bytes "pending")
    then status_is pending
    else (if text_eq x (bytes "running")
        then status_is running
        else (if text_eq x (bytes "done")
            then status_is done
            else (if text_eq x (bytes "dead") then status_is dead else id_in [])))

-- A clause for a text that is not empty.
abbrev pub clause : (Text → Cond) → Text → List Cond
clause c x = if text_eq x [] then [] else c x ∷ []

unfoldable pub query_filter : TaskQuery → Filter
query_filter q = record {
  all_of = clause queue_is q.queue ++ clause status_cond q.status ++ clause type_is q.type;
  any_of = [];
}

unfoldable pub page_limit : ℤ → ℕ
page_limit limit =
    if leb_ℤ limit (pos 0) then 50 else (if ltb 200 (pos_part limit) then 200 else pos_part limit)

module _ (b : Bson) (c : Tasks) where
  -- With the cursor, or the error of one that is no id.
  abbrev pub below : Filter → Result ObjectId → Result Filter
  below f (err e) = err e
  below f (ok o) = ok (record f { all_of = id_below o ∷ f.all_of })

  unfoldable pub page_filter : TaskQuery → Result Filter
  page_filter q =
      if text_eq q.before [] then ok (query_filter q) else below (query_filter q) (oid b q.before)

  abbrev pub page_tasks : ℕ → Option (List Task) → Result (List Task × ℕ)
  page_tasks total none = err other
  page_tasks total (some ts) = ok (ts, total)

  abbrev pub page : ℕ → Reply (List TaskDoc) → Result (List Task × ℕ)
  page total lost = err other
  page total (got ds) = page_tasks total (to_tasks b c ds)

  abbrev pub counted : TaskQuery → c.State → Result Filter → Reply ℕ → Result (List Task × ℕ)
  counted q s f lost = err other
  counted q s (err e) (got total) = err e
  counted q s (ok f) (got total) = page total (c.find f descending (some (page_limit q.limit)) s)

  -- The tasks, and the number of all that the query matches; `later` is what other clients do between
  -- the count and the search.
  unfoldable pub list_tasks :
      TaskQuery → (later : c.State → c.State) → c.State → Result (List Task × ℕ)
  list_tasks q later s = counted q (later s) (page_filter q) (c.count_documents (query_filter q) s)

  abbrev pub got_task : Reply (Option TaskDoc) → Result Task
  got_task lost = err other
  got_task (got none) = err not_found
  got_task (got (some d)) = task_result b c d

  abbrev pub get_found : c.State → Result ObjectId → Result Task
  get_found s (err e) = err e
  get_found s (ok o) =
      got_task (c.find_one (record { all_of = id_is o ∷ []; any_of = [] }) natural s)

  unfoldable pub get_task : Text → c.State → Result Task
  get_task id s = get_found s (oid b id)

pub record MetricPoint : Type 0 where
  pub window_start : Time
  pub pending : ℕ
  pub running : ℕ
  pub done : ℕ
  pub dead : ℕ
  pub oldest_due_age_ms : ℤ
  pub enqueued : ℤ
  pub claimed : ℤ
  pub c_done : ℤ
  pub c_failed : ℤ
  pub c_dead : ℤ

-- The inner loop of sortMetricPoints: a point moves down from the end of the points before it, which
-- are given from the last one on.
unfoldable pub sink : MetricPoint → List MetricPoint → List MetricPoint
sink p [] = p ∷ []
sink p (x ∷ xs) =
    let rest = sink p xs in if ltb_ℤ p.window_start x.window_start then x ∷ rest else p ∷ x ∷ xs

-- The outer loop, over the points from the i-th on.
unfoldable pub sink_all : List MetricPoint → List MetricPoint → List MetricPoint
sink_all placed [] = placed
sink_all placed (p ∷ ps) = sink_all (sink p placed) ps

abbrev pub turned_onto : List MetricPoint → List MetricPoint → List MetricPoint
turned_onto [] ys = ys
turned_onto (x ∷ xs) ys = turned_onto xs (x ∷ ys)

unfoldable pub sort_metric_points : List MetricPoint → List MetricPoint
sort_metric_points ps = turned_onto (sink_all [] ps) []
