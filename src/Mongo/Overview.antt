-- ===== src/Mongo/Overview.antt =====
-- Overview, QueueDetail and overviewRow of introspection.go.
pub mod Pages
pub mod Walk
use gotasks.Mongo.Driver.{Tasks, Reply, got, lost, earliest_due}
use gotasks.Mongo.Docs.{TaskDoc}
use gotasks.Mongo.Listing.{page_limit}
use gotasks.Mongo.Query.{Cond, Filter, queue_is, status_is, due_by}
use gotasks.Mongo.Registry.{QueueDoc, to_policy, milliseconds}
use gotasks.Prelude.{
  zero, ◌++◌, suc, ℕ, List, [], ◌∷◌, Option, none, some, length, ◌==◌, if◌then◌else◌,
}
use gotasks.Prelude.Int.{ℤ, pos, ◌-ℤ◌}
use gotasks.Prelude.Text.{Text}
use gotasks.Task.{
  QueuePolicy, Duration, Time, Result, ok, err, other, not_found, Status, pending, running, done,
  dead,
}

pub record QueueOverview : Type 0 where
  pub name : Text
  pub ttl : Duration
  pub max_attempts : ℤ
  pub pending_count : ℕ
  pub running_count : ℕ
  pub done_count : ℕ
  pub dead_count : ℕ
  pub oldest_due_age_ms : ℤ

-- The reads of the queues collection, while nobody writes to it.
pub record QueueReads : Type 0 where
  -- The documents with a name after the given one, if it is not empty, in the order of their names,
  -- as many as the limit.
  pub find_page : Text → (limit : ℕ) → Reply (List QueueDoc)
  pub count_documents : Reply ℕ
  pub find_one : Text → Reply (Option QueueDoc)

abbrev pub last_name : List QueueDoc → Text
last_name [] = []
last_name (d ∷ []) = d.name
last_name (d ∷ e ∷ ds) = last_name (e ∷ ds)

-- The name to go on with after a page: a page that is not full is the last one.
unfoldable pub next_name : ℕ → List QueueDoc → Text
next_name limit ds = if length ds == limit then last_name ds else []

-- A reader that goes from page to page, as Overview documents: from each page with its next name,
-- until that is empty.
pub data Walked : Type 0 where
  walked : List QueueOverview → Walked
  failed_page unfinished : Walked

abbrev pub prepend : List QueueOverview → Walked → Walked
prepend rs (walked more) = walked (rs ++ more)
prepend rs w = w

module _ (c : Tasks) where
  abbrev pub count_status : Text → Status → c.State → Reply ℕ
  count_status queue st s =
      c.count_documents (record { all_of = queue_is queue ∷ status_is st ∷ []; any_of = [] }) s

  abbrev pub oldest_due : Text → Time → c.State → Reply (Option TaskDoc)
  oldest_due queue now s =
      c.find_one
        (record { all_of = queue_is queue ∷ status_is pending ∷ due_by now ∷ []; any_of = [] })
        earliest_due s

  -- The age of the oldest task that is due, in milliseconds.
  abbrev pub due_age : Time → Option TaskDoc → ℤ
  due_age now none = pos 0
  due_age now (some d) = milliseconds (now -ℤ d.run_at)

  -- The source counts in the order of a Go map: no matter which count fails, the error is the same.
  abbrev pub row_of :
      QueuePolicy
      → Time
      → (counts_p counts_r counts_d counts_x : Reply ℕ) → Reply (Option TaskDoc)
      → Result QueueOverview
  row_of p now (got a) (got b) (got d) (got x) (got oldest) = ok (record {
    name = p.name;
    ttl = p.ttl;
    max_attempts = p.max_attempts;
    pending_count = a;
    running_count = b;
    done_count = d;
    dead_count = x;
    oldest_due_age_ms = due_age now oldest;
  })
  row_of p now _ _ _ _ _ = err other

  unfoldable pub overview_row : QueuePolicy → Time → c.State → Result QueueOverview
  overview_row p now s =
      row_of p now (count_status p.name pending s) (count_status p.name running s)
        (count_status p.name done s) (count_status p.name dead s) (oldest_due p.name now s)

  -- When the row of a queue is made, and what the tasks collection holds then.
  abbrev pub View : Type 0
  View = Text → Time × c.State

  abbrev pub viewed_row : View → QueueDoc → Result QueueOverview
  viewed_row view d = let v = view d.name in overview_row (to_policy d) v.0 v.1

  abbrev pub add_row :
      Result QueueOverview → Result (List QueueOverview) → Result (List QueueOverview)
  add_row (err e) rest = err e
  add_row (ok r) (err e) = err e
  add_row (ok r) (ok rs) = ok (r ∷ rs)

  -- The loop over the documents of a page: the first error ends it.
  unfoldable pub overview_rows : View → List QueueDoc → Result (List QueueOverview)
  overview_rows view [] = ok []
  overview_rows view (d ∷ ds) = add_row (viewed_row view d) (overview_rows view ds)

  abbrev pub overview_page :
      (next_one : Text)
      → (total : ℕ) → Result (List QueueOverview)
      → Result (List QueueOverview × Text × ℕ)
  overview_page next_one total (err e) = err e
  overview_page next_one total (ok rs) = ok (rs, next_one, total)

  abbrev pub page_found :
      View → (limit total : ℕ) → Reply (List QueueDoc) → Result (List QueueOverview × Text × ℕ)
  page_found view limit total lost = err other
  page_found view limit total (got ds) =
      overview_page (next_name limit ds) total (overview_rows view ds)

  abbrev pub overview_counted :
      View
      → (find : Reply (List QueueDoc)) → (limit : ℕ) → Reply ℕ
      → Result (List QueueOverview × Text × ℕ)
  overview_counted view find limit lost = err other
  overview_counted view find limit (got total) = page_found view limit total find

  unfoldable pub overview :
      QueueReads → View → (after : Text) → (limit : ℤ) → Result (List QueueOverview × Text × ℕ)
  overview q view after limit =
      overview_counted view (q.find_page after (page_limit limit)) (page_limit limit)
        q.count_documents

  abbrev pub detail_found : View → Reply (Option QueueDoc) → Result QueueOverview
  detail_found view lost = err other
  detail_found view (got none) = err not_found
  detail_found view (got (some d)) = viewed_row view d

  unfoldable pub queue_detail : QueueReads → View → Text → Result QueueOverview
  queue_detail q view name = detail_found view (q.find_one name)

  abbrev pub walk_on : (Text → Walked) → Result (List QueueOverview × Text × ℕ) → Walked
  walk_on go_on (err e) = failed_page
  walk_on go_on (ok (rs, [], total)) = walked rs
  walk_on go_on (ok (rs, x ∷ xs, total)) = prepend rs (go_on (x ∷ xs))

  -- With at most `n` pages.
  unfoldable pub walk : ℕ → QueueReads → View → (limit : ℤ) → (after : Text) → Walked
  walk zero q view limit after = unfinished
  walk (suc n) q view limit after =
      walk_on (λ name. walk n q view limit name) (overview q view after limit)
