-- ===== src/Mongo/Claim.antt =====
-- Store.Claim and Store.ClaimBatch of mongostore.go. The fresh token is the UUID that the call draws.
use gotasks.Mongo.Driver.{Reply}
use gotasks.Task.{Result, no_task, ClaimOptions, Task, err, Time, ok, other}
use gotasks.Prelude.Text.{Text}
use gotasks.Prelude.Int.{ℤ, pos, ltb_ℤ, pos_part}
use gotasks.Prelude.{none, map, some, Option, ◌∷◌, ◌==◌, List, if◌then◌else◌, []}
use gotasks.Mongo.Writes.{claim_update, runnable_filter}
use gotasks.Mongo.Query.{token_is, Filter, id_in}
use gotasks.Mongo.Driver.{natural, by_run_at, got, Tasks, Counts, lost}
use gotasks.Mongo.Docs.{Bson, ObjectId, to_task, TaskDoc}

module _ (b : Bson) (c : Tasks) where
  abbrev pub task_result : TaskDoc → Result Task
  task_result d = elim (to_task b d) [ none ↦ err other | some t ↦ ok t ]

  abbrev pub claim_result : Reply (Option TaskDoc) → Result Task
  claim_result lost = err other
  claim_result (got none) = err no_task
  claim_result (got (some d)) = task_result d

  unfoldable pub claim : ClaimOptions → Text → Time → c.State → c.State × Result Task
  claim opts token now s =
      let r =
        c.find_one_and_update (runnable_filter now opts.types opts.queues)
          (claim_update now opts.worker_id token opts.lease)
          (if opts.fifo then by_run_at else natural) s in
      (r.0, claim_result r.1)

  abbrev pub ids_of_docs : List TaskDoc → List ObjectId
  ids_of_docs = map (λ d. d.id)

  -- The loop of toTask: the first failure ends it.
  unfoldable pub to_tasks : List TaskDoc → Option (List Task)
  to_tasks [] = some []
  to_tasks (d ∷ ds) = elim (to_task b d) [
    | none ↦ none
    | some t ↦ elim (to_tasks ds) [ none ↦ none | some ts ↦ some (t ∷ ts) ]
  ]

  -- The filter of the guarded update: the candidates, if they are still runnable.
  unfoldable pub guard_filter : Time → List ObjectId → Filter
  guard_filter now ids =
      let f = runnable_filter now [] [] in record f { all_of = id_in ids ∷ f.all_of }

  unfoldable pub won_filter : List ObjectId → Text → Filter
  won_filter ids token = record { all_of = id_in ids ∷ token_is token ∷ []; any_of = [] }

  abbrev pub fetched_tasks : Reply (List TaskDoc) → Result (List Task)
  fetched_tasks lost = err other
  fetched_tasks (got ds) = elim (to_tasks ds) [ none ↦ err other | some ts ↦ ok ts ]

  -- After the update; `later` is what other clients do before the last round trip.
  abbrev pub fetch_won :
      List ObjectId
      → Text
      → (c.State → c.State)
      → c.State × Reply Counts
      → c.State × Result (List Task)
  fetch_won ids token later (s, lost) = (s, err other)
  fetch_won ids token later (s, got n) =
      if n.modified == 0
      then (s, ok [])
      else (later s, fetched_tasks (c.find (won_filter ids token) natural none (later s)))

  -- After the search; `between` is what other clients do before the update.
  abbrev pub update_candidates :
      ClaimOptions
      → Text
      → Time
      → (between later : c.State → c.State) → c.State
      → Reply (List TaskDoc)
      → c.State × Result (List Task)
  update_candidates opts token now between later s lost = (s, err other)
  update_candidates opts token now between later s (got []) = (s, err no_task)
  update_candidates opts token now between later s (got (d ∷ ds)) =
      let ids = ids_of_docs (d ∷ ds) in
      fetch_won ids token later (
        c.update_many (guard_filter now ids) (claim_update now opts.worker_id token opts.lease)
          (between s))

  unfoldable pub claim_batch :
      ClaimOptions
      → ℤ
      → Text
      → Time
      → (between later : c.State → c.State) → c.State
      → c.State × Result (List Task)
  claim_batch opts k token now between later s =
      if ltb_ℤ k (pos 1)
      then (s, err other)
      else update_candidates opts token now between later s (
          c.find (runnable_filter now opts.types opts.queues)
            (if opts.fifo then by_run_at else natural) (some (pos_part k)) s)
