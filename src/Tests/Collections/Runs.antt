-- ===== src/Tests/Collections/Runs.antt =====
-- Runs of mongostore and of the dashboard on the collection with room for one document.
use gotasks.Tests.Collections.{documents, slot, slot-IsTasks, slot_insert-Stores}
use gotasks.Task.{Time}
use gotasks.Prelude.Text.{Text, bytes}
use gotasks.Prelude.Int.{pos}
use gotasks.Mongo.Life.Calls.{inserts, deletes}
use gotasks.Prelude.{zero, ℕ, arith, none, some, ◌≢◌, ◌∷◌, false, length, List, [], suc}
use gotasks.Mongo.Docs.{TaskDoc}
use gotasks.Mongo.Life.{EvolvedAt}
use gotasks.Task.{ok}
use gotasks.Mongo.Docs.{oid}
use gotasks.Mongo.Life.Calls.{Call, run, run-Evolves, claims, completes, inserts}
use gotasks.Mongo.Docs.{Bson, new_doc}
use gotasks.Mongo.Enqueue.{enqueue, build_docs}
use gotasks.Mongo.Enqueue.Reports.{Returned, enqueue-Returned}
use gotasks.Mongo.Enqueue.Ids.{drawn_ids}
use gotasks.Mongo.Listing.{TaskQuery, page_filter, list_tasks}
use gotasks.Mongo.Listing.Pages.{IsPage, list_tasks-IsPage}
use gotasks.Dashboard.{requeue_task}
use gotasks.Dashboard.Requeue.{Answered, requeue_task-Answered}
use gotasks.Task.{dead}
use gotasks.Tests.{second_job, first_job, worker, first_claim, second_claim}

ones : ℕ → Text
ones zero = []
ones (suc n) = 49 ∷ ones n

-- Ids are spelled by as many bytes; BSON is the text itself.
abbrev plain_bson : Bson
plain_bson = record {
  Fields = Text;
  unmarshal_ext_json = some;
  marshal = some;
  marshal_ext_json = some;
  object_id_from_hex = λ id. some (length id);
  hex = ones;
}

abbrev written_job : TaskDoc
written_job = new_doc plain_bson 2 [] first_job

other_id : oid plain_bson (bytes "111") ≢ ok 2
unfolding oid
other_id h = ground (arith, h)

-- The first worker loses its lease, and the second one completes the task; another one is deleted.
abbrev contended : List (Call × Time)
contended =
    (inserts (written_job ∷ []), pos 10)
    ∷ (claims (worker (bytes "w1")) (bytes "lease-3"), pos 20)
    ∷ (claims (worker (bytes "w2")) (bytes "lease-4"), pos 100)
    ∷ (deletes (bytes "111"), pos 105)
    ∷ (completes (record first_claim { id = bytes "11" }) [], pos 110)
    ∷ (completes (record second_claim { id = bytes "11" }) (bytes "{}"), pos 120)
    ∷ []

run-Evolves_example :
    EvolvedAt 2
      (documents (some written_job))
      (documents (run plain_bson slot contended (some written_job)))
run-Evolves_example =
    run-Evolves plain_bson slot slot-IsTasks contended (some written_job) 2
      (tt, (tt, (tt, (other_id, (tt, (tt, tt))))))

-- The second chunk is refused as a duplicate: its entry is reported.
enqueue-Returned_example :
    Returned plain_bson slot 1 false
      (build_docs plain_bson slot (λ i. i) 0 (first_job ∷ second_job ∷ []))
      (drawn_ids plain_bson slot (λ i. i) 0 (first_job ∷ second_job ∷ []))
      none
      (enqueue plain_bson slot 1 (λ i. i) (first_job ∷ second_job ∷ []) none)
enqueue-Returned_example =
    enqueue-Returned plain_bson slot slot-IsTasks slot_insert-Stores 1 (λ i. i)
      (first_job ∷ second_job ∷ []) none (omega arith)

abbrev pending_mail : TaskQuery
pending_mail = record {
  queue = bytes "q";
  status = bytes "pending";
  type = [];
  limit = pos 500;
  before = bytes "111";
}

list_tasks-IsPage_example :
    IsPage plain_bson slot pending_mail
      (some written_job)
      (page_filter plain_bson slot pending_mail)
      (list_tasks plain_bson slot pending_mail (λ s. s) (some written_job))
list_tasks-IsPage_example =
    list_tasks-IsPage plain_bson slot slot-IsTasks pending_mail (λ s. s) (some written_job)

abbrev buried_job : TaskDoc
buried_job = record written_job { status = dead }

requeue_task-Answered_example :
    Answered plain_bson
      (bytes "11")
      (pos 200)
      (documents (some buried_job))
      (documents (requeue_task plain_bson slot (bytes "11") (pos 200) (some buried_job)).0)
      (requeue_task plain_bson slot (bytes "11") (pos 200) (some buried_job)).1.status
requeue_task-Answered_example =
    requeue_task-Answered plain_bson slot slot-IsTasks (bytes "11") (pos 200) (some buried_job)
