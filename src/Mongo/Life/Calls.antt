-- ===== src/Mongo/Life/Calls.antt =====
-- The methods of mongostore on a collection that behaves as documented: each sends one command that
-- writes, so histories of these commands are the histories of all clients together.
use gotasks.Life.{here}
use gotasks.Task.{Duration, ok, Time, ClaimOptions, Outcome, Task, TaskError}
use gotasks.Prelude.Text.{Text}
use gotasks.Prelude.{All, ◌≢◌, ◌∷◌, [], List, Bool}
use gotasks.Mongo.Writes.{claim_update}
use gotasks.Mongo.Life.Commands.{found_one-Evolved}
use gotasks.Mongo.Life.{
  reap_update-IsMove, requeue_update-IsMove, core_of_doc, runnable_filter-IsMove,
  guard_filter-IsMove, Evolved-refl, EvolvedAt, EvolvedAt-trans,
}
use gotasks.Mongo.Finalize.{
  delete_task, fail, requeue, requeue_dead, extend_lease, requeue_dead_by_queue, reap_expired,
  complete_write, complete, finalize_batch, fail_write,
}
use gotasks.Mongo.Docs.{ObjectId, TaskDoc, oid, Bson}
use gotasks.Mongo.Claim.{guard_filter, claim}
use gotasks.Mongo.Driver.{IsTasks, Tasks}
use gotasks.Mongo.Life.Outcomes.{
  update_many-From, write_one-From, finalize_batch-From, extend_found-From, requeue_found-From,
  many-From, delete_found-From, complete_write-IsFit, fail_write-IsFit,
}

-- `takes` is the update of ClaimBatch, for the candidates that its search found.
pub data Call : Type 0 where
  inserts : List TaskDoc → Call
  claims : ClaimOptions → Text → Call
  takes : List ObjectId → ClaimOptions → Text → Call
  completes : Task → Text → Call
  fails : Task → TaskError → Time → Bool → Call
  finalizes : List Outcome → Call
  extends : Task → Duration → Call
  requeues : Text → Call
  requeues_dead : Text → Call
  requeues_queue : Text → Call
  reaps : Call
  deletes : Text → Call

-- The call is no DeleteTask that names the document.
abbrev pub Spares : Bson → ObjectId → Call → Type 0
Spares b id (deletes t) = oid b t ≢ ok id
Spares b id _ = Unit

module _ (b : Bson) (c : Tasks) where
  unfoldable pub perform : Call → Time → c.State → c.State
  perform (inserts ds) now s = (c.insert_many ds s).0
  perform (claims opts token) now s = (claim b c opts token now s).0
  perform (takes ids opts token) now s =
      (c.update_many (guard_filter b c now ids) (claim_update now opts.worker_id token opts.lease)
        s).0
  perform (completes t result) now s = (complete b c t result now s).0
  perform (fails t e at terminal) now s = (fail b c t e at terminal now s).0
  perform (finalizes os) now s = (finalize_batch b c os now s).0
  perform (extends t lease) now s = (extend_lease b c t lease now s).0
  perform (requeues id) now s = (requeue b c id now s).0
  perform (requeues_dead task_type) now s = (requeue_dead b c task_type now s).0
  perform (requeues_queue queue) now s = (requeue_dead_by_queue b c queue now s).0
  perform reaps now s = (reap_expired b c now s).0
  perform (deletes id) now s = (delete_task b c id s).0

  unfoldable pub run : List (Call × Time) → c.State → c.State
  run [] s = s
  run ((x, now) ∷ xs) s = run xs (perform x now s)

  module _ (h : IsTasks c) where
    perform-From :
        (x : Call) (now : Time) (s : c.State) (id : ObjectId)
        → Spares b id x
        → EvolvedAt id (c.docs s) (c.docs (perform x now s))
    unfolding perform claim complete fail extend_lease requeue requeue_dead requeue_dead_by_queue
        reap_expired delete_task
    perform-From (inserts ds) now s id spared =
        λ d own. (d, h.inserts ds s id d own, here (core_of_doc d))
    perform-From (claims opts token) now s id spared =
        (found_one-Evolved _ _ _ _ _ _
            (runnable_filter-IsMove opts.types opts.queues now opts.lease opts.worker_id token)
            (h.finds_and_updates _ _ _ s))
          id
    perform-From (takes ids opts token) now s id spared =
        (update_many-From b c h _ _ s
            (guard_filter-IsMove b c ids now opts.lease opts.worker_id token))
          id
    perform-From (completes t result) now s id spared =
        (write_one-From b c h (complete_write b c t result now) s
            (complete_write-IsFit b c h t result now))
          id
    perform-From (fails t e at terminal) now s id spared =
        (write_one-From b c h (fail_write b c t e at terminal now) s
            (fail_write-IsFit b c h t e at terminal now))
          id
    perform-From (finalizes os) now s id spared = (finalize_batch-From b c h os now s) id
    perform-From (extends t lease) now s id spared =
        (extend_found-From b c h t lease now s (oid b t.id)) id
    perform-From (requeues t) now s id spared = (requeue_found-From b c h now s (oid b t)) id
    perform-From (requeues_dead task_type) now s id spared =
        (many-From b c h _ _ s (requeue_update-IsMove _ now)) id
    perform-From (requeues_queue queue) now s id spared =
        (many-From b c h _ _ s (requeue_update-IsMove _ now)) id
    perform-From reaps now s id spared = (many-From b c h _ _ s (reap_update-IsMove now)) id
    perform-From (deletes t) now s id spared = delete_found-From b c h id s (oid b t) spared

-- Mongostore implements the life of a task: on a collection that behaves as documented, in any
-- history of its commands, by any number of clients, failed ones included, a document that no
-- DeleteTask of the history names is kept, and its status, attempts, lease token and unique key change
-- by steps of the machine only.
pub run-Evolves :
    (b : Bson) (c : Tasks) (h : IsTasks c) (xs : List (Call × Time)) (s : c.State) (id : ObjectId)
    → All (λ x. Spares b id x.0) xs
    → EvolvedAt id (c.docs s) (c.docs (run b c xs s))
unfolding run
run-Evolves b c h [] s id spared = Evolved-refl (c.docs s) id
run-Evolves b c h ((x, now) ∷ xs) s id spared =
    EvolvedAt-trans id _ _ _ (perform-From b c h x now s id spared.0)
      (run-Evolves b c h xs (perform b c x now s) id spared.1)
