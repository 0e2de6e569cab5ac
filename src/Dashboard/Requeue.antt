-- ===== src/Dashboard/Requeue.antt =====
-- What the answer to a requeue request says of the collection.
use mathlib.Core.Path.{subst}
use gotasks.Prelude.Text.{Text}
use gotasks.Prelude.{
  some, sym, ◌≡◌, none, arith, true, ◌∙◌, refl, inr, ap, List, inl, [], ◌∷◌, Option,
}
use gotasks.Mongo.Writes.{requeue_update}
use gotasks.Mongo.Query.{status_is, id_is, matches, meets, updated, Filter}
use gotasks.Mongo.Life.{one}
use gotasks.Mongo.Docs.{TaskDoc, Bson, oid, ObjectId}
use gotasks.Mongo.Finalize.{requeue, requeue_found, matched_one}
use gotasks.Dashboard.{
  requeue_task, ok_response, HttpStatus, http_ok, bad_request, http_not_found, internal_error,
  write_err, error_status,
}
use gotasks.Task.{ok, err, Result, dead, not_found, StoreError, Time}
use gotasks.Mongo.Driver.{
  got, lost, Reply, Counts, CountReply, SomeUpdated, Unmatched, Tasks, IsTasks, find_doc, put_doc,
}

abbrev dead_with : ObjectId → Filter
dead_with o = record { all_of = id_is o ∷ status_is dead ∷ []; any_of = [] }

-- 200: the dead task with that id is pending again, and nothing else has changed. 404: the id is none,
-- or of no dead task, and nothing has changed. 500: the task may be pending again or not.
-- There is no other answer.
abbrev pub Answered : (b : Bson) → Text → Time → List TaskDoc → List TaskDoc → HttpStatus → Type 0
Answered b id now ds ds' http_ok =
    (d : TaskDoc) × (oid b id ≡ ok d.id)
    × (find_doc d.id ds ≡ some d)
    × (d.status ≡ dead)
    × (ds' ≡ put_doc (updated (requeue_update now) d) ds)
Answered b id now ds ds' bad_request = ⊥
Answered b id now ds ds' http_not_found =
    (ds' ≡ ds) × ((o : ObjectId) → oid b id ≡ ok o → Unmatched (dead_with o) ds)
Answered b id now ds ds' internal_error =
    (o : ObjectId) × (oid b id ≡ ok o) × SomeUpdated (dead_with o) (requeue_update now) ds ds'

oid-err : (b : Bson) (id : Text) (e : StoreError) → oid b id ≡ err e → e ≡ not_found
unfolding oid
oid-err b id e = go (b.object_id_from_hex id)
  where
    go :
        (o : Option ObjectId)
        → elim o [ none ↦ err not_found | some i ↦ ok i ] ≡ err e
        → e ≡ not_found
    go none h = ground arith
    go (some i) h = ground arith

dead_with-parts :
    (o : ObjectId) (d : TaskDoc) → matches (dead_with o) d ≡ true → (o ≡ d.id) × (d.status ≡ dead)
unfolding matches meets
dead_with-parts o d h = (ground arith, ground arith)

module _ (b : Bson) (c : Tasks) where
  matched-Answered :
      (id : Text) (now : Time) (o : ObjectId) (ds : List TaskDoc) (r : c.State × Reply Counts)
      → oid b id ≡ ok o
      → CountReply (dead_with o) (requeue_update now) ds (c.docs r.0) r.1
      → Answered b id now ds
          (c.docs (matched_one b c not_found r).0)
          (ok_response (matched_one b c not_found r).1).status
  unfolding write_err error_status
  matched-Answered id now o ds (s, lost) e h = (o, e, h)
  matched-Answered id now o ds (s, got n) e (inl (u, same, zero_matched)) =
      rw zero_matched (same, λ i k. subst (λ j. Unmatched (dead_with j) ds) (same_id i k) u)
    where
      same_id : (i : ObjectId) → oid b id ≡ ok i → o ≡ i
      same_id i k = (let both : ok o ≡ ok i = sym e ∙ k in ground arith)
  matched-Answered id now o ds (s, got n) e (inr (d, one, one_matched)) =
      let parts = dead_with-parts o d one.matching in
      rw one_matched (d, e ∙ ap ok parts.0, one.found, parts.1, one.written)

  found-Answered :
      (h : IsTasks c) (id : Text) (now : Time) (s : c.State) (o : Result ObjectId)
      → oid b id ≡ o
      → Answered b id now
          (c.docs s)
          (c.docs (requeue_found b c now s o).0)
          (ok_response (requeue_found b c now s o).1).status
  unfolding write_err error_status
  found-Answered h id now s (err e) k = rw (oid-err b id e k) (refl, λ o k'. elim (no_id o k') [ ])
    where
      no_id : (o : ObjectId) → oid b id ≡ ok o → ⊥
      no_id o k' = (let both : err e ≡ ok o = sym k ∙ k' in ground arith)
  found-Answered h id now s (ok o) k =
      matched-Answered id now o (c.docs s) (c.update_one (dead_with o) (requeue_update now) s) k
        (h.updates_one (dead_with o) (requeue_update now) s)

-- The answer of the dashboard to a requeue request, over a collection that behaves as documented: with
-- 200, the task with that id was dead and is requeued, and nothing else has changed; with 404, the
-- text is no id or that of no dead task, and nothing has changed; with 500, at most that task was
-- requeued.
pub requeue_task-Answered :
    (b : Bson) (c : Tasks) (h : IsTasks c) (id : Text) (now : Time) (s : c.State)
    → Answered b id now
        (c.docs s)
        (c.docs (requeue_task b c id now s).0)
        (requeue_task b c id now s).1.status
unfolding requeue_task requeue
requeue_task-Answered b c h id now s = found-Answered b c h id now s (oid b id) refl
