-- ===== src/Mongo/Life/Outcomes.antt =====
-- What the writes of mongostore make of the documents of a collection that behaves as documented.
use gotasks.Prelude.Int.{◌+ℤ◌}
use gotasks.Life.{here}
use gotasks.Task.{
  not_found, Duration, lease_lost, ok, Time, Result, err, Outcome, StoreError, Task, TaskError,
}
use gotasks.Prelude.Text.{Text}
use gotasks.Prelude.{
  inl, All, length, inr, Option-cases, refl, ◌≢◌, ◌==◌, ==_iff, Bool-cases, sym, ap, false, ◌∷◌,
  some, ◌≡◌, ℕ, [], none, List, Option, Bool,
}
use gotasks.Mongo.Writes.{extend_update, lease_filter, requeue_update}
use gotasks.Mongo.Query.{matches, meets, id_is, Filter, Update}
use gotasks.Mongo.Life.Commands.{find_doc-id, Carried-Evolved, counted-Evolved, many-Evolved}
use gotasks.Mongo.Life.{
  core_of_doc, requeue_one-IsMove, extend_update-IsMove, fail_update-IsMove, Evolved,
  complete_update-IsMove, Evolved-refl, EvolvedAt, IsMove,
}
use gotasks.Mongo.Finalize.{
  delete_found, deleted_one, extend_found, write_all, requeue_found, add_write, outcome_write,
  outcome_writes, modified_many, bulk_reply, complete_write, write_one, matched_one, failed_write,
  completed_write, finalize_batch, extend_reply, fail_write,
}
use gotasks.Mongo.Docs.{json_to_raw, ObjectId, oid, Bson}
use gotasks.Mongo.Driver.{IsTasks, Tasks, lost, Counts, got, Reply}

module _ (b : Bson) (c : Tasks) (h : IsTasks c) where
  abbrev pub From : c.State → c.State → Type 0
  From s s' = Evolved (c.docs s) (c.docs s')

  -- The helpers that read a reply leave the state alone.
  matched_one-state : (e : StoreError) (r : c.State × Reply Counts) → (matched_one b c e r).0 ≡ r.0
  matched_one-state e (s, lost) = refl
  matched_one-state e (s, got n) = refl

  modified_many-state : (r : c.State × Reply Counts) → (modified_many b c r).0 ≡ r.0
  modified_many-state (s, lost) = refl
  modified_many-state (s, got n) = refl

  bulk_reply-state : (n : ℕ) (r : c.State × Reply ℕ) → (bulk_reply b c n r).0 ≡ r.0
  bulk_reply-state n (s, lost) = refl
  bulk_reply-state n (s, got k) = refl

  extend_reply-state :
      (until : Time) (r : c.State × Option StoreError) → (extend_reply b c until r).0 ≡ r.0
  extend_reply-state until (s, none) = refl
  extend_reply-state until (s, some e) = refl

  -- A write that is fit to send: an error, or a step of the machine.
  abbrev pub IsFit : Result (Filter × Update) → Type 0
  IsFit (err e) = Unit
  IsFit (ok (f, u)) = IsMove f u

  pub update_one-From :
      (f : Filter) (u : Update) (s : c.State) → IsMove f u → From s (c.update_one f u s).0
  update_one-From f u s m = counted-Evolved f u _ _ _ m (h.updates_one f u s)

  pub update_many-From :
      (f : Filter) (u : Update) (s : c.State) → IsMove f u → From s (c.update_many f u s).0
  update_many-From f u s m = many-Evolved f u _ _ _ m (h.updates_many f u s)

  pub write_one-From :
      (w : Result (Filter × Update)) (s : c.State) → IsFit w → From s (write_one b c w s).0
  write_one-From (err e) s m = Evolved-refl (c.docs s)
  write_one-From (ok (f, u)) s m =
      rw (matched_one-state lease_lost (c.update_one f u s)) (update_one-From f u s m)

  pub complete_write-IsFit :
      (t : Task) (result : Text) (now : Time) → IsFit (complete_write b c t result now)
  unfolding complete_write
  complete_write-IsFit t result now = go (oid b t.id) (json_to_raw b result)
    where
      go :
          (o : Result ObjectId) (raw : Option Text)
          → IsFit (completed_write b c now t.lease_token o raw)
      go (err e) raw = tt
      go (ok o) none = tt
      go (ok o) (some raw) = complete_update-IsMove o t.lease_token raw now

  pub fail_write-IsFit :
      (t : Task) (e : TaskError) (at : Time) (terminal : Bool) (now : Time)
      → IsFit (fail_write b c t e at terminal now)
  unfolding fail_write
  fail_write-IsFit t e at terminal now = go (oid b t.id)
    where
      go : (o : Result ObjectId) → IsFit (failed_write b c t e at terminal now o)
      go (err x) = tt
      go (ok o) = fail_update-IsMove o t.lease_token e at terminal now

  outcome_write-IsFit : (o : Outcome) (now : Time) → IsFit (outcome_write b c o now)
  unfolding outcome_write
  outcome_write-IsFit o now = elim (Option-cases o.failure) [
    | inl succeeded ↦ rw (outcome_write, succeeded) (complete_write-IsFit o.task o.result now)
    | inr (e, failed) ↦
        rw (outcome_write, failed) (fail_write-IsFit o.task e o.retry_at o.terminal now)
  ]

  AreFit : Result (List (Filter × Update)) → Type 0
  AreFit (err e) = Unit
  AreFit (ok ws) = All (λ w. IsMove w.0 w.1) ws

  add_write-AreFit :
      (w : Result (Filter × Update)) (ws : Result (List (Filter × Update)))
      → IsFit w
      → AreFit ws
      → AreFit (add_write b c w ws)
  unfolding AreFit
  add_write-AreFit (err e) ws m ms = tt
  add_write-AreFit (ok w) (err e) m ms = tt
  add_write-AreFit (ok w) (ok ws) m ms = (m, ms)

  outcome_writes-AreFit : (os : List Outcome) (now : Time) → AreFit (outcome_writes b c os now)
  unfolding outcome_writes AreFit
  outcome_writes-AreFit [] now = tt
  outcome_writes-AreFit (o ∷ os) now =
      add_write-AreFit (outcome_write b c o now) (outcome_writes b c os now)
        (outcome_write-IsFit o now) (outcome_writes-AreFit os now)

  write_all-From :
      (n : ℕ) (ws : Result (List (Filter × Update))) (s : c.State)
      → AreFit ws
      → From s (write_all b c n ws s).0
  unfolding AreFit
  write_all-From n (err e) s m = Evolved-refl (c.docs s)
  write_all-From n (ok ws) s m =
      rw (bulk_reply-state n (c.bulk_write ws s)) (Carried-Evolved ws _ _ m (h.writes_bulk ws s))

  pub finalize_batch-From :
      (os : List Outcome) (now : Time) (s : c.State) → From s (finalize_batch b c os now s).0
  unfolding finalize_batch
  finalize_batch-From [] now s = Evolved-refl (c.docs s)
  finalize_batch-From (o ∷ os) now s =
      write_all-From (length (o ∷ os)) (outcome_writes b c (o ∷ os) now) s
        (outcome_writes-AreFit (o ∷ os) now)

  pub extend_found-From :
      (t : Task) (lease : Duration) (now : Time) (s : c.State) (o : Result ObjectId)
      → From s (extend_found b c t lease now s o).0
  extend_found-From t lease now s (err e) = Evolved-refl (c.docs s)
  extend_found-From t lease now s (ok o) =
      let f = lease_filter o t.lease_token in
      let u = extend_update now lease in
      rw (extend_reply-state (now +ℤ lease) (matched_one b c lease_lost (c.update_one f u s))) (
        rw (matched_one-state lease_lost (c.update_one f u s))
          (update_one-From f u s (extend_update-IsMove o t.lease_token now lease)))

  pub requeue_found-From :
      (now : Time) (s : c.State) (o : Result ObjectId) → From s (requeue_found b c now s o).0
  requeue_found-From now s (err e) = Evolved-refl (c.docs s)
  requeue_found-From now s (ok o) =
      rw (matched_one-state not_found (c.update_one _ (requeue_update now) s))
        (update_one-From _ (requeue_update now) s (requeue_one-IsMove o now))

  pub many-From :
      (f : Filter) (u : Update) (s : c.State)
      → IsMove f u
      → From s (modified_many b c (c.update_many f u s)).0
  many-From f u s m = rw (modified_many-state (c.update_many f u s)) (update_many-From f u s m)

  deleted_one-state : (r : c.State × Reply ℕ) → (deleted_one b c r).0 ≡ r.0
  deleted_one-state (s, lost) = refl
  deleted_one-state (s, got n) = refl

  -- A document with another id does not match the filter.
  pub delete_found-From :
      (id : ObjectId) (s : c.State) (o : Result ObjectId)
      → o ≢ ok id
      → EvolvedAt id (c.docs s) (c.docs (delete_found b c s o).0)
  delete_found-From id s (err e) spared d own = Evolved-refl (c.docs s) id d own
  delete_found-From id s (ok o) spared d own =
      let f : Filter = record { all_of = id_is o ∷ []; any_of = [] } in
      let apart : (id == o) ≡ false = elim (Bool-cases (id == o)) [
        | inl same ↦ absurd (spared (ap ok (sym ((==_iff id o).0 same))))
        | inr apart ↦ apart
      ] in
      let itself : d.id ≡ id = find_doc-id id (c.docs s) d own in
      let unmatched : matches f d ≡ false = unfold matches meets in rw (itself, apart) refl in
      rw (deleted_one-state (c.delete_one f s))
        ((d, h.deletes f s id d own unmatched, here (core_of_doc d)))
