-- ===== src/Tests/Collections.antt =====
-- A tasks collection with room for one document, as a concrete driver for mongostore.
pub mod Runs
use gotasks.Task.{Time}
use gotasks.Prelude.Text.{Text, bytes}
use gotasks.Prelude.Int.{pos}
use gotasks.Mongo.Life.Calls.{inserts}
use gotasks.Prelude.{
  ap, zero, ℕ, arith, none, sym, some, Bool-cases, ◌≡◌, ◌∷◌, ◌∙◌, if◌then◌else◌, false, refl, true,
  inr, length, List, [], ◌+◌, suc, inl, Option,
}
use gotasks.Mongo.Query.{
  unset_result, change, push_error, set_token, updated, push_own_error, set_leased_until, matches,
  inc_attempts, set_result, unset_token, unset_leased_until, Change, unset_leased_by,
  set_updated_at, unset_key, set_attempts, Update, set_run_at, set_leased_by, Filter, set_status,
}
use gotasks.Mongo.Docs.{TaskDoc, ObjectId}
use mathlib.Core.List.{Memᴰ}
use gotasks.Mongo.Life.{Evolved}
use gotasks.Mongo.Life.Calls.{Call, run, run-Evolves, claims, completes, inserts}
use gotasks.Mongo.Docs.{Bson, new_doc}
use gotasks.Mongo.Enqueue.{enqueue, build_docs}
use gotasks.Mongo.Enqueue.Fates.{Stores, doc_at, listed}
use gotasks.Mongo.Listing.{TaskQuery, page_filter, list_tasks}
use gotasks.Mongo.Listing.Pages.{IsPage, list_tasks-IsPage}
use gotasks.Dashboard.{requeue_task}
use gotasks.Dashboard.Requeue.{Answered, requeue_task-Answered}
use gotasks.Task.{dead}
use gotasks.Tests.{second_job, first_job, worker, first_claim, second_claim}
use gotasks.Mongo.Driver.{
  earliest_due, put_doc, FoundReply, Sorting, natural, by_run_at, CountReply, IsTasks, doc_earlier,
  ManyReply, Carried, OneUpdated, Leads, Tasks, ascending, find_doc, descending, DistinctDocs,
  OneReply, finished, next, Counts, got, Inserted, all_inserted, hard_error, write_errors,
}

abbrev pub documents : Option TaskDoc → List TaskDoc
documents none = []
documents (some d) = d ∷ []

-- The document, if it matches.
abbrev matching_doc : Filter → Option TaskDoc → Option TaskDoc
matching_doc f none = none
matching_doc f (some d) = if matches f d then some d else none

pub slot_update : Filter → Update → Option TaskDoc → Option TaskDoc × Counts
slot_update f u none = (none, record { matched = 0; modified = 0 })
slot_update f u (some d) =
    if matches f d
    then (some (updated u d), record { matched = 1; modified = 1 })
    else (some d, record { matched = 0; modified = 0 })

pub slot_find_and_update : Filter → Update → Option TaskDoc → Option TaskDoc × Option TaskDoc
slot_find_and_update f u none = (none, none)
slot_find_and_update f u (some d) =
    if matches f d then (some (updated u d), some (updated u d)) else (some d, none)

pub slot_bulk : List (Filter × Update) → Option TaskDoc → Option TaskDoc × ℕ
slot_bulk [] s = (s, 0)
slot_bulk ((f, u) ∷ ms) s =
    let r = slot_update f u s in let rest = slot_bulk ms r.0 in (rest.0, r.1.matched + rest.1)

pub slot_insert : List TaskDoc → Option TaskDoc → Option TaskDoc × Inserted
slot_insert [] s = (s, all_inserted)
slot_insert (d ∷ []) none = (some d, all_inserted)
slot_insert (d ∷ e ∷ ds) none = (some d, hard_error)
slot_insert (d ∷ []) (some e) =
    (some e, write_errors (record { index = 0; duplicate_key = true }) [])
slot_insert (d ∷ c ∷ ds) (some e) = (some e, hard_error)

pub slot_delete : Filter → Option TaskDoc → Option TaskDoc × ℕ
slot_delete f none = (none, 0)
slot_delete f (some d) = if matches f d then (none, 1) else (some d, 0)

pub slot_find : Filter → Option ℕ → Option TaskDoc → List TaskDoc
slot_find f (some zero) s = []
slot_find f limit s = documents (matching_doc f s)

abbrev pub slot : Tasks
slot = record {
  State = Option TaskDoc;
  docs = documents;
  insert_many = slot_insert;
  find_one_and_update = λ f u o s. (let r = slot_find_and_update f u s in (r.0, got r.1));
  update_one = λ f u s. (let r = slot_update f u s in (r.0, got r.1));
  update_many = λ f u s. (let r = slot_update f u s in (r.0, got r.1));
  bulk_write = λ ms s. (let r = slot_bulk ms s in (r.0, got r.1));
  find = λ f o limit s. got (slot_find f limit s);
  find_one = λ f o s. got (matching_doc f s);
  count_documents = λ f s. got (length (documents (matching_doc f s)));
  delete_one = λ f s. (let r = slot_delete f s in (r.0, got r.1));
}

change-same_id : (x : Change) (d : TaskDoc) → (change x d).id ≡ d.id
unfolding change
change-same_id (set_status st) d = refl
change-same_id (set_run_at t) d = refl
change-same_id (set_leased_until t) d = refl
change-same_id (set_updated_at t) d = refl
change-same_id (set_leased_by t) d = refl
change-same_id (set_token t) d = refl
change-same_id (set_result t) d = refl
change-same_id (set_attempts t) d = refl
change-same_id (inc_attempts t) d = refl
change-same_id (push_error t) d = refl
change-same_id unset_leased_by d = refl
change-same_id unset_leased_until d = refl
change-same_id unset_token d = refl
change-same_id unset_key d = refl
change-same_id unset_result d = refl
change-same_id (push_own_error now t) d = refl

updated-same_id : (u : Update) (d : TaskDoc) → (updated u d).id ≡ d.id
unfolding updated
updated-same_id [] d = refl
updated-same_id (x ∷ xs) d = updated-same_id xs (change x d) ∙ change-same_id x d

put_only : (d e : TaskDoc) → e.id ≡ d.id → put_doc e (d ∷ []) ≡ e ∷ []
unfolding put_doc
put_only d e h = ground arith

find_only : (d : TaskDoc) → find_doc d.id (d ∷ []) ≡ some d
unfolding find_doc
find_only d = ground arith

slot-OneUpdated :
    (f : Filter) (u : Update) (d : TaskDoc)
    → matches f d ≡ true
    → OneUpdated f u (d ∷ []) (updated u d ∷ []) d
slot-OneUpdated f u d h = record {
  found = find_only d;
  matching = h;
  written = sym (put_only d (updated u d) (updated-same_id u d));
}

slot_update-CountReply :
    (f : Filter) (u : Update) (s : Option TaskDoc)
    → CountReply f u (documents s) (documents (slot_update f u s).0) (got (slot_update f u s).1)
unfolding slot_update
slot_update-CountReply f u none = inl (tt, refl, refl)
slot_update-CountReply f u (some d) = elim (Bool-cases (matches f d)) [
  | inl hit ↦ rw hit (inr (d, slot-OneUpdated f u d hit, refl))
  | inr miss ↦ rw miss (inl ((refl, tt), refl, refl))
]

slot_update-ManyReply :
    (f : Filter) (u : Update) (s : Option TaskDoc)
    → ManyReply f u (documents s) (documents (slot_update f u s).0) (got (slot_update f u s).1)
unfolding slot_update
slot_update-ManyReply f u none = (refl, refl, omega arith, λ _. refl)
slot_update-ManyReply f u (some d) = elim (Bool-cases (matches f d)) [
  | inl hit ↦ rw hit (refl, refl, omega arith, λ h. ground arith)
  | inr miss ↦ rw miss (refl, refl, omega arith, λ h. refl)
]

slot-OneReply :
    (f : Filter) (u : Update) (o : Sorting) (s : Option TaskDoc)
    → OneReply f u o
        (documents s)
        (documents (slot_find_and_update f u s).0)
        (got (slot_find_and_update f u s).1)
unfolding slot_find_and_update
slot-OneReply f u o none = (tt, refl)
slot-OneReply f u o (some d) = elim (Bool-cases (matches f d)) [
  | inl hit ↦ rw hit (d, slot-OneUpdated f u d hit, leads o, refl)
  | inr miss ↦ rw miss ((miss, tt), refl)
]
  where
    not_earlier : doc_earlier d d ≡ false
    not_earlier = unfold doc_earlier in ground arith

    leads : (o : Sorting) → Leads o f (d ∷ []) d
    leads natural = tt
    leads by_run_at = ((λ _. not_earlier), tt)
    leads ascending = tt
    leads descending = tt
    leads earliest_due = tt

slot_insert-keeps :
    (ds : List TaskDoc) (s : Option TaskDoc) (id : ObjectId) (d : TaskDoc)
    → find_doc id (documents s) ≡ some d
    → find_doc id (documents (slot_insert ds s).0) ≡ some d
unfolding slot_insert
slot_insert-keeps [] s id d h = h
slot_insert-keeps (c ∷ []) none id d h = unfold find_doc in ground arith
slot_insert-keeps (c ∷ e ∷ ds) none id d h = unfold find_doc in ground arith
slot_insert-keeps (c ∷ []) (some x) id d h = h
slot_insert-keeps (c ∷ e ∷ ds) (some x) id d h = h

pub slot_insert-Stores :
    (ds : List TaskDoc) (s : Option TaskDoc) → Stores slot ds (slot_insert ds s)
unfolding slot_insert find_doc
slot_insert-Stores [] s = λ i d own. absurd (ground (arith, own))
slot_insert-Stores (c ∷ []) none = stores
  where
    stores : (i : ℕ) (d : TaskDoc) → doc_at (c ∷ []) i ≡ some d → find_doc d.id (c ∷ []) ≡ some d
    stores zero d own = ground (arith, own)
    stores (suc i) d own = absurd (ground (arith, own))
slot_insert-Stores (c ∷ e ∷ ds) none = tt
slot_insert-Stores (c ∷ []) (some x) = ((omega arith, tt), others)
  where
    others :
        (i : ℕ) (d : TaskDoc)
        → doc_at (c ∷ []) i ≡ some d
        → listed (record { index = 0; duplicate_key = true } ∷ []) i ≡ none
        → find_doc d.id (x ∷ []) ≡ some d
    others zero d own free = absurd (ground (arith, free))
    others (suc i) d own free = absurd (ground (arith, own))
slot_insert-Stores (c ∷ e ∷ ds) (some x) = tt

slot_delete-keeps :
    (f : Filter) (s : Option TaskDoc) (id : ObjectId) (d : TaskDoc)
    → find_doc id (documents s) ≡ some d
    → matches f d ≡ false
    → find_doc id (documents (slot_delete f s).0) ≡ some d
unfolding slot_delete find_doc
slot_delete-keeps f none id d h miss = h
slot_delete-keeps f (some x) id d h miss =
    let same : x ≡ d = ground (arith, h) in
    let miss' : matches f x ≡ false = ap (matches f) same ∙ miss in rw miss' h

Carried-weaken :
    (m : Filter × Update) (ms : List (Filter × Update)) (ds es : List TaskDoc)
    → Carried ms ds es
    → Carried (m ∷ ms) ds es
Carried-weaken m ms ds es (finished _) = finished ds
Carried-weaken m ms ds es (next d x mid own o rest) =
    next d x mid (Memᴰ.tail own) o (Carried-weaken m ms mid es rest)

slot_bulk-Carried :
    (ms : List (Filter × Update)) (s : Option TaskDoc)
    → Carried ms (documents s) (documents (slot_bulk ms s).0)
unfolding slot_bulk slot_update
slot_bulk-Carried [] s = finished (documents s)
slot_bulk-Carried ((f, u) ∷ ms) none = Carried-weaken (f, u) ms _ _ (slot_bulk-Carried ms none)
slot_bulk-Carried ((f, u) ∷ ms) (some d) = elim (Bool-cases (matches f d)) [
  | inl hit ↦ rw hit (
      next d (f, u) (updated u d ∷ []) (Memᴰ.head refl) (slot-OneUpdated f u d hit)
        (Carried-weaken (f, u) ms _ _ (slot_bulk-Carried ms (some (updated u d)))))
  | inr miss ↦ rw miss (Carried-weaken (f, u) ms _ _ (slot_bulk-Carried ms (some d)))
]

slot_find-FoundReply :
    (f : Filter) (limit : Option ℕ) (s : Option TaskDoc)
    → FoundReply f (documents s) limit (got (slot_find f limit s))
unfolding slot_find
slot_find-FoundReply f none none = (tt, tt, tt)
slot_find-FoundReply f (some zero) none = (tt, tt, omega arith)
slot_find-FoundReply f (some (suc n)) none = (tt, tt, omega arith)
slot_find-FoundReply f (some zero) (some d) = (tt, tt, omega arith)
slot_find-FoundReply f none (some d) = elim (Bool-cases (matches f d)) [
  | inl hit ↦ rw hit (((find_only d, hit), tt), (tt, tt), tt)
  | inr miss ↦ rw miss (tt, tt, tt)
]
slot_find-FoundReply f (some (suc n)) (some d) = elim (Bool-cases (matches f d)) [
  | inl hit ↦ rw hit (((find_only d, hit), tt), (tt, tt), omega arith)
  | inr miss ↦ rw miss (tt, tt, omega arith)
]

documents-Distinct : (s : Option TaskDoc) → DistinctDocs (documents s)
documents-Distinct none = tt
documents-Distinct (some d) = (tt, tt)

pub slot-IsTasks : IsTasks slot
slot-IsTasks = record {
  distinct = documents-Distinct;
  finds_and_updates = slot-OneReply;
  updates_one = slot_update-CountReply;
  updates_many = slot_update-ManyReply;
  inserts = slot_insert-keeps;
  deletes = slot_delete-keeps;
  writes_bulk = slot_bulk-Carried;
  finds = λ f o limit s. slot_find-FoundReply f limit s;
}
