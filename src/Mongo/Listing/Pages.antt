-- ===== src/Mongo/Listing/Pages.antt =====
-- The pages of ListTasks.
use mathlib.Core.Path.{subst}
use gotasks.Mongo.Listing.{page}
use gotasks.Task.{err, Task, ok, Result, other}
use gotasks.Prelude.Int.{ℤ}
use gotasks.Prelude.{
  ◌≡◌, ℕ, List, length, arith, ap, ◌⊎◌, All, Option, inr, some, ◌∷◌, inl, none, refl, true, ◌≤◌,
  suc, [],
}
use gotasks.Mongo.Query.{matches, Filter}
use gotasks.Mongo.Listing.{
  list_tasks, counted, query_filter, page_limit, TaskQuery, page_tasks, page_filter,
}
use gotasks.Mongo.Driver.{Tasks, lost, got, IsTasks, FoundReply, find_doc, descending, Reply}
use gotasks.Mongo.Docs.{Bson, to_task, TaskDoc}
use gotasks.Mongo.Claim.{to_tasks}

-- The task is read from a document of the collection that the filter matches.
abbrev pub ReadFrom : (b : Bson) → (c : Tasks) → Filter → c.State → Task → Type 0
ReadFrom b c f s t =
    (d : TaskDoc) × (find_doc d.id (c.docs s) ≡ some d)
    × (matches f d ≡ true)
    × (to_task b d ≡ some t)

-- By the answer: a page of at most as many tasks as asked for and as 200, each read from a matching
-- document that is there, the cursor's filter included, with the count; or the error of a bad cursor
-- or of a failed command or conversion.
abbrev pub IsPage :
    (b : Bson) → (c : Tasks) → TaskQuery → c.State → Result Filter → Result (List Task × ℕ) → Type 0
IsPage b c q s f (err e) = (f ≡ err e) ⊎ (e ≡ other)
IsPage b c q s (err e) (ok r) = ⊥
IsPage b c q s (ok f) (ok (ts, total)) =
    (length ts ≤ page_limit q.limit) × (length ts ≤ 200) × All (ReadFrom b c f s) ts

page_limit-le : (limit : ℤ) → page_limit limit ≤ 200
unfolding page_limit
page_limit-le limit = ground arith

module _ (b : Bson) (c : Tasks) where
  to_tasks-ReadFrom :
      (f : Filter) (s : c.State) (ds : List TaskDoc) (ts : List Task)
      → All (λ d. (find_doc d.id (c.docs s) ≡ some d) × (matches f d ≡ true)) ds
      → to_tasks b c ds ≡ some ts
      → (length ts ≡ length ds) × All (ReadFrom b c f s) ts
  unfolding to_tasks
  to_tasks-ReadFrom f s [] [] a h = (refl, tt)
  to_tasks-ReadFrom f s [] (t ∷ ts) a h = ground arith
  to_tasks-ReadFrom f s (d ∷ ds) ts a h =
      go (to_task b d) (to_tasks b c ds) refl (λ us e. to_tasks-ReadFrom f s ds us a.1 e) ts h
    where
      go :
          (first : Option Task) (rest : Option (List Task))
          → to_task b d ≡ first
          → ((us : List Task)
              → rest ≡ some us
              → (length us ≡ length ds) × All (ReadFrom b c f s) us)
          → (ts : List Task)
          → elim first [
            | none ↦ none
            | some t ↦ elim rest [ none ↦ none | some us ↦ some (t ∷ us) ]
          ]
            ≡ some ts
          → (length ts ≡ suc (length ds)) × All (ReadFrom b c f s) ts
      go none rest e k ts h = ground arith
      go (some t) none e k ts h = ground arith
      go (some t) (some us) e k ts h =
          let same : t ∷ us ≡ ts = ground arith in
          let r = k us refl in
          subst (λ vs. (length vs ≡ suc (length ds)) × All (ReadFrom b c f s) vs) same
            (ap suc r.0, ((d, a.0.0, a.0.1, e), r.1))

  page_tasks-IsPage :
      (q : TaskQuery) (s : c.State) (f : Filter) (total : ℕ) (ds : List TaskDoc)
      (r : Option (List Task))
      → All (λ d. (find_doc d.id (c.docs s) ≡ some d) × (matches f d ≡ true)) ds
      → length ds ≤ page_limit q.limit
      → to_tasks b c ds ≡ r
      → IsPage b c q s (ok f) (page_tasks b c total r)
  page_tasks-IsPage q s f total ds none a k e = inr refl
  page_tasks-IsPage q s f total ds (some ts) a k e =
      let (same, read) = to_tasks-ReadFrom f s ds ts a e in
      (omega arith, omega (arith, page_limit-le q.limit), read)

  page-IsPage :
      (q : TaskQuery) (s : c.State) (f : Filter) (total : ℕ) (r : Reply (List TaskDoc))
      → FoundReply f (c.docs s) (some (page_limit q.limit)) r
      → IsPage b c q s (ok f) (page b c total r)
  page-IsPage q s f total lost h = inr refl
  page-IsPage q s f total (got ds) (a, distinct_docs, k) =
      page_tasks-IsPage q s f total ds (to_tasks b c ds) a k refl

  counted-IsPage :
      (h : IsTasks c) (q : TaskQuery) (s : c.State) (f : Result Filter) (n : Reply ℕ)
      → IsPage b c q s f (counted b c q s f n)
  counted-IsPage h q s f lost = inr refl
  counted-IsPage h q s (err e) (got total) = inl refl
  counted-IsPage h q s (ok f) (got total) =
      page-IsPage q s f total (c.find f descending (some (page_limit q.limit)) s)
        (h.finds f descending (some (page_limit q.limit)) s)

-- ListTasks, on a collection that behaves as documented: a page has at most 200 tasks, and at most
-- the limit, each read from a document that is there and that the query and the cursor admit; an
-- error is that of a cursor that is no id, or no error of the store's own.
pub list_tasks-IsPage :
    (b : Bson) (c : Tasks) (h : IsTasks c) (q : TaskQuery) (later : c.State → c.State) (s : c.State)
    → IsPage b c q (later s) (page_filter b c q) (list_tasks b c q later s)
unfolding list_tasks
list_tasks-IsPage b c h q later s =
    counted-IsPage b c h q (later s) (page_filter b c q) (c.count_documents (query_filter q) s)
