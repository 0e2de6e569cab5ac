-- ===== src/Mongo/Driver.antt =====
-- The commands of the MongoDB driver that mongostore gives to its tasks collection, as parameters,
-- and what is documented of them. Where a command fails, the server may have carried it out or not,
-- for each document.
use gotasks.Prelude.Int.{eqb_ℤ}
use mathlib.Core.List.{Memᴰ}
use gotasks.Task.{before}
use gotasks.Prelude.{
  ltb, ◌||◌, ◌&&◌, Pairwise, map, count_if, false, [], List, ℕ, ◌≤◌, Option, ◌∷◌, some, true, none,
  length, ◌⊎◌, ◌==◌, All, ◌≡◌, Bool, if◌then◌else◌,
}
use gotasks.Mongo.Query.{matches, Update, updated, Filter}
use gotasks.Mongo.Docs.{ObjectId, TaskDoc}

pub data Reply {ℓ} (A : Type ℓ) : Type ℓ where
  got : A → Reply A
  lost : Reply A

-- BulkWriteException with its write errors, each with the index of its document and whether its
-- code is 11000 (duplicate key), or any other error.
pub record WriteError : Type 0 where
  pub index : ℕ
  pub duplicate_key : Bool

pub data Inserted : Type 0 where
  all_inserted hard_error : Inserted
  write_errors : WriteError → List WriteError → Inserted

-- `by_run_at` is claimSort, `earliest_due` by run_at alone.
pub data Sorting : Type 0 where
  natural by_run_at ascending descending earliest_due : Sorting

pub record Counts : Type 0 where
  pub matched : ℕ
  pub modified : ℕ

pub record Tasks : Type 1 where
  pub State : Type 0
  -- The documents that a majority read sees.
  pub docs : State → List TaskDoc
  -- Unordered.
  pub insert_many : List TaskDoc → State → State × Inserted
  -- The document is returned as it is after the update.
  pub find_one_and_update : Filter → Update → Sorting → State → State × Reply (Option TaskDoc)
  pub update_one : Filter → Update → State → State × Reply Counts
  pub update_many : Filter → Update → State → State × Reply Counts
  -- Unordered; the count is that of the updates that matched.
  pub bulk_write : List (Filter × Update) → State → State × Reply ℕ
  -- With a limit, if there is one.
  pub find : Filter → Sorting → Option ℕ → State → Reply (List TaskDoc)
  pub find_one : Filter → Sorting → State → Reply (Option TaskDoc)
  pub count_documents : Filter → State → Reply ℕ
  pub delete_one : Filter → State → State × Reply ℕ

unfoldable pub find_doc : ObjectId → List TaskDoc → Option TaskDoc
find_doc id [] = none
find_doc id (d ∷ ds) = if d.id == id then some d else find_doc id ds

unfoldable pub put_doc : TaskDoc → List TaskDoc → List TaskDoc
put_doc c [] = []
put_doc c (d ∷ ds) = if d.id == c.id then c ∷ ds else d ∷ put_doc c ds

-- One matching document is updated, and no other; or none matches, and nothing changes.
abbrev pub Unmatched : Filter → List TaskDoc → Type 0
Unmatched f ds = All (λ d. matches f d ≡ false) ds

pub record OneUpdated (f : Filter) (u : Update) (before after : List TaskDoc) (d : TaskDoc)
    : Type 0 where
  pub found : find_doc d.id before ≡ some d
  pub matching : matches f d ≡ true
  pub written : after ≡ put_doc (updated u d) before

abbrev pub update_where : Filter → Update → TaskDoc → TaskDoc
update_where f u d = if matches f d then updated u d else d

-- A write to a document is atomic: where the reply is lost, each document is as it was or updated.
abbrev pub SomeUpdated : Filter → Update → List TaskDoc → List TaskDoc → Type 0
SomeUpdated f u ds ds' =
    (reached : TaskDoc → Bool) × (ds' ≡ map (λ d. if reached d then update_where f u d else d) ds)

-- The order of claimSort.
unfoldable pub doc_earlier : TaskDoc → TaskDoc → Bool
doc_earlier c d = before c.run_at d.run_at || (eqb_ℤ c.run_at d.run_at && ltb c.id d.id)

-- With a sort, no matching document comes before the one that is taken.
abbrev pub Leads : Sorting → Filter → List TaskDoc → TaskDoc → Type 0
Leads by_run_at f ds d = All (λ c. matches f c ≡ true → doc_earlier c d ≡ false) ds
Leads _ f ds d = Unit

abbrev pub OneReply :
    Filter → Update → Sorting → List TaskDoc → List TaskDoc → Reply (Option TaskDoc) → Type 0
OneReply f u o ds ds' lost = SomeUpdated f u ds ds'
OneReply f u o ds ds' (got none) = Unmatched f ds × (ds' ≡ ds)
OneReply f u o ds ds' (got (some d')) =
    (d : TaskDoc) × OneUpdated f u ds ds' d × Leads o f ds d × (d' ≡ updated u d)

abbrev pub CountReply : Filter → Update → List TaskDoc → List TaskDoc → Reply Counts → Type 0
CountReply f u ds ds' lost = SomeUpdated f u ds ds'
CountReply f u ds ds' (got n) =
    (Unmatched f ds × (ds' ≡ ds) × (n.matched ≡ 0))
    ⊎ ((d : TaskDoc) × OneUpdated f u ds ds' d × (n.matched ≡ 1))

abbrev pub ManyReply : Filter → Update → List TaskDoc → List TaskDoc → Reply Counts → Type 0
ManyReply f u ds ds' lost = SomeUpdated f u ds ds'
ManyReply f u ds ds' (got n) =
    (ds' ≡ map (update_where f u) ds)
    × (n.matched ≡ count_if (matches f) ds)
    × (n.modified ≤ n.matched)
    × (n.modified ≡ 0 → ds' ≡ ds)

-- Updates of a bulk write, in some order, some of which may not be carried out.
pub data Carried (ms : List (Filter × Update)) : List TaskDoc → List TaskDoc → Type 0 where
  finished : (ds : List TaskDoc) → Carried ms ds ds
  next :
      {ds ds' : List TaskDoc} (d : TaskDoc) (m : Filter × Update) (mid : List TaskDoc)
      → Memᴰ m ms
      → OneUpdated m.0 m.1 ds mid d
      → Carried ms mid ds'
      → Carried ms ds ds'

abbrev pub DistinctDocs : List TaskDoc → Type 0
DistinctDocs = Pairwise (λ c d. (c.id == d.id) ≡ false)

abbrev pub Within : Option ℕ → List TaskDoc → Type 0
Within none xs = Unit
Within (some k) xs = length xs ≤ k

-- A found list has matching documents only, and no document twice.
abbrev pub FoundReply : Filter → List TaskDoc → Option ℕ → Reply (List TaskDoc) → Type 0
FoundReply f ds limit lost = Unit
FoundReply f ds limit (got xs) =
    All (λ d. (find_doc d.id ds ≡ some d) × (matches f d ≡ true)) xs
    × DistinctDocs xs
    × Within limit xs

-- The documented behaviour, on a collection whose _id index is unique.
pub record IsTasks (c : Tasks) : Type 0 where
  pub distinct : (s : c.State) → DistinctDocs (c.docs s)
  pub finds_and_updates :
      (f : Filter) (u : Update) (o : Sorting) (s : c.State)
      → OneReply f u o
          (c.docs s)
          (c.docs (c.find_one_and_update f u o s).0)
          (c.find_one_and_update f u o s).1
  pub updates_one :
      (f : Filter) (u : Update) (s : c.State)
      → CountReply f u (c.docs s) (c.docs (c.update_one f u s).0) (c.update_one f u s).1
  pub updates_many :
      (f : Filter) (u : Update) (s : c.State)
      → ManyReply f u (c.docs s) (c.docs (c.update_many f u s).0) (c.update_many f u s).1
  pub inserts :
      (ds : List TaskDoc) (s : c.State) (id : ObjectId) (d : TaskDoc)
      → find_doc id (c.docs s) ≡ some d
      → find_doc id (c.docs (c.insert_many ds s).0) ≡ some d
  pub deletes :
      (f : Filter) (s : c.State) (id : ObjectId) (d : TaskDoc)
      → find_doc id (c.docs s) ≡ some d
      → matches f d ≡ false
      → find_doc id (c.docs (c.delete_one f s).0) ≡ some d
  pub writes_bulk :
      (ms : List (Filter × Update)) (s : c.State)
      → Carried ms (c.docs s) (c.docs (c.bulk_write ms s).0)
  pub finds :
      (f : Filter) (o : Sorting) (limit : Option ℕ) (s : c.State)
      → FoundReply f (c.docs s) limit (c.find f o limit s)
