-- ===== src/Mongo/Life/Commands.antt =====
-- A command with an update that is a step of the machine takes every document through steps.
use gotasks.Mongo.Driver.{Reply}
use gotasks.Mongo.Life.{Evolved-refl, Evolved-trans}
use gotasks.Mongo.Life.{Evolved}
use gotasks.Prelude.{
  All-Memᴰ, none, Option, All, ◌≡◌, sym, inr, List, false, inl, Bool-cases, map, some, ◌∷◌, ◌==◌,
  if◌then◌else◌, true, refl, ==_iff, ◌∙◌, [], arith, ap, Bool,
}
use gotasks.Mongo.Query.{matches, updated, Update, Filter}
use gotasks.Mongo.Life.{IsMove, core_of_doc}
use gotasks.Mongo.Driver.{
  got, CountReply, OneReply, Counts, ManyReply, Carried, lost, SomeUpdated, Sorting, update_where,
  OneUpdated, find_doc, put_doc,
}
use gotasks.Mongo.Docs.{TaskDoc, ObjectId}
use gotasks.Life.{Reaches, here}
use gotasks.Mongo.Driver.{finished, next}
use mathlib.Core.Path.{subst}

find-put_doc :
    (id : ObjectId) (c : TaskDoc) (ds : List TaskDoc) (d : TaskDoc)
    → find_doc c.id ds ≡ some d
    → find_doc id (put_doc c ds) ≡ (if c.id == id then some c else find_doc id ds)
unfolding find_doc put_doc
find-put_doc id c [] d h = ground arith
find-put_doc id c (x ∷ xs) d h = ground (arith, find-put_doc id c xs d)

pub find_doc-id :
    (id : ObjectId) (ds : List TaskDoc) (d : TaskDoc) → find_doc id ds ≡ some d → d.id ≡ id
unfolding find_doc
find_doc-id id [] d h = ground arith
find_doc-id id (x ∷ xs) d h = ground (arith, find_doc-id id xs d)

find-map_doc :
    (f : TaskDoc → TaskDoc) (id : ObjectId) (ds : List TaskDoc) (d : TaskDoc)
    → ((d : TaskDoc) → (f d).id ≡ d.id)
    → find_doc id ds ≡ some d
    → find_doc id (map f ds) ≡ some (f d)
unfolding find_doc
find-map_doc f id [] d k h = ground arith
find-map_doc f id (x ∷ xs) d k h = ground (arith, k x, find-map_doc f id xs d k)

pub one-Evolved :
    (f : Filter) (u : Update) (ds es : List TaskDoc) (d : TaskDoc)
    → IsMove f u
    → OneUpdated f u ds es d
    → Evolved ds es
one-Evolved f u ds es d m o id x h = elim (Bool-cases (d.id == id)) [
  | inl hit ↦
      let same : some d ≡ some x =
        sym o.found ∙ ap (λ i. find_doc i ds) ((==_iff d.id id).0 hit) ∙ h in
      let e : d ≡ x = ground arith in
      (
        updated u d,
        ap (find_doc id) o.written
            ∙ find-put_doc id (updated u d) ds d own
            ∙ rw (m.same_id d) (rw hit refl),
        subst (λ y. Reaches (core_of_doc y) (core_of_doc (updated u d))) e (m.moves d o.matching),
      )
  | inr miss ↦ (
    x,
    ap (find_doc id) o.written
        ∙ find-put_doc id (updated u d) ds d own
        ∙ rw (m.same_id d) (rw miss h),
    here (core_of_doc x),
  )
]
  where
    own : find_doc (updated u d).id ds ≡ some d
    own = ap (λ i. find_doc i ds) (m.same_id d) ∙ o.found

where-moves :
    (f : Filter) (u : Update) (m : IsMove f u) (d : TaskDoc)
    → Reaches (core_of_doc d) (core_of_doc (update_where f u d))
where-moves f u m d = elim (Bool-cases (matches f d)) [
  | inl hit ↦ rw hit (m.moves d hit)
  | inr miss ↦ rw miss (here (core_of_doc d))
]

where-same_id :
    (f : Filter) (u : Update) (m : IsMove f u) (d : TaskDoc) → (update_where f u d).id ≡ d.id
where-same_id f u m d = elim (Bool-cases (matches f d)) [
  | inl hit ↦ rw hit (m.same_id d)
  | inr miss ↦ rw miss refl
]

-- Of an update of some documents, chosen in any way.
pub chosen-Evolved :
    (f : Filter) (u : Update) (reached : TaskDoc → Bool) (ds : List TaskDoc)
    → IsMove f u
    → Evolved ds (map (λ d. if reached d then update_where f u d else d) ds)
chosen-Evolved f u reached ds m id d h = (
  at_most (reached d),
  find-map_doc (λ x. if reached x then update_where f u x else x) id ds d (λ x. kept x (reached x))
      h,
  evolved (reached d),
)
  where
    at_most : Bool → TaskDoc
    at_most c = if c then update_where f u d else d

    kept : (x : TaskDoc) (c : Bool) → (if c then update_where f u x else x).id ≡ x.id
    kept x true = where-same_id f u m x
    kept x false = refl

    evolved :
        (c : Bool) → Reaches (core_of_doc d) (core_of_doc (if c then update_where f u d else d))
    evolved true = where-moves f u m d
    evolved false = here (core_of_doc d)

pub some-Evolved :
    (f : Filter) (u : Update) (ds es : List TaskDoc)
    → IsMove f u
    → SomeUpdated f u ds es
    → Evolved ds es
some-Evolved f u ds es m (reached, e) = rw e (chosen-Evolved f u reached ds m)

same-Evolved : (ds es : List TaskDoc) → es ≡ ds → Evolved ds es
same-Evolved ds es e = rw e (Evolved-refl ds)

pub found_one-Evolved :
    (f : Filter) (u : Update) (o : Sorting) (ds es : List TaskDoc) (r : Reply (Option TaskDoc))
    → IsMove f u
    → OneReply f u o ds es r
    → Evolved ds es
found_one-Evolved f u o ds es lost m h = some-Evolved f u ds es m h
found_one-Evolved f u o ds es (got none) m h = same-Evolved ds es h.1
found_one-Evolved f u o ds es (got (some d')) m (d, h, _, _) = one-Evolved f u ds es d m h

pub counted-Evolved :
    (f : Filter) (u : Update) (ds es : List TaskDoc) (r : Reply Counts)
    → IsMove f u
    → CountReply f u ds es r
    → Evolved ds es
counted-Evolved f u ds es lost m h = some-Evolved f u ds es m h
counted-Evolved f u ds es (got n) m (inl (_, same, _)) = same-Evolved ds es same
counted-Evolved f u ds es (got n) m (inr (d, h, _)) = one-Evolved f u ds es d m h

pub many-Evolved :
    (f : Filter) (u : Update) (ds es : List TaskDoc) (r : Reply Counts)
    → IsMove f u
    → ManyReply f u ds es r
    → Evolved ds es
many-Evolved f u ds es lost m h = some-Evolved f u ds es m h
many-Evolved f u ds es (got n) m (e, _, _, _) = rw e (chosen-Evolved f u (λ _. true) ds m)

pub Carried-Evolved :
    (ms : List (Filter × Update)) (ds es : List TaskDoc)
    → All (λ m. IsMove m.0 m.1) ms
    → Carried ms ds es
    → Evolved ds es
Carried-Evolved ms ds es h (finished _) = Evolved-refl ds
Carried-Evolved ms ds es h (next d m mid own o rest) =
    Evolved-trans ds mid es (one-Evolved m.0 m.1 ds mid d (All-Memᴰ _ ms m h own) o)
      (Carried-Evolved ms mid es h rest)
