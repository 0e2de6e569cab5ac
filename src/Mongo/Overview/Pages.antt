-- ===== src/Mongo/Overview/Pages.antt =====
-- The pages of the registered queues, in the order of their names.
use gotasks.Prelude.Int.{ℤ}
use gotasks.Mongo.Listing.{page_limit}
use gotasks.Prelude.{
  sym, ◌∙◌, ◌⊎◌, ◌++◌, true, ap, Bool-cases, refl, ◌≤◌, false, arith, ℕ, Pairwise, inr, inl, ◌≡◌,
  [], map, All, length, if◌then◌else◌, ◌∷◌, List,
}
use gotasks.Mongo.Driver.{got, lost}
use gotasks.Mongo.Overview.{QueueOverview, last_name, QueueReads, QueueOverview, last_name}
use gotasks.Mongo.Registry.{QueueDoc}
use mathlib.Core.Path.{subst}
use mathlib.Core.List.{append_assoc}
use gotasks.Prelude.{take, All-second}
use gotasks.Prelude.Text.{text_lt, text_lt_trans, text_eq, text_lt_irrefl, Text}

-- The documents after a name; after the empty one, all.
abbrev pub beyond : Text → List QueueDoc → List QueueDoc
beyond a [] = []
beyond a (d ∷ ds) = let rest = beyond a ds in if text_lt a d.name then d ∷ rest else rest

abbrev pub after_name : Text → List QueueDoc → List QueueDoc
after_name [] ds = ds
after_name (x ∷ xs) ds = beyond (x ∷ xs) ds

-- Names in order, none of them empty, and pages of the documents after a name.
pub record IsQueueReads (q : QueueReads) (ds : List QueueDoc) : Type 0 where
  pub ordered : Pairwise (λ d e. text_lt d.name e.name ≡ true) ds
  pub named : All (λ d. text_eq d.name [] ≡ false) ds
  pub pages :
      (after : Text) (limit : ℕ)
      → (q.find_page after limit ≡ lost)
        ⊎ (q.find_page after limit ≡ got (take limit (after_name after ds)))

abbrev pub names : List QueueOverview → List Text
names = map (λ r. r.name)

abbrev pub names_of_docs : List QueueDoc → List Text
names_of_docs = map (λ d. d.name)

text_lt_asym : (a b : Text) → text_lt a b ≡ true → text_lt b a ≡ false
text_lt_asym a b h = elim (Bool-cases (text_lt b a)) [
  | inr no_way ↦ no_way
  | inl back ↦ absurd (ground (arith, text_lt_trans a b a h back, text_lt_irrefl a))
]

beyond-All :
    (a : Text) (ds : List QueueDoc) → All (λ d. text_lt a d.name ≡ true) ds → beyond a ds ≡ ds
beyond-All a [] h = refl
beyond-All a (d ∷ ds) h = rw h.0 (ap (λ es. d ∷ es) (beyond-All a ds h.1))

-- After the name of a document stand those that follow it.
beyond-last :
    (xs : List QueueDoc) (d : QueueDoc) (ys : List QueueDoc)
    → Pairwise (λ d e. text_lt d.name e.name ≡ true) (xs ++ d ∷ ys)
    → beyond d.name (xs ++ d ∷ ys) ≡ ys
beyond-last [] d ys h = rw (text_lt_irrefl d.name) (beyond-All d.name ys h.0)
beyond-last (x ∷ xs) d ys h =
    let first : text_lt x.name d.name ≡ true =
      (All-second (λ e. text_lt x.name e.name ≡ true) xs (d ∷ ys) h.0).0 in
    rw (text_lt_asym x.name d.name first) (beyond-last xs d ys h.1)

-- A page that has documents, with its last one apart.
page-last :
    (d : QueueDoc) (ds : List QueueDoc)
    → (xs : List QueueDoc) × (e : QueueDoc) × (d ∷ ds ≡ xs ++ e ∷ [])
      × (last_name (d ∷ ds) ≡ e.name)
page-last d [] = ([], d, refl, refl)
page-last d (f ∷ ds) =
    let (xs, e, split, same) = page-last f ds in (d ∷ xs, e, ap (λ es. d ∷ es) split, same)

append_last :
    (xs : List QueueDoc) (d : QueueDoc) (ys : List QueueDoc) → (xs ++ d ∷ []) ++ ys ≡ xs ++ d ∷ ys
append_last xs d ys = append_assoc xs (d ∷ []) ys

after-beyond :
    (a : Text) (ds : List QueueDoc) → text_eq a [] ≡ false → after_name a ds ≡ beyond a ds
after-beyond [] ds k = absurd (unfold text_eq in ground arith)
after-beyond (x ∷ xs) ds k = refl

-- After a document stand those that follow it.
after_document :
    (ds xs : List QueueDoc) (d : QueueDoc) (ys : List QueueDoc)
    → ds ≡ xs ++ d ∷ ys
    → Pairwise (λ d e. text_lt d.name e.name ≡ true) ds
    → All (λ d. text_eq d.name [] ≡ false) ds
    → (text_eq d.name [] ≡ false) × (after_name d.name ds ≡ ys)
after_document ds xs d ys e o n =
    let named : text_eq d.name [] ≡ false =
      (All-second (λ x. text_eq x.name [] ≡ false) xs (d ∷ ys)
        (subst (All (λ x. text_eq x.name [] ≡ false)) e n)).0 in
    (
      named,
      after-beyond d.name ds named
          ∙ ap (beyond d.name) e
          ∙ beyond-last xs d ys (subst (Pairwise (λ d e. text_lt d.name e.name ≡ true)) e o),
    )

-- After the last one of a page stand those that the page left.
pub after_page :
    (ds pre page rest : List QueueDoc)
    → ds ≡ pre ++ (page ++ rest)
    → 1 ≤ length page
    → Pairwise (λ d e. text_lt d.name e.name ≡ true) ds
    → All (λ d. text_eq d.name [] ≡ false) ds
    → (text_eq (last_name page) [] ≡ false) × (after_name (last_name page) ds ≡ rest)
after_page ds pre [] rest e k o n = absurd (omega (arith, k))
after_page ds pre (p ∷ ps) rest e k o n =
    let (xs, d, split, same) = page-last p ps in
    let apart : ds ≡ (pre ++ xs) ++ d ∷ rest =
      e
      ∙ ap (λ page. pre ++ (page ++ rest)) split
      ∙ ap (λ zs. pre ++ zs) (append_last xs d rest)
      ∙ sym (append_assoc pre xs (d ∷ rest)) in
    subst (λ name. (text_eq name [] ≡ false) × (after_name name ds ≡ rest)) (sym same)
      (after_document ds (pre ++ xs) d rest apart o n)

pub page_limit_pos : (limit : ℤ) → 1 ≤ page_limit limit
unfolding page_limit
page_limit_pos limit = ground arith
