-- ===== src/Mongo/Overview/Walk.antt =====
-- Walking the pages of Overview.
use gotasks.Task.{Result, err, QueuePolicy, ok, Time}
use gotasks.Mongo.Docs.{TaskDoc}
use gotasks.Prelude.Int.{ℤ}
use gotasks.Mongo.Listing.{page_limit}
use gotasks.Prelude.{
  length-append, ◌+◌, ◌==◌, Option, sym, ◌∙◌, ◌⊎◌, ◌++◌, true, ap, Bool-cases, suc, refl, ◌≤◌,
  false, arith, ℕ, Pairwise, inr, drop, inl, ◌≡◌, [], map, All, length, zero, ◌∷◌, List,
}
use gotasks.Mongo.Driver.{got, lost, Reply, Tasks}
use gotasks.Mongo.Overview.{
  row_of, overview_rows, View, QueueOverview, walked, failed_page, unfinished, prepend, QueueReads,
  QueueOverview, View, Walked, walked, failed_page, unfinished, walk, walk_on, prepend, overview,
  overview_rows, viewed_row, add_row, next_name, overview_page, overview_counted, overview_row,
  row_of,
}
use gotasks.Mongo.Registry.{to_policy, QueueDoc}
use mathlib.Core.Path.{subst, ap₂}
use mathlib.Core.List.{append_assoc}
use gotasks.Prelude.{take, drop, take-drop, take-short}
use gotasks.Prelude.Text.{text_lt, text_eq, Text}
use gotasks.Mongo.Overview.Pages.{
  IsQueueReads, names, names_of_docs, after_name, after_page, page_limit_pos,
}

-- By the end of the walk: all rows of the documents that were left, in their order.
abbrev pub IsWalked : List QueueDoc → Walked → Type 0
IsWalked ds (walked rs) = names rs ≡ names_of_docs ds
IsWalked ds failed_page = Unit
IsWalked ds unfinished = ⊥

map-append {ℓ κ} :
    {A : Type ℓ} {B : Type κ} (f : A → B) (xs ys : List A) → map f (xs ++ ys) ≡ map f xs ++ map f ys
map-append f [] ys = refl
map-append f (x ∷ xs) ys = ap (λ zs. f x ∷ zs) (map-append f xs ys)

prepend-IsWalked :
    (rs : List QueueOverview) (page left : List QueueDoc) (w : Walked)
    → names rs ≡ names_of_docs page
    → IsWalked left w
    → IsWalked (page ++ left) (prepend rs w)
prepend-IsWalked rs page left (walked more) h k =
    map-append (λ r. r.name) rs more
    ∙ ap (λ ns. ns ++ names more) h
    ∙ ap (λ ns. names_of_docs page ++ ns) k
    ∙ sym (map-append (λ d. d.name) page left)
prepend-IsWalked rs page left failed_page h k = tt
prepend-IsWalked rs page left unfinished h k = k

abbrev IsRowOf : Text → Result QueueOverview → Type 0
IsRowOf name (ok r) = r.name ≡ name
IsRowOf name (err e) = Unit

abbrev AreRowsOf : List QueueDoc → Result (List QueueOverview) → Type 0
AreRowsOf ds (ok rs) = names rs ≡ names_of_docs ds
AreRowsOf ds (err e) = Unit

add_row-AreRowsOf :
    (c : Tasks) (d : QueueDoc) (ds : List QueueDoc) (r : Result QueueOverview)
    (rs : Result (List QueueOverview))
    → IsRowOf d.name r
    → AreRowsOf ds rs
    → AreRowsOf (d ∷ ds) (add_row c r rs)
add_row-AreRowsOf c d ds (err e) rs h k = tt
add_row-AreRowsOf c d ds (ok r) (err e) h k = tt
add_row-AreRowsOf c d ds (ok r) (ok rs) h k = ap₂ ◌∷◌ h k

module _ (c : Tasks) where
  row_of-IsRowOf :
      (p : QueuePolicy) (now : Time) (n_pending n_running n_done n_dead : Reply ℕ)
      (o : Reply (Option TaskDoc))
      → IsRowOf p.name (row_of c p now n_pending n_running n_done n_dead o)
  row_of-IsRowOf p now (got _) (got _) (got _) (got _) (got _) = refl
  row_of-IsRowOf p now _ _ _ _ _ = tt

  -- The rows of a page are those of its documents.
  rows-AreRowsOf : (view : View c) (ds : List QueueDoc) → AreRowsOf ds (overview_rows c view ds)
  unfolding overview_rows overview_row to_policy
  rows-AreRowsOf view [] = refl
  rows-AreRowsOf view (d ∷ ds) =
      add_row-AreRowsOf c d ds (viewed_row c view d) (overview_rows c view ds)
        (row_of-IsRowOf (to_policy d) (view d.name).0 _ _ _ _ _) (rows-AreRowsOf view ds)

  -- The next name of a page of the documents that are left: none if the page has all of them, or that
  -- of a last document, after which the others follow.
  next-cases :
      (ds pre left : List QueueDoc) (limit : ℤ)
      → ds ≡ pre ++ left
      → Pairwise (λ d e. text_lt d.name e.name ≡ true) ds
      → All (λ d. text_eq d.name [] ≡ false) ds
      → ((next_name (page_limit limit) (take (page_limit limit) left) ≡ [])
          × (take (page_limit limit) left ≡ left))
        ⊎ ((text_eq (next_name (page_limit limit) (take (page_limit limit) left)) [] ≡ false)
            × (after_name (next_name (page_limit limit) (take (page_limit limit) left)) ds
                ≡ drop (page_limit limit) left)
            × (suc (length (drop (page_limit limit) left)) ≤ length left))
  unfolding next_name
  next-cases ds pre left limit e o n =
      elim (Bool-cases (length (take (page_limit limit) left) == page_limit limit)) [
        | inr short ↦ rw short (inl (refl, take-short (page_limit limit) left short))
        | inl full ↦
            let L = page_limit limit in
            let whole : left ≡ take L left ++ drop L left = take-drop L left in
            let sizes : length left ≡ length (take L left) + length (drop L left) =
              ap length whole ∙ length-append (take L left) (drop L left) in
            let size : 1 ≤ length (take L left) = ground (arith, page_limit_pos limit) in
            let (named, follows) =
              after_page ds pre (take L left) (drop L left) (e ∙ ap (λ zs. pre ++ zs) whole) size o
                n in
            rw full (inr (named, follows, omega arith))
      ]

  -- One page of the walk.
  walk_on-IsWalked :
      (go_on : Text → Walked) (view : View c) (page rest left : List QueueDoc) (total : ℕ)
      (name : Text) (rs : Result (List QueueOverview))
      → AreRowsOf page rs
      → ((name ≡ []) × (page ≡ left))
        ⊎ ((text_eq name [] ≡ false) × (page ++ rest ≡ left) × IsWalked rest (go_on name))
      → IsWalked left (walk_on c go_on (overview_page c name total rs))
  walk_on-IsWalked go_on view page rest left total name (err e) h k = tt
  walk_on-IsWalked go_on view page rest left total [] (ok rs) h (inl (_, e)) =
      h ∙ ap names_of_docs e
  walk_on-IsWalked go_on view page rest left total (x ∷ xs) (ok rs) h (inl (e, _)) =
      absurd (ground arith)
  walk_on-IsWalked go_on view page rest left total [] (ok rs) h (inr (e, _, _)) =
      absurd (unfold text_eq in ground arith)
  walk_on-IsWalked go_on view page rest left total (x ∷ xs) (ok rs) h (inr (_, e, w)) =
      subst (λ ds. IsWalked ds (prepend rs (go_on (x ∷ xs)))) e
        (prepend-IsWalked rs page rest (go_on (x ∷ xs)) h w)

  module _ (q : QueueReads) (ds : List QueueDoc) (h : IsQueueReads q ds) (view : View c)
      (limit : ℤ) where
    -- What the rest of the walk does after a page of the documents that are left.
    abbrev Rest : ℕ → List QueueDoc → Type 0
    Rest n left =
        let name = next_name (page_limit limit) (take (page_limit limit) left) in
        ((name ≡ []) × (take (page_limit limit) left ≡ left))
        ⊎ ((text_eq name [] ≡ false)
            × (take (page_limit limit) left ++ drop (page_limit limit) left ≡ left)
            × IsWalked (drop (page_limit limit) left) (walk c n q view limit name))

    next-left :
        (n : ℕ) (pre left : List QueueDoc)
        → ds ≡ pre ++ left
        → suc (length left) ≤ suc n
        → ((pre left : List QueueDoc) (after : Text)
            → ds ≡ pre ++ left
            → after_name after ds ≡ left
            → suc (length left) ≤ n
            → IsWalked left (walk c n q view limit after))
        → Rest n left
    next-left n pre left e k go_on = elim (next-cases ds pre left limit e h.ordered h.named) [
      | inl last ↦ inl last
      | inr (named, follows, shorter) ↦
          let L = page_limit limit in
          inr (
            named,
            sym (take-drop L left),
            go_on (pre ++ take L left) (drop L left) (next_name L (take L left))
                (e
                  ∙ ap (λ zs. pre ++ zs) (take-drop L left)
                  ∙ sym (append_assoc pre (take L left) (drop L left)))
                follows (omega (arith, k, shorter)),
          )
    ]

    page_counted :
        (n : ℕ) (left : List QueueDoc) (total : Reply ℕ) (find : Reply (List QueueDoc))
        → Rest n left
        → (find ≡ lost) ⊎ (find ≡ got (take (page_limit limit) left))
        → IsWalked left (
            walk_on c
              (λ name. walk c n q view limit name)
              (overview_counted c view find (page_limit limit) total))
    page_counted n left lost find r p = tt
    page_counted n left (got total) find r (inl p) = rw p tt
    page_counted n left (got total) find r (inr p) =
        let L = page_limit limit in
        rw p (
          walk_on-IsWalked (λ name. walk c n q view limit name) view (take L left) (drop L left)
            left total (next_name L (take L left)) (overview_rows c view (take L left))
            (rows-AreRowsOf view (take L left)) r)

    one_page :
        (n : ℕ) (left : List QueueDoc) (after : Text)
        → after_name after ds ≡ left
        → Rest n left
        → IsWalked left (walk c (suc n) q view limit after)
    unfolding walk overview
    one_page n left after a r =
        page_counted n left q.count_documents (q.find_page after (page_limit limit)) r (
          subst
            (λ ds.
              (q.find_page after (page_limit limit) ≡ lost)
              ⊎ (q.find_page after (page_limit limit) ≡ got (take (page_limit limit) ds)))
            a (h.pages after (page_limit limit)))

    -- From a document on: those before it are walked, those that are left are after the name.
    walk_left :
        (n : ℕ) (pre left : List QueueDoc) (after : Text)
        → ds ≡ pre ++ left
        → after_name after ds ≡ left
        → suc (length left) ≤ n
        → IsWalked left (walk c n q view limit after)
    unfolding walk
    walk_left zero pre left after e a k = absurd (omega (arith, k))
    walk_left (suc n) pre left after e a k =
        one_page n left after a
          (next-left n pre left e k (λ pre left name. walk_left n pre left name))

-- If no other process writes to the registry, whose documents have names, each of its own, and which
-- finds a page of those after a name in their order or loses the reply, then the walk over the pages
-- of Overview ends after at most one page more than there are queues, for every limit: it lists each
-- queue once, in the order of the names, unless a command fails.
pub walk-IsWalked :
    (c : Tasks) (q : QueueReads) (ds : List QueueDoc)
    → IsQueueReads q ds
    → (view : View c) (limit : ℤ) → IsWalked ds (walk c (suc (length ds)) q view limit [])
walk-IsWalked c q ds h view limit =
    walk_left c q ds h view limit (suc (length ds)) [] ds [] refl refl (omega arith)
