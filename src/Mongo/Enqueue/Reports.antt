-- ===== src/Mongo/Enqueue/Reports.antt =====
-- What Enqueue of mongostore returns: the loop over the chunks ends, and the ids and the failures are
-- those that the replies ask for.
use gotasks.Task.{other, Task}
use gotasks.Prelude.Text.{Text}
use gotasks.Prelude.{
  Bool-cases, inr, inl, ◌&&◌, ap, ◌∙◌, false, Bool, ◌∷◌, true, if◌then◌else◌, none, refl, ℕ, ◌==◌,
  suc, [], length, Option, arith, ◌≡◌, sym, some, List, ◌≤◌, ◌<◌,
}
use gotasks.Mongo.Enqueue.{
  sent_result, enqueue_built, enqueue_result, is_duplicate, enqueue, Cause, duplicate_task, single,
  EnqueueFailure, failed_result, stored, partly, insert_failed, refused, Enqueued, build_docs,
}
use mathlib.Core.Path.{subst}
use gotasks.Mongo.Enqueue.Ids.{
  get_elem?, reported, blanked, get-blanked, length-blanked, send_chunks-Sent, spelled-build_docs,
  drawn_ids, spelled,
}
use gotasks.Mongo.Enqueue.Fates.{cause_at, doc_at, fate, Stores}
use gotasks.Mongo.Enqueue.Chunks.{send_chunks-Fated}
use gotasks.Mongo.Docs.{Bson, ObjectId, TaskDoc}
use gotasks.Mongo.Driver.{Tasks, IsTasks, find_doc}

abbrev pub unless : Option Cause → Option Text → Option Text
unless none id = id
unless (some cause) id = some []

unless-reported :
    (fs : List EnqueueFailure) (i : ℕ) (id : Option Text)
    → (if reported fs i then some [] else id) ≡ unless (cause_at fs i) id
unless-reported [] i id = refl
unless-reported (f ∷ fs) i id = elim (Bool-cases (f.index == i)) [
  | inl hit ↦ rw hit refl
  | inr miss ↦ rw miss (unless-reported fs i id)
]

-- What the call reports, by what the replies say of each document and the ids that were drawn.
abbrev pub Reports : Bool → (ℕ → Option Cause) → List Text → Enqueued → Type 0
Reports lone fates drawn (stored ids) =
    (ids ≡ drawn) × ((i : ℕ) → i < length drawn → fates i ≡ none)
Reports lone fates drawn (partly ids fs) =
    (length ids ≡ length drawn)
    × ((i : ℕ)
        → i < length drawn
        → (cause_at fs i ≡ fates i) × (get_elem? ids i ≡ unless (fates i) (get_elem? drawn i)))
    × ((i : ℕ) → length drawn ≤ i → cause_at fs i ≡ none)
    × (lone ≡ true → fates 0 ≡ some insert_failed)
Reports lone fates drawn (refused e) = (lone ≡ true) × (fates 0 ≡ some duplicate_task)

-- The failures are those that the replies tell of.
abbrev Told : ℕ → (ℕ → Option Cause) → List EnqueueFailure → Type 0
Told n fates fs =
    ((i : ℕ) → i < n → cause_at fs i ≡ fates i) × ((i : ℕ) → n ≤ i → cause_at fs i ≡ none)

first_failure :
    (fates : ℕ → Option Cause) (f : EnqueueFailure) (fs : List EnqueueFailure)
    → Told 1 fates (f ∷ fs)
    → fates 0 ≡ some f.cause
first_failure fates f fs told = elim (Bool-cases (f.index == 0)) [
  | inl hit ↦ sym (told.0 0 (omega arith)) ∙ rw hit refl
  | inr miss ↦
      let itself : (f.index == f.index) ≡ true = ground arith in
      let behind : cause_at (f ∷ fs) f.index ≡ none = told.1 f.index (ground arith) in
      let no : ⊥ = ground (arith, rw itself at behind) in elim no [ ]
]

module _ (b : Bson) (c : Tasks) where
  failed_result-Reports :
      (ts : List Task) (s : c.State) (fates : ℕ → Option Cause) (drawn ids : List Text)
      (f : EnqueueFailure) (fs : List EnqueueFailure)
      → (single b c ts ≡ true → length drawn ≡ 1)
      → ids ≡ blanked drawn (f ∷ fs)
      → Told (length drawn) fates (f ∷ fs)
      → Reports (single b c ts) fates drawn (failed_result b c ts s ids f fs)
  failed_result-Reports ts s fates drawn ids f fs alone h told =
      elim (Bool-cases (single b c ts && is_duplicate b c f.cause)) [
        | inl conflict ↦ rw conflict (
            let own : single b c ts ≡ true = ground arith in
            (own, only own ∙ ap some (duplicates f.cause (ground arith))))
        | inr shared ↦ rw shared (
          ap length h ∙ length-blanked (f ∷ fs) drawn,
          λ i k. (told.0 i k, blank_at (f ∷ fs) h i k (told.0 i k)),
          told.1,
          λ own. only own ∙ ap some (others f.cause (ground arith)),
        )
      ]
    where
      only : single b c ts ≡ true → fates 0 ≡ some f.cause
      only own = first_failure fates f fs (subst (λ n. Told n fates (f ∷ fs)) (alone own) told)

      duplicates : (x : Cause) → is_duplicate b c x ≡ true → x ≡ duplicate_task
      duplicates duplicate_task e = refl
      duplicates insert_failed e = ground arith

      others : (x : Cause) → is_duplicate b c x ≡ false → x ≡ insert_failed
      others duplicate_task e = ground arith
      others insert_failed e = refl

      blank_at :
          (gs : List EnqueueFailure)
          → ids ≡ blanked drawn gs
          → (i : ℕ) → i < length drawn
          → cause_at gs i ≡ fates i
          → get_elem? ids i ≡ unless (fates i) (get_elem? drawn i)
      blank_at gs e i k same =
          ap (λ xs. get_elem? xs i) e
          ∙ get-blanked gs drawn i k
          ∙ unless-reported gs i (get_elem? drawn i)
          ∙ ap (λ x. unless x (get_elem? drawn i)) same

  enqueue_result-Reports :
      (ts : List Task) (s : c.State) (fates : ℕ → Option Cause) (drawn ids : List Text)
      (fs : List EnqueueFailure)
      → (single b c ts ≡ true → length drawn ≡ 1)
      → ids ≡ blanked drawn fs
      → Told (length drawn) fates fs
      → Reports (single b c ts) fates drawn (enqueue_result b c ts s ids fs)
  enqueue_result-Reports ts s fates drawn ids [] alone h told = (h, λ i k. sym (told.0 i k))
  enqueue_result-Reports ts s fates drawn ids (f ∷ fs) alone h told =
      failed_result-Reports ts s fates drawn ids f fs alone h told

  length-spelled : (ds : List TaskDoc) → length (spelled b c ds) ≡ length ds
  length-spelled [] = refl
  length-spelled (d ∷ ds) = ap suc (length-spelled ds)

  drawn_alone :
      (fresh : ℕ → ObjectId) (ts : List Task)
      → single b c ts ≡ true
      → length (drawn_ids b c fresh 0 ts) ≡ 1
  drawn_alone fresh [] h = ground (arith, h)
  drawn_alone fresh (t ∷ []) h = refl
  drawn_alone fresh (t ∷ u ∷ ts) h = ground (arith, h)

  -- The call has returned: with an error if a payload does not convert, else with what it should
  -- report, and what the replies let through is stored.
  abbrev pub Returned :
      (chunk : ℕ)
      → Bool
      → Option (List TaskDoc)
      → List Text
      → c.State
      → Option (c.State × Enqueued)
      → Type 0
  Returned chunk lone none drawn s r = r ≡ some (s, refused other)
  Returned chunk lone (some ds) drawn s r =
      (x : c.State × Enqueued) × (r ≡ some x)
      × Reports lone (fate c (length ds) chunk ds s) drawn x.1
      × ((i : ℕ) (d : TaskDoc)
          → doc_at ds i ≡ some d
          → fate c (length ds) chunk ds s i ≡ none
          → find_doc d.id (c.docs x.0) ≡ some d)

  module _ (h : IsTasks c)
      (stores : (ds : List TaskDoc) (s : c.State) → Stores c ds (c.insert_many ds s)) where
    built-Returned :
        (chunk : ℕ) (fresh : ℕ → ObjectId) (ts : List Task) (s : c.State)
        (built : Option (List TaskDoc))
        → 1 ≤ chunk
        → build_docs b c fresh 0 ts ≡ built
        → Returned chunk
            (single b c ts)
            built
            (drawn_ids b c fresh 0 ts)
            s
            (enqueue_built b c chunk ts s built)
    built-Returned chunk fresh ts s none positive e = refl
    built-Returned chunk fresh ts s (some ds) positive e =
        let drawn : spelled b c ds ≡ drawn_ids b c fresh 0 ts =
          spelled-build_docs b c fresh 0 ts ds e in
        let size : length (drawn_ids b c fresh 0 ts) ≡ length ds =
          sym (ap length drawn) ∙ length-spelled ds in
        let (x, sent, a) =
          send_chunks-Sent b c (spelled b c ds) (length ds) chunk 0 ds
            (record { ids = spelled b c ds; failures = [] }) s positive (omega arith) refl in
        let r =
          send_chunks-Fated b c h stores (length ds) chunk 0 ds
            (record { ids = spelled b c ds; failures = [] }) s x positive (omega arith)
            (λ k l. refl) sent in
        (
          (x.0, enqueue_result b c ts x.0 x.1.ids x.1.failures),
          ap (sent_result b c ts) sent,
          enqueue_result-Reports ts x.0 (fate c (length ds) chunk ds s) (drawn_ids b c fresh 0 ts)
              x.1.ids x.1.failures (drawn_alone fresh ts)
              (a ∙ ap (λ ids. blanked ids x.1.failures) drawn)
              (
                λ i k.
                    ap (cause_at x.1.failures) (omega arith) ∙ r.fates i (omega (arith, k, size)),
                λ i k. r.behind i (omega (arith, k, size)),
              ),
          r.stored,
        )

-- Enqueue of mongostore returns, whatever the server replies, for every chunk size from one up, where
-- an answered InsertMany names as errors only documents that it was given, has stored the others and
-- removes none. It refuses payloads that do not convert. Otherwise the failures that it reports, by their
-- place in the call, are those that the replies tell of, with their causes: what the reply to its
-- chunk says of a document, and a failed insert for all documents from a hard error on. The ids are
-- blank at exactly these entries and as drawn at the others, all of them if there is no failure. A lone
-- task is refused exactly if it is a duplicate. Every document that no reply fails is stored.
pub enqueue-Returned :
    (b : Bson) (c : Tasks)
    → IsTasks c
    → ((ds : List TaskDoc) (s : c.State) → Stores c ds (c.insert_many ds s))
    → (chunk : ℕ) (fresh : ℕ → ObjectId) (ts : List Task) (s : c.State) → 1 ≤ chunk
    → Returned b c chunk
        (single b c ts)
        (build_docs b c fresh 0 ts)
        (drawn_ids b c fresh 0 ts)
        s
        (enqueue b c chunk fresh ts s)
unfolding enqueue build_docs fate
enqueue-Returned b c h stores chunk fresh [] s positive =
    ((s, stored []), refl, (refl, λ i k. refl), λ i d own free. absurd (ground (arith, own)))
enqueue-Returned b c h stores chunk fresh (t ∷ ts) s positive =
    built-Returned b c h stores chunk fresh (t ∷ ts) s (build_docs b c fresh 0 (t ∷ ts)) positive
      refl
