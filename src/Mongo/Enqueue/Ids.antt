-- ===== src/Mongo/Enqueue/Ids.antt =====
-- The ids that Enqueue of mongostore returns: the loop over the chunks ends, and the ids are the drawn
-- ones, but blank at the entries that it lists.
use gotasks.Task.{Task}
use gotasks.Prelude.Text.{Text}
use gotasks.Prelude.{
  length-drop, ap, ◌∙◌, false, Bool, ◌∷◌, if◌then◌else◌, none, refl, ℕ, ◌+◌, ◌||◌, ◌==◌, take, map,
  ◌++◌, suc, [], zero, length, Option, arith, ◌≡◌, sym, some, List, ◌≤◌, drop,
}
use gotasks.Mongo.Enqueue.{
  Cause, blank, fail_chunk, EnqueueFailure, Progress, fail_entries, after_chunk, insert_failed,
  fail_at, send_chunks, cause_of, build_docs,
}
use gotasks.Mongo.Docs.{new_doc, json_to_raw, Bson, ObjectId, TaskDoc}
use gotasks.Mongo.Driver.{Tasks, Inserted, all_inserted, hard_error, write_errors, WriteError}

abbrev pub get_elem? : List Text → ℕ → Option Text
get_elem? [] i = none
get_elem? (x ∷ xs) zero = some x
get_elem? (x ∷ xs) (suc i) = get_elem? xs i

-- The entry is listed.
abbrev pub reported : List EnqueueFailure → ℕ → Bool
reported [] i = false
reported (f ∷ fs) i = (f.index == i) || reported fs i

abbrev pub blanked : List Text → List EnqueueFailure → List Text
blanked ids [] = ids
blanked ids (f ∷ fs) = blanked (blank f.index ids) fs

-- The ids so far are the drawn ones, less those of the failures so far.
abbrev Aligned : List Text → Progress → Type 0
Aligned drawn p = p.ids ≡ blanked drawn p.failures

length-blank : (i : ℕ) (ids : List Text) → length (blank i ids) ≡ length ids
unfolding blank
length-blank i [] = refl
length-blank zero (x ∷ xs) = refl
length-blank (suc i) (x ∷ xs) = ap suc (length-blank i xs)

get-blank :
    (j : ℕ) (ids : List Text) (i : ℕ)
    → suc i ≤ length ids
    → get_elem? (blank j ids) i ≡ (if j == i then some [] else get_elem? ids i)
unfolding blank
get-blank j [] i h = ground arith
get-blank zero (x ∷ xs) zero h = ground arith
get-blank zero (x ∷ xs) (suc i) h = ground arith
get-blank (suc j) (x ∷ xs) zero h = ground arith
get-blank (suc j) (x ∷ xs) (suc i) h = ground (arith, get-blank j xs i)

pub length-blanked :
    (fs : List EnqueueFailure) (ids : List Text) → length (blanked ids fs) ≡ length ids
length-blanked [] ids = refl
length-blanked (f ∷ fs) ids = length-blanked fs (blank f.index ids) ∙ length-blank f.index ids

pub get-blanked :
    (fs : List EnqueueFailure) (ids : List Text) (i : ℕ)
    → suc i ≤ length ids
    → get_elem? (blanked ids fs) i ≡ (if reported fs i then some [] else get_elem? ids i)
get-blanked [] ids i h = refl
get-blanked (f ∷ fs) ids i h =
    ground (
      arith,
      get-blanked fs (blank f.index ids) i,
      get-blank f.index ids i,
      length-blank f.index ids,
    )

blanked-append :
    (fs gs : List EnqueueFailure) (ids : List Text)
    → blanked ids (fs ++ gs) ≡ blanked (blanked ids fs) gs
blanked-append [] gs ids = refl
blanked-append (f ∷ fs) gs ids = blanked-append fs gs (blank f.index ids)

fail_at-Aligned :
    (drawn : List Text) (i : ℕ) (cause : Cause) (p : Progress)
    → Aligned drawn p
    → Aligned drawn (fail_at i cause p)
fail_at-Aligned drawn i cause p h = ap (blank i) h ∙ sym (blanked-append p.failures _ drawn)

fail_chunk-Aligned :
    (drawn : List Text) (start n : ℕ) (cause : Cause) (p : Progress)
    → Aligned drawn p
    → Aligned drawn (fail_chunk start n cause p)
unfolding fail_chunk
fail_chunk-Aligned drawn start zero cause p h = h
fail_chunk-Aligned drawn start (suc n) cause p h =
    fail_chunk-Aligned drawn (suc start) n cause (fail_at start cause p)
      (fail_at-Aligned drawn start cause p h)

fail_entries-Aligned :
    (drawn : List Text) (start : ℕ) (ws : List WriteError) (p : Progress)
    → Aligned drawn p
    → Aligned drawn (fail_entries start ws p)
unfolding fail_entries
fail_entries-Aligned drawn start [] p h = h
fail_entries-Aligned drawn start (w ∷ ws) p h =
    fail_entries-Aligned drawn start ws (fail_at (start + w.index) (cause_of w) p)
      (fail_at-Aligned drawn (start + w.index) (cause_of w) p h)

module _ (b : Bson) (c : Tasks) where
  -- The ids that the call draws for the tasks.
  abbrev pub drawn_ids : (ℕ → ObjectId) → ℕ → List Task → List Text
  drawn_ids fresh i [] = []
  drawn_ids fresh i (t ∷ ts) = b.hex (fresh i) ∷ drawn_ids fresh (suc i) ts

  abbrev pub spelled : List TaskDoc → List Text
  spelled = map (λ d. b.hex d.id)

  -- The loop has ended, and is aligned.
  abbrev Sent : List Text → Option (c.State × Progress) → Type 0
  Sent drawn r = (x : c.State × Progress) × (r ≡ some x) × Aligned drawn x.1

  after_chunk-Sent :
      (drawn : List Text) (go_on : Progress → c.State → Option (c.State × Progress)) (from left : ℕ)
      (p : Progress) (r : c.State × Inserted)
      → ((q : Progress) (s : c.State) → Aligned drawn q → Sent drawn (go_on q s))
      → Aligned drawn p
      → Sent drawn (after_chunk b c go_on from left p r)
  after_chunk-Sent drawn go_on from left p (s, all_inserted) k h = k p s h
  after_chunk-Sent drawn go_on from left p (s, write_errors w ws) k h =
      k (fail_entries from (w ∷ ws) p) s (fail_entries-Aligned drawn from (w ∷ ws) p h)
  after_chunk-Sent drawn go_on from left p (s, hard_error) k h = (
    (s, fail_chunk from left insert_failed p),
    refl,
    fail_chunk-Aligned drawn from left insert_failed p h,
  )

  pub send_chunks-Sent :
      (drawn : List Text) (n chunk from : ℕ) (ds : List TaskDoc) (p : Progress) (s : c.State)
      → 1 ≤ chunk
      → length ds ≤ n
      → Aligned drawn p
      → Sent drawn (send_chunks b c n chunk from ds p s)
  unfolding send_chunks
  send_chunks-Sent drawn n chunk from [] p s positive h a = ((s, p), refl, a)
  send_chunks-Sent drawn zero chunk from (d ∷ ds) p s positive h a =
      let no : ⊥ = omega (arith, h) in elim no [ ]
  send_chunks-Sent drawn (suc n) chunk from (d ∷ ds) p s positive h a =
      after_chunk-Sent drawn
        (λ q s'. send_chunks b c n chunk (from + chunk) (drop chunk (d ∷ ds)) q s') from
        (length (d ∷ ds)) p (c.insert_many (take chunk (d ∷ ds)) s)
        (λ q s' a'.
          send_chunks-Sent drawn n chunk (from + chunk) (drop chunk (d ∷ ds)) q s' positive
            (omega (arith, length-drop chunk (d ∷ ds))) a')
        a

  pub spelled-build_docs :
      (fresh : ℕ → ObjectId) (i : ℕ) (ts : List Task) (ds : List TaskDoc)
      → build_docs b c fresh i ts ≡ some ds
      → spelled ds ≡ drawn_ids fresh i ts
  unfolding build_docs new_doc
  spelled-build_docs fresh i [] ds h = ground arith
  spelled-build_docs fresh i (t ∷ ts) ds h =
      spell (json_to_raw b t.payload) (build_docs b c fresh (suc i) ts)
        (λ es e. spelled-build_docs fresh (suc i) ts es e) h
    where
      spell :
          (raw : Option Text) (rest : Option (List TaskDoc))
          → ((es : List TaskDoc) → rest ≡ some es → spelled es ≡ drawn_ids fresh (suc i) ts)
          → elim raw [
            | none ↦ none
            | some payload ↦ elim rest [
              | none ↦ none
              | some es ↦ some (new_doc b (fresh i) payload t ∷ es)
            ]
          ]
            ≡ some ds
          → spelled ds ≡ b.hex (fresh i) ∷ drawn_ids fresh (suc i) ts
      spell none rest e k = ground arith
      spell (some raw) none e k = ground arith
      spell (some raw) (some es) e k =
          let same : new_doc b (fresh i) raw t ∷ es ≡ ds = ground arith in
          sym (ap spelled same) ∙ ap (λ ids. b.hex (fresh i) ∷ ids) (e es refl)
