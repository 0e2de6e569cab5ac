-- ===== src/Mongo/Enqueue.antt =====
-- Store.Enqueue and Store.duplicateError of mongostore.go.
pub mod Fates
pub mod Chunks
pub mod Ids
pub mod Reports
use gotasks.Task.{other, Task, StoreError, duplicate}
use gotasks.Prelude.Text.{text_eq, Text}
use gotasks.Prelude.{
  ◌&&◌, take, map, drop, suc, some, if◌then◌else◌, ◌+◌, ◌++◌, zero, true, length, Bool, ◌∷◌, none,
  [], Option, ℕ, List, false,
}
use gotasks.Mongo.Query.{key_is}
use gotasks.Mongo.Docs.{ObjectId, json_to_raw, new_doc, Bson, TaskDoc}
use gotasks.Mongo.Driver.{
  Tasks, natural, got, Reply, Inserted, all_inserted, hard_error, write_errors, WriteError,
}

-- The causes of a failure, by whether they are ErrDuplicateTask.
pub data Cause : Type 0 where
  duplicate_task insert_failed : Cause

pub record EnqueueFailure : Type 0 where
  pub index : ℕ
  pub cause : Cause

-- The ids and the failures of the loop over the chunks.
pub record Progress : Type 0 where
  pub ids : List Text
  pub failures : List EnqueueFailure

-- All ids; ids with a *PartialEnqueueError; or no ids and an error.
pub data Enqueued : Type 0 where
  stored : List Text → Enqueued
  partly : List Text → List EnqueueFailure → Enqueued
  refused : StoreError → Enqueued

-- ids[i] = ""
unfoldable pub blank : ℕ → List Text → List Text
blank i [] = []
blank zero (x ∷ xs) = [] ∷ xs
blank (suc i) (x ∷ xs) = x ∷ blank i xs

abbrev pub fail_at : ℕ → Cause → Progress → Progress
fail_at i cause p = record {
  ids = blank i p.ids;
  failures = p.failures ++ record { index = i; cause = cause } ∷ [];
}

-- failChunk, from `start` on for `n` entries.
unfoldable pub fail_chunk : ℕ → ℕ → Cause → Progress → Progress
fail_chunk start zero cause p = p
fail_chunk start (suc n) cause p = fail_chunk (suc start) n cause (fail_at start cause p)

abbrev pub cause_of : WriteError → Cause
cause_of w = if w.duplicate_key then duplicate_task else insert_failed

unfoldable pub fail_entries : ℕ → List WriteError → Progress → Progress
fail_entries start [] p = p
fail_entries start (w ∷ ws) p = fail_entries start ws (fail_at (start + w.index) (cause_of w) p)

abbrev pub first_key : List Task → Text
first_key [] = []
first_key (t ∷ ts) = if text_eq t.unique_key [] then first_key ts else t.unique_key

module _ (b : Bson) (c : Tasks) where
  -- The loop that builds the documents: `fresh` are the ids that NewObjectID draws.
  unfoldable pub build_docs : (ℕ → ObjectId) → ℕ → List Task → Option (List TaskDoc)
  build_docs fresh i [] = some []
  build_docs fresh i (t ∷ ts) = elim (json_to_raw b t.payload) [
    | none ↦ none
    | some payload ↦ elim (build_docs fresh (suc i) ts) [
      | none ↦ none
      | some ds ↦ some (new_doc b (fresh i) payload t ∷ ds)
    ]
  ]

  -- What the loop does with the reply to a chunk; `left` is the number of documents from `start` on.
  abbrev pub after_chunk :
      (Progress → c.State → Option (c.State × Progress))
      → (start left : ℕ) → Progress
      → c.State × Inserted
      → Option (c.State × Progress)
  after_chunk go_on start left p (s, all_inserted) = go_on p s
  after_chunk go_on start left p (s, write_errors w ws) = go_on (fail_entries start (w ∷ ws) p) s
  after_chunk go_on start left p (s, hard_error) = some (s, fail_chunk start left insert_failed p)

  -- The loop over the chunks: the documents are those from `start` on.
  unfoldable pub send_chunks :
      ℕ → (chunk start : ℕ) → List TaskDoc → Progress → c.State → Option (c.State × Progress)
  send_chunks n chunk start [] p s = some (s, p)
  send_chunks zero chunk start (d ∷ ds) p s = none
  send_chunks (suc n) chunk start (d ∷ ds) p s =
      after_chunk (λ q s'. send_chunks n chunk (start + chunk) (drop chunk (d ∷ ds)) q s') start
        (length (d ∷ ds)) p (c.insert_many (take chunk (d ∷ ds)) s)

  abbrev pub holder_id : Reply (Option TaskDoc) → Text
  holder_id (got (some d)) = b.hex d.id
  holder_id _ = []

  unfoldable pub duplicate_error : List Task → c.State → StoreError
  duplicate_error ts s = duplicate (first_key ts) (
      holder_id
        (c.find_one (record { all_of = key_is (first_key ts) ∷ []; any_of = [] }) natural s))

  abbrev pub is_duplicate : Cause → Bool
  is_duplicate duplicate_task = true
  is_duplicate insert_failed = false

  abbrev pub single : List Task → Bool
  single (t ∷ []) = true
  single _ = false

  -- The lone task's conflict on its key, or the list of the failures.
  abbrev pub failed_result :
      List Task → c.State → List Text → EnqueueFailure → List EnqueueFailure → Enqueued
  failed_result ts s ids f fs =
      if single ts && is_duplicate f.cause
      then refused (duplicate_error ts s)
      else partly ids (f ∷ fs)

  abbrev pub enqueue_result : List Task → c.State → List Text → List EnqueueFailure → Enqueued
  enqueue_result ts s ids [] = stored ids
  enqueue_result ts s ids (f ∷ fs) = failed_result ts s ids f fs

  abbrev pub sent_result : List Task → Option (c.State × Progress) → Option (c.State × Enqueued)
  sent_result ts none = none
  sent_result ts (some (s, p)) = some (s, enqueue_result ts s p.ids p.failures)

  abbrev pub enqueue_built :
      ℕ → List Task → c.State → Option (List TaskDoc) → Option (c.State × Enqueued)
  enqueue_built chunk ts s none = some (s, refused other)
  enqueue_built chunk ts s (some ds) = sent_result ts (
      send_chunks (length ds) chunk 0 ds (record { ids = map (λ d. b.hex d.id) ds; failures = [] })
        s)

  -- There are as many rounds as documents; none where they do not end the loop.
  unfoldable pub enqueue : ℕ → (ℕ → ObjectId) → List Task → c.State → Option (c.State × Enqueued)
  enqueue chunk fresh [] s = some (s, stored [])
  enqueue chunk fresh (t ∷ ts) s = enqueue_built chunk (t ∷ ts) s (build_docs fresh 0 (t ∷ ts))
