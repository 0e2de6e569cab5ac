-- ===== src/Mongo/Enqueue/Fates.antt =====
-- What the server's replies to the chunks of Enqueue say of each document.
use gotasks.Mongo.Docs.{TaskDoc}
use gotasks.Mongo.Driver.{
  Tasks, Inserted, all_inserted, hard_error, write_errors, WriteError, find_doc,
}
use gotasks.Mongo.Enqueue.{
  Cause, insert_failed, EnqueueFailure, Progress, fail_at, fail_chunk, fail_entries, cause_of,
}
use gotasks.Prelude.{
  ℕ, zero, suc, ◌+◌, ◌-◌, ◌≤◌, ◌<◌, ◌≡◌, refl, sym, ◌∙◌, ap, arith, true, false, Bool-cases, ◌==◌,
  ltb, leb, ◌&&◌, ◌⊎◌, inl, inr, List, [], ◌∷◌, ◌++◌, length, take, drop, Option, none, some, All,
  if◌then◌else◌,
}

-- The cause that the failures give for an entry.
abbrev pub cause_at : List EnqueueFailure → ℕ → Option Cause
cause_at [] i = none
cause_at (f ∷ fs) i = let rest = cause_at fs i in if f.index == i then some f.cause else rest

-- The cause that the errors of a chunk give for its document at a position.
abbrev pub listed : List WriteError → ℕ → Option Cause
listed [] i = none
listed (w ∷ ws) i = let rest = listed ws i in if w.index == i then some (cause_of w) else rest

abbrev pub doc_at : List TaskDoc → ℕ → Option TaskDoc
doc_at [] i = none
doc_at (d ∷ ds) zero = some d
doc_at (d ∷ ds) (suc i) = doc_at ds i

module _ (c : Tasks) where
  abbrev pub fate_of :
      (c.State → ℕ → Option Cause) → (chunk : ℕ) → c.State × Inserted → ℕ → Option Cause
  fate_of later chunk (s, all_inserted) i = if ltb i chunk then none else later s (i - chunk)
  fate_of later chunk (s, write_errors w ws) i =
      if ltb i chunk then listed (w ∷ ws) i else later s (i - chunk)
  fate_of later chunk (s, hard_error) i = some insert_failed

  -- For the document at a position: what the reply to its chunk says of that position in the chunk, if
  -- no hard error ended the call before or there; at most `n` chunks.
  unfoldable pub fate : ℕ → (chunk : ℕ) → List TaskDoc → c.State → ℕ → Option Cause
  fate n chunk [] s i = none
  fate zero chunk (d ∷ ds) s i = none
  fate (suc n) chunk (d ∷ ds) s i =
      fate_of (λ s'. fate n chunk (drop chunk (d ∷ ds)) s') chunk
        (c.insert_many (take chunk (d ∷ ds)) s) i

  -- What is documented of an unordered InsertMany: its errors are those of documents that it was
  -- given, and it has stored the others, if it got an answer.
  abbrev pub Stores : List TaskDoc → c.State × Inserted → Type 0
  Stores ds (s, all_inserted) =
      (i : ℕ) (d : TaskDoc) → doc_at ds i ≡ some d → find_doc d.id (c.docs s) ≡ some d
  Stores ds (s, write_errors w ws) =
      All (λ w. w.index < length ds) (w ∷ ws)
      × ((i : ℕ) (d : TaskDoc)
          → doc_at ds i ≡ some d
          → listed (w ∷ ws) i ≡ none
          → find_doc d.id (c.docs s) ≡ some d)
  Stores ds (s, hard_error) = Unit

abbrev pub or_else : Option Cause → Option Cause → Option Cause
or_else none y = y
or_else (some x) y = some x

or_else_assoc : (x y z : Option Cause) → or_else (or_else x y) z ≡ or_else x (or_else y z)
or_else_assoc none y z = refl
or_else_assoc (some x) y z = refl

pub or_else-none : (x : Option Cause) → or_else x none ≡ x
or_else-none none = refl
or_else-none (some x) = refl

cause_at-append :
    (fs : List EnqueueFailure) (f : EnqueueFailure) (k : ℕ)
    → cause_at (fs ++ f ∷ []) k ≡ or_else (cause_at fs k) (cause_at (f ∷ []) k)
cause_at-append [] f k = refl
cause_at-append (g ∷ fs) f k = elim (Bool-cases (g.index == k)) [
  | inl hit ↦ rw hit refl
  | inr miss ↦ rw miss (cause_at-append fs f k)
]

-- With the entry counted from the start of the call.
abbrev pub listed_from : ℕ → List WriteError → ℕ → Option Cause
listed_from start [] k = none
listed_from start (w ∷ ws) k =
    let rest = listed_from start ws k in if start + w.index == k then some (cause_of w) else rest

pub cause_at-fail_entries :
    (start : ℕ) (ws : List WriteError) (p : Progress) (k : ℕ)
    → cause_at (fail_entries start ws p).failures k
      ≡ or_else (cause_at p.failures k) (listed_from start ws k)
unfolding fail_entries
cause_at-fail_entries start [] p k = sym (or_else-none (cause_at p.failures k))
cause_at-fail_entries start (w ∷ ws) p k =
    cause_at-fail_entries start ws (fail_at (start + w.index) (cause_of w) p) k
    ∙ ap (λ x. or_else x (listed_from start ws k))
        (cause_at-append p.failures (record { index = start + w.index; cause = cause_of w }) k)
    ∙ or_else_assoc (cause_at p.failures k) _ (listed_from start ws k)
    ∙ ap (λ x. or_else (cause_at p.failures k) x) joined
  where
    joined :
        or_else
          (cause_at (record { index = start + w.index; cause = cause_of w } ∷ []) k)
          (listed_from start ws k)
        ≡ listed_from start (w ∷ ws) k
    joined = elim (Bool-cases (start + w.index == k)) [
      | inl hit ↦ rw hit refl
      | inr miss ↦ rw miss refl
    ]

pub listed_from-listed :
    (start : ℕ) (ws : List WriteError) (i : ℕ) → listed_from start ws (start + i) ≡ listed ws i
listed_from-listed start [] i = refl
listed_from-listed start (w ∷ ws) i = elim (Bool-cases (w.index == i)) [
  | inl hit ↦ let same : (start + w.index == start + i) ≡ true = ground arith in rw (hit, same) refl
  | inr miss ↦
      let apart : (start + w.index == start + i) ≡ false = ground arith in
      rw (miss, apart) (listed_from-listed start ws i)
]

-- No entry outside the chunk is listed.
pub listed_from-outside :
    (start n : ℕ) (ws : List WriteError) (k : ℕ)
    → All (λ w. w.index < n) ws
    → (k < start) ⊎ (start + n ≤ k)
    → listed_from start ws k ≡ none
listed_from-outside start n [] k h o = refl
listed_from-outside start n (w ∷ ws) k h o =
    let apart : (start + w.index == k) ≡ false = ground (arith, h.0, o) in
    rw apart (listed_from-outside start n ws k h.1 o)

pub cause_at-fail_chunk :
    (start n : ℕ) (p : Progress) (k : ℕ)
    → cause_at (fail_chunk start n insert_failed p).failures k
      ≡ or_else
          (cause_at p.failures k)
          (if leb start k && ltb k (start + n) then some insert_failed else none)
unfolding fail_chunk
cause_at-fail_chunk start zero p k =
    let out : (leb start k && ltb k (start + 0)) ≡ false = ground arith in
    rw out (sym (or_else-none (cause_at p.failures k)))
cause_at-fail_chunk start (suc n) p k =
    cause_at-fail_chunk (suc start) n (fail_at start insert_failed p) k
    ∙ ap
        (λ x.
          or_else x
            (if leb (suc start) k && ltb k (suc start + n) then some insert_failed else none))
        (cause_at-append p.failures (record { index = start; cause = insert_failed }) k)
    ∙ or_else_assoc (cause_at p.failures k) _ _
    ∙ ap (λ x. or_else (cause_at p.failures k) x) joined
  where
    joined :
        or_else
          (if start == k then some insert_failed else none)
          (if leb (suc start) k && ltb k (suc start + n) then some insert_failed else none)
        ≡ (if leb start k && ltb k (start + suc n) then some insert_failed else none)
    joined = ground arith
