-- ===== src/Mongo/Enqueue/Chunks.antt =====
-- The loop over the chunks of Enqueue lists the failures that the replies tell of, and what it does not
-- list is stored.
use gotasks.Mongo.Docs.{TaskDoc, ObjectId, Bson}
use gotasks.Mongo.Driver.{
  Tasks, IsTasks, Inserted, all_inserted, hard_error, write_errors, WriteError, find_doc,
}
use gotasks.Mongo.Enqueue.{
  Cause, insert_failed, Progress, fail_chunk, fail_entries, after_chunk, send_chunks,
}
use gotasks.Mongo.Enqueue.Fates.{
  cause_at, listed, doc_at, fate, fate_of, Stores, or_else, cause_at-fail_entries,
  listed_from-listed, listed_from-outside, cause_at-fail_chunk, or_else-none,
}
use mathlib.Core.Path.{subst}
use gotasks.Prelude.{
  ℕ, zero, suc, ◌+◌, ◌-◌, ◌≤◌, ◌<◌, ◌≡◌, refl, ◌∙◌, ap, arith, true, false, Bool-cases, ltb, leb,
  ◌&&◌, ◌⊎◌, inl, inr, List, [], ◌∷◌, length, take, drop, length-drop, length-take, Option, none,
  some, All, if◌then◌else◌, All-map,
}

doc_at-take : (k i : ℕ) (ds : List TaskDoc) → i < k → doc_at (take k ds) i ≡ doc_at ds i
unfolding take
doc_at-take zero i ds h = absurd (omega (arith, h))
doc_at-take (suc k) i [] h = refl
doc_at-take (suc k) zero (d ∷ ds) h = refl
doc_at-take (suc k) (suc i) (d ∷ ds) h = doc_at-take k i ds (omega (arith, h))

take_within : (k : ℕ) (ds : List TaskDoc) → length (take k ds) ≤ length ds
unfolding take
take_within zero ds = omega arith
take_within (suc k) [] = omega arith
take_within (suc k) (d ∷ ds) = omega (arith, take_within k ds)

-- The document at a position behind the first ones.
doc_at-drop : (k i : ℕ) (ds : List TaskDoc) → k ≤ i → doc_at (drop k ds) (i - k) ≡ doc_at ds i
unfolding drop
doc_at-drop zero i ds h = ap (doc_at ds) (omega arith)
doc_at-drop (suc k) i [] h = refl
doc_at-drop (suc k) zero (d ∷ ds) h = absurd (omega (arith, h))
doc_at-drop (suc k) (suc i) (d ∷ ds) h =
    ap (doc_at (drop k ds)) (omega arith) ∙ doc_at-drop k i ds (omega (arith, h))

-- Nothing is listed from an entry on.
abbrev Fresh : ℕ → Progress → Type 0
Fresh start p = (k : ℕ) → start ≤ k → cause_at p.failures k ≡ none

module _ (b : Bson) (c : Tasks) (h : IsTasks c)
    (stores : (ds : List TaskDoc) (s : c.State) → Stores c ds (c.insert_many ds s)) where
  abbrev Keeps : c.State → c.State → Type 0
  Keeps s s' =
      (id : ObjectId) (d : TaskDoc)
      → find_doc id (c.docs s) ≡ some d
      → find_doc id (c.docs s') ≡ some d

  -- From `start` on, the failures are those of `f`, and the other documents are stored.
  -- Before `start` and behind the documents nothing changes.
  pub record Fated (start : ℕ) (f : ℕ → Option Cause) (ds : List TaskDoc) (s : c.State)
      (p : Progress) (s' : c.State) (q : Progress) : Type 0 where
    pub before : (k : ℕ) → k < start → cause_at q.failures k ≡ cause_at p.failures k
    pub behind : (k : ℕ) → start + length ds ≤ k → cause_at q.failures k ≡ cause_at p.failures k
    pub fates : (i : ℕ) → i < length ds → cause_at q.failures (start + i) ≡ f i
    pub stored :
        (i : ℕ) (d : TaskDoc)
        → doc_at ds i ≡ some d
        → f i ≡ none
        → find_doc d.id (c.docs s') ≡ some d
    pub kept : Keeps s s'

  -- A chunk that got an answer, and the rest.
  answered-Fated :
      (start chunk : ℕ) (here later : ℕ → Option Cause) (ds : List TaskDoc) (s s₁ s' : c.State)
      (p p₁ q : Progress)
      → Keeps s s₁
      → ((k : ℕ) → k < start → cause_at p₁.failures k ≡ cause_at p.failures k)
      → ((k : ℕ) → start + length ds ≤ k → cause_at p₁.failures k ≡ cause_at p.failures k)
      → ((i : ℕ) → cause_at p₁.failures (start + i) ≡ (if ltb i chunk then here i else none))
      → ((i : ℕ) (d : TaskDoc)
          → doc_at (take chunk ds) i ≡ some d
          → here i ≡ none
          → find_doc d.id (c.docs s₁) ≡ some d)
      → Fated (start + chunk) later (drop chunk ds) s₁ p₁ s' q
      → Fated start (λ i. if ltb i chunk then here i else later (i - chunk)) ds s p s' q
  answered-Fated start chunk here later ds s s₁ s' p p₁ q keep early late listed_here stored_here
        r =
      record {
        before = λ k l. r.before k (omega (arith, l)) ∙ early k l;
        behind = λ k l. elim (Bool-cases (ltb k (start + chunk))) [
          | inl inside ↦ r.before k (ground arith) ∙ late k l
          | inr further ↦ let size = length-drop chunk ds in r.behind k (ground arith) ∙ late k l
        ];
        fates = λ i l. elim (Bool-cases (ltb i chunk)) [
          | inl inside ↦
              let below : start + i < start + chunk = ground arith in
              rw inside (r.before (start + i) below ∙ listed_here i ∙ rw inside refl)
          | inr behind ↦
              let e : start + i ≡ (start + chunk) + (i - chunk) = ground arith in
              let size = length-drop chunk ds in
              let l' : i - chunk < length (drop chunk ds) = ground arith in
              rw behind (ap (cause_at q.failures) e ∙ r.fates (i - chunk) l')
        ];
        stored = λ i d own free. elim (Bool-cases (ltb i chunk)) [
          | inl inside ↦
              r.kept d.id d
                (stored_here i d (doc_at-take chunk i ds (ground arith) ∙ own) (rw inside at free))
          | inr behind ↦
              r.stored (i - chunk) d (doc_at-drop chunk i ds (ground arith) ∙ own)
                (rw behind at free)
        ];
        kept = λ id d own. r.kept id d (keep id d own);
      }

  refused_chunk-Fated :
      (start : ℕ) (ds : List TaskDoc) (s s' : c.State) (p : Progress)
      → Keeps s s'
      → Fresh start p
      → Fated start
          (λ i. some insert_failed)
          ds
          s
          p
          s'
          (fail_chunk start (length ds) insert_failed p)
  refused_chunk-Fated start ds s s' p keep fresh = record {
    before = λ k l.
        let out : (leb start k && ltb k (start + length ds)) ≡ false = ground arith in
        cause_at-fail_chunk start (length ds) p k ∙ rw out (or_else-none (cause_at p.failures k));
    behind = λ k l.
        let out : (leb start k && ltb k (start + length ds)) ≡ false = ground arith in
        cause_at-fail_chunk start (length ds) p k ∙ rw out (or_else-none (cause_at p.failures k));
    fates = λ i l.
        let inside : (leb start (start + i) && ltb (start + i) (start + length ds)) ≡ true =
          ground arith in
        cause_at-fail_chunk start (length ds) p (start + i)
        ∙ rw (inside, fresh (start + i) (omega arith)) refl;
    stored = λ i d own free. absurd (ground (arith, free));
    kept = keep;
  }

  -- The chunk's part of the progress, after its write errors.
  entries-here :
      (start chunk : ℕ) (w : WriteError) (ws : List WriteError) (p : Progress) (i : ℕ)
      → All (λ w. w.index < chunk) (w ∷ ws)
      → Fresh start p
      → cause_at (fail_entries start (w ∷ ws) p).failures (start + i)
        ≡ (if ltb i chunk then listed (w ∷ ws) i else none)
  entries-here start chunk w ws p i small fresh =
      cause_at-fail_entries start (w ∷ ws) p (start + i)
      ∙ rw (fresh (start + i) (omega arith)) (elim (Bool-cases (ltb i chunk)) [
        | inl inside ↦ rw inside (listed_from-listed start (w ∷ ws) i)
        | inr behind ↦
            rw behind
              (listed_from-outside start chunk (w ∷ ws) (start + i) small (inr (ground arith)))
      ])

  after_chunk-Fated :
      (start chunk : ℕ) (ds : List TaskDoc) (s : c.State) (p : Progress) (x : c.State × Progress)
      (go_on : Progress → c.State → Option (c.State × Progress))
      (later : c.State → ℕ → Option Cause)
      → ((q : Progress) (s' : c.State)
          → Fresh (start + chunk) q
          → go_on q s' ≡ some x
          → Fated (start + chunk) (later s') (drop chunk ds) s' q x.0 x.1)
      → (r : c.State × Inserted) → Stores c (take chunk ds) r
      → Keeps s r.0
      → Fresh start p
      → after_chunk b c go_on start (length ds) p r ≡ some x
      → Fated start (fate_of c later chunk r) ds s p x.0 x.1
  after_chunk-Fated start chunk ds s p x go_on later k (s₁, all_inserted) st keep fresh e =
      answered-Fated start chunk (λ i. none) (later s₁) ds s s₁ x.0 p p x.1 keep (λ k l. refl)
        (λ k l. refl) (λ i. fresh (start + i) (omega arith) ∙ ground arith)
        (λ i d own free. st i d own) (k p s₁ (λ i l. fresh i (omega (arith, l))) e)
  after_chunk-Fated start chunk ds s p x go_on later k (s₁, write_errors w ws) st keep fresh e =
      answered-Fated start chunk (λ i. listed (w ∷ ws) i) (later s₁) ds s s₁ x.0 p
        (fail_entries start (w ∷ ws) p) x.1 keep
        (λ k l. early k (inl l) ∙ or_else-none (cause_at p.failures k))
        (λ k l.
          cause_at-fail_entries start (w ∷ ws) p k
          ∙ ap (or_else (cause_at p.failures k)) (
              listed_from-outside start (length (take chunk ds)) (w ∷ ws) k st.0
                (inr (omega (arith, l, take_within chunk ds))))
          ∙ or_else-none (cause_at p.failures k))
        (λ i. entries-here start chunk w ws p i small fresh) st.1
        (k (fail_entries start (w ∷ ws) p) s₁
          (λ i l. early i (inr l) ∙ rw (fresh i (omega (arith, l))) refl) e)
    where
      small : All (λ w. w.index < chunk) (w ∷ ws)
      small =
          All-map (λ w. w.index < length (take chunk ds)) (λ w. w.index < chunk) (w ∷ ws)
            (λ w l. omega (arith, l, length-take chunk ds)) st.0

      early :
          (i : ℕ)
          → (i < start) ⊎ (start + chunk ≤ i)
          → cause_at (fail_entries start (w ∷ ws) p).failures i
            ≡ or_else (cause_at p.failures i) none
      early i out =
          cause_at-fail_entries start (w ∷ ws) p i
          ∙ ap (or_else (cause_at p.failures i))
              (listed_from-outside start chunk (w ∷ ws) i small out)
  after_chunk-Fated start chunk ds s p x go_on later k (s₁, hard_error) st keep fresh e =
      let same : (s₁, fail_chunk start (length ds) insert_failed p) ≡ x = ground (arith, e) in
      subst (λ y. Fated start (λ j. some insert_failed) ds s p y.0 y.1) same
        (refused_chunk-Fated start ds s s₁ p keep fresh)

  pub send_chunks-Fated :
      (n chunk start : ℕ) (ds : List TaskDoc) (p : Progress) (s : c.State) (x : c.State × Progress)
      → 1 ≤ chunk
      → length ds ≤ n
      → Fresh start p
      → send_chunks b c n chunk start ds p s ≡ some x
      → Fated start (fate c n chunk ds s) ds s p x.0 x.1
  unfolding send_chunks fate
  send_chunks-Fated n chunk start [] p s x positive l fresh e =
      let same : (s, p) ≡ x = ground (arith, e) in
      subst (λ y. Fated start (λ i. none) [] s p y.0 y.1) same
        (record {
          before = λ k l. refl;
          behind = λ k l. refl;
          fates = λ i l. fresh (start + i) (omega arith);
          stored = λ i d own free. absurd (ground (arith, own));
          kept = λ id d own. own;
        })
  send_chunks-Fated zero chunk start (d ∷ ds) p s x positive l fresh e = absurd (omega (arith, l))
  send_chunks-Fated (suc n) chunk start (d ∷ ds) p s x positive l fresh e =
      after_chunk-Fated start chunk (d ∷ ds) s p x
        (λ q s'. send_chunks b c n chunk (start + chunk) (drop chunk (d ∷ ds)) q s')
        (λ s'. fate c n chunk (drop chunk (d ∷ ds)) s')
        (λ q s' fresh'.
          send_chunks-Fated n chunk (start + chunk) (drop chunk (d ∷ ds)) q s' x positive
            (omega (arith, length-drop chunk (d ∷ ds))) fresh')
        (c.insert_many (take chunk (d ∷ ds)) s) (stores (take chunk (d ∷ ds)) s)
        (h.inserts (take chunk (d ∷ ds)) s) fresh e
