-- ===== src/MemStore/Invariant/Put.antt =====
-- Writing a changed task back keeps the invariant, if the change takes no key that the task did
-- not hold.
use gotasks.Task.{Task}
use gotasks.Prelude.Text.{text_eq_iff, Text, text_eq}
use gotasks.Prelude.{
  map, All-image, ℕ, false, inr, List, arith, All-map, inl, ◌∷◌, ◌≡◌, ◌⊎◌, Bool-cases, All, ◌≤◌, [],
  some,
}
use gotasks.MemStore.TaskMap.{
  map-DistinctIds, Pairwise-put, put-DistinctIds, find-id, All-put, All-find, DistinctIds,
}
use gotasks.MemStore.State.{put_task, is_active, Store, find_task}
use gotasks.MemStore.Invariant.{IsIssued-mono, TokenIssued, KeysApart, KeyReleased, IsValid, clash}

pub clash_sym : (t u : Task) → clash t u ≡ false → clash u t ≡ false
unfolding clash
clash_sym t u h = ground (
  arith,
  text_eq_iff t.unique_key u.unique_key,
  text_eq_iff u.unique_key t.unique_key,
  text_eq_iff t.unique_key [],
  text_eq_iff u.unique_key [],
)

-- The task found under an id clashes with no task of another id.
clash_others :
    (j : Text) (b : Task) (ts : List Task)
    → find_task j ts ≡ some b
    → KeysApart ts
    → All (λ t. text_eq t.id j ≡ false → clash b t ≡ false) ts
unfolding find_task
clash_others j b [] f a = tt
clash_others j b (t ∷ ts) f a = elim (Bool-cases (text_eq t.id j)) [
  | inl hit ↦
      let e : t ≡ b = ground arith in
      (λ miss. absurd (cc), All-map _ _ ts (λ u h miss. rw (← e) h) a.0)
  | inr miss ↦
      let rest : find_task j ts ≡ some b = ground arith in
      (λ _. clash_sym t b (All-find _ j ts b a.0 rest), clash_others j b ts rest a.1)
]

-- `c` holds no key, or the one that `b` holds and while `b` holds it.
abbrev pub TakesNoKey : Task → Task → Type 0
TakesNoKey b c = (c.unique_key ≡ []) ⊎ ((c.unique_key ≡ b.unique_key) × (is_active c ≡ is_active b))

TakesNoKey-clash :
    (b c t : Task) → TakesNoKey b c → clash b t ≡ false → (clash c t ≡ false) × (clash t c ≡ false)
TakesNoKey-clash b c t k h = (one k, clash_sym c t (one k))
  where
    one : TakesNoKey b c → clash c t ≡ false
    one (inl e) = unfold clash in ground (arith, text_eq_iff c.unique_key [])
    one (inr (e, a)) = unfold clash in ground arith

pub put-KeysApart :
    (b c : Task) (ts : List Task)
    → find_task c.id ts ≡ some b
    → TakesNoKey b c
    → DistinctIds ts
    → KeysApart ts
    → KeysApart (put_task c ts)
put-KeysApart b c ts f k d a =
    Pairwise-put _ c ts
      (All-map _ _ ts (λ t h miss. TakesNoKey-clash b c t k (h miss)) (clash_others c.id b ts f a))
      d a

-- The invariant after a write of `c` over `b`, where the counter has come to `n`.
pub put-IsValid :
    (s : Store) (n : ℕ) (b c : Task)
    → IsValid s
    → s.seq ≤ n
    → find_task c.id s.tasks ≡ some b
    → TakesNoKey b c
    → KeyReleased c
    → TokenIssued n c
    → IsValid (record s { seq = n; tasks = put_task c s.tasks })
put-IsValid s n b c v le f k r i = record {
  distinct = put-DistinctIds c s.tasks v.distinct;
  ids_issued =
      All-put _ c s.tasks
        (rw (← find-id c.id s.tasks b f)
          (IsIssued-mono _ s.seq n b.id le (All-find _ c.id s.tasks b v.ids_issued f)))
        (All-map _ _ s.tasks (λ t. IsIssued-mono _ s.seq n t.id le) v.ids_issued);
  tokens_issued = All-put _ c s.tasks i (
      All-map _ _ s.tasks (λ t h e. IsIssued-mono _ s.seq n t.lease_token le (h e))
        v.tokens_issued);
  keys_apart = put-KeysApart b c s.tasks f k v.distinct v.keys_apart;
  keys_released = All-put _ c s.tasks r v.keys_released;
}

-- The same for a sweep, whose changes may use that keys are released.
pub map-KeysApart :
    (f : Task → Task) (ts : List Task)
    → ((t : Task) → KeyReleased t → TakesNoKey t (f t))
    → All KeyReleased ts
    → KeysApart ts
    → KeysApart (map f ts)
map-KeysApart f [] k r a = tt
map-KeysApart f (t ∷ ts) k r a = (heads ts r.1 a.0, map-KeysApart f ts k r.1 a.1)
  where
    heads :
        (us : List Task)
        → All KeyReleased us
        → All (λ u. clash t u ≡ false) us
        → All (λ u. clash (f t) u ≡ false) (map f us)
    heads [] ru h = tt
    heads (u ∷ us) ru h =
        let left = (TakesNoKey-clash t (f t) u (k t r.0) h.0).1 in
        ((TakesNoKey-clash u (f u) (f t) (k u ru.0) left).1, heads us ru.1 h.1)

-- The invariant after a sweep that keeps ids.
pub map-IsValid :
    (s : Store) (f : Task → Task)
    → ((t : Task) → (f t).id ≡ t.id)
    → ((t : Task) → KeyReleased t → TakesNoKey t (f t))
    → ((t : Task) → KeyReleased t → KeyReleased (f t))
    → ((t : Task) → TokenIssued s.seq t → TokenIssued s.seq (f t))
    → IsValid s
    → IsValid (record s { tasks = map f s.tasks })
map-IsValid s f same_id no_key released token v = record {
  distinct = map-DistinctIds f s.tasks same_id v.distinct;
  ids_issued = All-image f _ _ s.tasks (λ t h. rw (same_id t) h) v.ids_issued;
  tokens_issued = All-image f _ _ s.tasks token v.tokens_issued;
  keys_apart = map-KeysApart f s.tasks no_key v.keys_released v.keys_apart;
  keys_released = All-image f _ _ s.tasks released v.keys_released;
}
