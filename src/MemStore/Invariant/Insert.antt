-- ===== src/MemStore/Invariant/Insert.antt =====
-- Enqueue keeps the invariant, if the tasks that it is given are pending, as the manager's are.
use gotasks.Task.{ok, Result, err, Task, pending}
use gotasks.Prelude.Text.{text_eq_iff, text_eq-eq, Text, text_eq}
use gotasks.Prelude.{
  [], ◌≡◌, Bool-cases, refl, ◌∷◌, inr, none, arith, ℕ, ◌∙◌, All-map, List, false, Option-cases, ◌⊎◌,
  sym, inl, All, suc,
}
use gotasks.MemStore.TaskMap.{All-put, task_id-injective, put-DistinctIds, Pairwise-put}
use gotasks.MemStore.State.{is_active, active_key_holder, Store, task_id}
use gotasks.MemStore.Invariant.Put.{clash_sym}
use gotasks.MemStore.Invariant.{IsIssued-mono, IsIssued, IsValid, clash}
use gotasks.MemStore.Enqueue.{with_id, conflict, enqueue, insert}

-- A name that the counter has not given out yet is no earlier one.
pub fresh_name : (n : ℕ) (x : Text) → IsIssued task_id n x → text_eq x (task_id (suc n)) ≡ false
fresh_name n x (k, le, e) = elim (Bool-cases (text_eq x (task_id (suc n)))) [
  | inr new_name ↦ new_name
  | inl old ↦
      let same : k ≡ suc n = task_id-injective k (suc n) (sym e ∙ text_eq-eq x _ old) in
      absurd (omega arith)
]

no_task_yet :
    (n : ℕ) (ts : List Task)
    → All (λ t. IsIssued task_id n t.id) ts
    → All (λ t. text_eq t.id (task_id (suc n)) ≡ false) ts
no_task_yet n ts h = All-map _ _ ts (λ t. fresh_name n t.id) h

-- If no active task holds the key of `c`, then `c` clashes with none.
no_clash :
    (c : Task) (ts : List Task)
    → (c.unique_key ≡ []) ⊎ (active_key_holder c.unique_key ts ≡ none)
    → All (λ t. clash c t ≡ false) ts
unfolding active_key_holder clash
no_clash c [] h = tt
no_clash c (t ∷ ts) (inl e) = (ground (arith, text_eq_iff c.unique_key []), no_clash c ts (inl e))
no_clash c (t ∷ ts) (inr e) = (
  ground (arith, text_eq_iff c.unique_key t.unique_key, text_eq_iff t.unique_key c.unique_key),
  no_clash c ts (inr (ground arith)),
)

conflict-none :
    (s : Store) (t : Task)
    → conflict s t ≡ none
    → (t.unique_key ≡ []) ⊎ (active_key_holder t.unique_key s.tasks ≡ none)
unfolding conflict
conflict-none s t h = ground (arith, text_eq_iff t.unique_key [])

pub insert-IsValid :
    (s : Store) (t : Task)
    → IsValid s
    → t.status ≡ pending
    → conflict s t ≡ none
    → IsValid (insert s t)
unfolding insert
insert-IsValid s t v p e =
    let c : Task = record t { id = task_id (suc s.seq) } in
    let clear = no_clash c s.tasks (conflict-none s t e) in
    record {
      distinct = put-DistinctIds c s.tasks v.distinct;
      ids_issued =
          All-put _ c s.tasks (suc s.seq, omega arith, refl)
            (All-map _ _ s.tasks (λ u. IsIssued-mono _ s.seq (suc s.seq) u.id (omega arith))
              v.ids_issued);
      tokens_issued =
          All-put _ c s.tasks (λ r. absurd (cc))
            (All-map _ _ s.tasks
              (λ u h r. IsIssued-mono _ s.seq (suc s.seq) u.lease_token (omega arith) (h r))
              v.tokens_issued);
      keys_apart =
          Pairwise-put _ c s.tasks (All-map _ _ s.tasks (λ u h _. (h, clash_sym c u h)) clear)
            v.distinct v.keys_apart;
      keys_released =
          All-put _ c s.tasks (λ h. absurd (unfold is_active in ground arith)) v.keys_released;
    }

with_id-IsValid :
    (id : Text) (r : Store × Result (List Text)) → IsValid r.0 → IsValid (with_id id r).0
with_id-IsValid id (s, ok ids) v = v
with_id-IsValid id (s, err e) v = v

pub enqueue-IsValid :
    (s : Store) (ts : List Task)
    → All (λ t. t.status ≡ pending) ts
    → IsValid s
    → IsValid (enqueue s ts).0
unfolding enqueue
enqueue-IsValid s [] p v = v
enqueue-IsValid s (t ∷ ts) p v = elim (Option-cases (conflict s t)) [
  | inr (holder, e) ↦ rw (e, enqueue) v
  | inl e ↦
      rw (e, enqueue)
        (with_id-IsValid (task_id (suc s.seq)) (enqueue (insert s t) ts)
          (enqueue-IsValid (insert s t) ts p.1 (insert-IsValid s t v p.0 e)))
]
