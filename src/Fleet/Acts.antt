-- ===== src/Fleet/Acts.antt =====
-- Enqueueing and claiming keep the tasks within their budgets.
use mathlib.Core.Path.{subst}
use gotasks.Task.{Task, err, ClaimOptions, Result, Time, ok}
use gotasks.Prelude.Text.{Text}
use gotasks.Prelude.{
  suc, List, ◌∷◌, inl, inr, refl, arith, ◌≡◌, All-map, ℕ, Option, [], All, some, ap, zero, none,
  Option-cases,
}
use gotasks.MemStore.TaskMap.{All-put, All-put_others, All-find}
use gotasks.MemStore.State.{put_task, Store, task_id}
use gotasks.MemStore.Invariant.Insert.{insert-IsValid}
use gotasks.MemStore.Invariant.Calls.{claim_one-IsValid}
use gotasks.MemStore.Invariant.{IsIssued, IsValid, IsIssued-mono}
use gotasks.MemStore.Enqueue.{conflict, insert, with_id}
use gotasks.MemStore.Claim.Choice.{claim_one-Taken}
use gotasks.MemStore.Claim.{or_none_claimed, claim_loop, or_no_task, claim_one, after_claim}
use gotasks.Fleet.Budget.{other-Good, Proper-mono, new-Good, Good, IsOrderly, claimed-Good}
use gotasks.MemStore.Enqueue.{enqueue}
use gotasks.MemStore.Claim.{claimed}
use gotasks.Fleet.{IsNew, handed_one, handed_batch, hand_all, Fleet}

with_id-store_of : (id : Text) (r : Store × Result (List Text)) → (with_id id r).0 ≡ r.0
with_id-store_of id (s, ok ids) = refl
with_id-store_of id (s, err e) = refl

-- The store, with the copies that are out.
abbrev pub Orderly : ℕ → List Task → Store → Type 0
Orderly r hs s = IsOrderly r (record { store = s; handed = hs })

pub put-Orderly :
    (r : ℕ) (hs : List Task) (s : Store) (c : Task)
    → Good hs r c
    → IsValid (record s { tasks = put_task c s.tasks })
    → Orderly r hs s
    → Orderly r hs (record s { tasks = put_task c s.tasks })
put-Orderly r hs s c g v o = record {
  valid = v;
  good = All-put (Good hs r) c s.tasks g o.good;
  proper = o.proper;
}

pub enqueue-Orderly :
    (r : ℕ) (hs : List Task) (s : Store) (ts : List Task)
    → All IsNew ts
    → Orderly r hs s
    → Orderly r hs (enqueue s ts).0
unfolding enqueue
enqueue-Orderly r hs s [] p o = o
enqueue-Orderly r hs s (t ∷ ts) p o = elim (Option-cases (conflict s t)) [
  | inr (holder, e) ↦ rw (e, enqueue) o
  | inl e ↦
      let v : IsValid (insert s t) = insert-IsValid s t o.valid p.0.0 e in
      let next : Orderly r hs (insert s t) =
        unfold insert in
        record {
          valid = v;
          good = All-put (Good hs r) _ s.tasks (new-Good hs r s.seq t p.0 o.proper) o.good;
          proper = Proper-mono s.seq (suc s.seq) hs (omega arith) o.proper;
        } in
      rw (e, enqueue)
        (rw (with_id-store_of (task_id (suc s.seq)) (enqueue (insert s t) ts))
          (enqueue-Orderly r hs (insert s t) ts p.1 next))
]

-- A claim, with the copy that it hands out.
abbrev pub handed_option : List Task → Store × Option Task → Fleet
handed_option hs (s, none) = record { store = s; handed = hs }
handed_option hs (s, some t) = record { store = s; handed = t ∷ hs }

pub claim_one-Orderly :
    (r : ℕ) (hs : List Task) (opts : ClaimOptions) (now : Time) (s : Store)
    → Orderly r hs s
    → IsOrderly r (handed_option hs (claim_one opts now s))
claim_one-Orderly r hs opts now s o = elim (claim_one-Taken opts now s o.valid.distinct) [
  | inl (_, e) ↦ rw e o
  | inr (b, found, first, e) ↦
      let c : Task = claimed opts now (suc s.seq) b in
      let g : Good hs r b = All-find (Good hs r) b.id s.tasks b o.good found in
      let mine = claimed-Good opts now s.seq r b hs first.is_claimable o.proper g in
      let id_issued =
        All-find (λ t. IsIssued task_id s.seq t.id) b.id s.tasks b o.valid.ids_issued found in
      rw e (record {
        valid = subst IsValid (ap (λ x. x.0) e) (claim_one-IsValid opts now s o.valid);
        good =
            All-put_others (Good (c ∷ hs) r) c s.tasks mine
              (All-map (Good hs r) _ s.tasks (λ t k d. other-Good c hs r t d k) o.good)
              o.valid.distinct;
        proper = (
          (
            unfold claimed in (suc s.seq, omega arith, refl),
            unfold claimed in IsIssued-mono task_id s.seq (suc s.seq) b.id (omega arith) id_issued,
            mine.0.1,
          ),
          Proper-mono s.seq (suc s.seq) hs (omega arith) o.proper,
        );
      })
]

pub claim-handed :
    (hs : List Task) (x : Store × Option Task) → handed_one hs (or_no_task x) ≡ handed_option hs x
claim-handed hs (s, none) = refl
claim-handed hs (s, some t) = refl

abbrev pub handed_list : List Task → Store × List Task → Fleet
handed_list hs (s, ts) = record { store = s; handed = hand_all ts hs }

pub batch-handed :
    (hs : List Task) (x : Store × List Task)
    → handed_batch hs (or_none_claimed x) ≡ handed_list hs x
batch-handed hs (s, []) = refl
batch-handed hs (s, t ∷ ts) = refl

after_claim-Orderly :
    (r : ℕ) (hs : List Task) (rest : Store → Store × List Task) (x : Store × Option Task)
    → ((gs : List Task) (s : Store) → Orderly r gs s → IsOrderly r (handed_list gs (rest s)))
    → IsOrderly r (handed_option hs x)
    → IsOrderly r (handed_list hs (after_claim rest x))
after_claim-Orderly r hs rest (s, none) k o = o
after_claim-Orderly r hs rest (s, some t) k o = k (t ∷ hs) s o

pub claim_loop-Orderly :
    (r k : ℕ) (opts : ClaimOptions) (now : Time) (hs : List Task) (s : Store)
    → Orderly r hs s
    → IsOrderly r (handed_list hs (claim_loop k opts now s))
unfolding claim_loop
claim_loop-Orderly r zero opts now hs s o = o
claim_loop-Orderly r (suc k) opts now hs s o =
    after_claim-Orderly r hs (claim_loop k opts now) (claim_one opts now s)
      (λ gs s' o'. claim_loop-Orderly r k opts now gs s' o') (claim_one-Orderly r hs opts now s o)
