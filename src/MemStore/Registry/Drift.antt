-- ===== src/MemStore/Registry/Drift.antt =====
-- The drift guard of RegisterQueues in memstore.go.
use native.Mathlib.Omega.{arith}
use mathlib.Core.Path.{subst}
use gotasks.MemStore.State.{Store}
use gotasks.Task.{StoreError, queue_conflict, QueuePolicy}
use gotasks.Prelude.Text.{text_eq_refl, text_eq_iff, Text}
use gotasks.Prelude.{
  sym, ◌⊎◌, ap, Option, refl, false, if◌then◌else◌, Bool, ◌∙◌, ◌∷◌, none, All, [], arith, inr, inl,
  List, some, ◌≡◌, true,
}
use gotasks.Policies.{put_policy, find-put_policy, find_policy}
use gotasks.MemStore.Registry.{registered, register_queues, register, same_policy}

-- The registry holds the declared lifetime and attempts under the queue's name.
abbrev pub Holds : List QueuePolicy → QueuePolicy → Type 0
Holds reg q = (p : QueuePolicy) × (find_policy q.name reg ≡ some p) × (same_policy p q ≡ true)

abbrev pub Extends : List QueuePolicy → List QueuePolicy → Type 0
Extends reg reg' =
    (n : Text) (p : QueuePolicy) → find_policy n reg ≡ some p → find_policy n reg' ≡ some p

-- The three ways a round of the loop goes on.
abbrev Round :
    QueuePolicy → (qs reg : List QueuePolicy) → List QueuePolicy × Option StoreError → Type 0
Round q qs reg r =
    ((find_policy q.name reg ≡ none) × (r ≡ register qs (put_policy q reg)))
    ⊎ (Holds reg q × (r ≡ register qs reg))
    ⊎ (r ≡ (reg, some queue_conflict))

register-Round :
    (q : QueuePolicy) (qs reg : List QueuePolicy) → Round q qs reg (register (q ∷ qs) reg)
unfolding register
register-Round q qs reg = go (find_policy q.name reg) refl
  where
    chosen :
        (existing : QueuePolicy) (same : Bool)
        → find_policy q.name reg ≡ some existing
        → same_policy existing q ≡ same
        → Round q qs reg (if same then register qs reg else (reg, some queue_conflict))
    chosen existing true found agrees = inr (inl ((existing, found, agrees), refl))
    chosen existing false found differs = inr (inr refl)

    go :
        (o : Option QueuePolicy)
        → find_policy q.name reg ≡ o
        → Round q qs reg (registered q reg (register qs reg) (register qs (put_policy q reg)) o)
    go none absent = inl (absent, refl)
    go (some existing) found = chosen existing (same_policy existing q) found refl

put-Extends :
    (q : QueuePolicy) (reg : List QueuePolicy)
    → find_policy q.name reg ≡ none
    → Extends reg (put_policy q reg)
put-Extends q reg absent n p h = ground (arith, find-put_policy n q reg, text_eq_iff q.name n, h)

register-Extends : (qs reg : List QueuePolicy) → Extends reg (register qs reg).0
register-Extends [] reg n p h = unfold register in h
register-Extends (q ∷ qs) reg n p h = elim (register-Round q qs reg) [
  | inl (absent, e) ↦
      rw e (register-Extends qs (put_policy q reg) n p (put-Extends q reg absent n p h))
  | inr (inl (_, e)) ↦ rw e (register-Extends qs reg n p h)
  | inr (inr e) ↦ rw e h
]

same_policy_refl : (q : QueuePolicy) → same_policy q q ≡ true
unfolding same_policy
same_policy_refl q = ground arith

Holds-put : (q : QueuePolicy) (reg : List QueuePolicy) → Holds (put_policy q reg) q
Holds-put q reg =
    (q, find-put_policy q.name q reg ∙ rw (text_eq_refl q.name) refl, same_policy_refl q)

Holds-register :
    (q : QueuePolicy) (qs reg : List QueuePolicy) → Holds reg q → Holds (register qs reg).0 q
Holds-register q qs reg (p, found, same) = (p, register-Extends qs reg q.name p found, same)

conflict_reported : Path (Option StoreError) (some queue_conflict) none → ⊥
conflict_reported h = ground arith

register-Holds :
    (qs reg : List QueuePolicy) → (register qs reg).1 ≡ none → All (Holds (register qs reg).0) qs
register-Holds [] reg h = tt
register-Holds (q ∷ qs) reg h = elim (register-Round q qs reg) [
  | inl (absent, e) ↦
      subst (λ r. All (Holds r.0) (q ∷ qs)) (sym e)
        (
          Holds-register q qs (put_policy q reg) (Holds-put q reg),
          register-Holds qs (put_policy q reg) (ap (λ r. r.1) (sym e) ∙ h),
        )
  | inr (inl (agreed, e)) ↦
      subst (λ r. All (Holds r.0) (q ∷ qs)) (sym e)
        (Holds-register q qs reg agreed, register-Holds qs reg (ap (λ r. r.1) (sym e) ∙ h))
  | inr (inr e) ↦ absurd (conflict_reported (ap (λ r. r.1) (sym e) ∙ h))
]

-- Registering twice changes nothing more.
held-again : (qs reg : List QueuePolicy) → All (Holds reg) qs → register qs reg ≡ (reg, none)
unfolding register
held-again [] reg h = refl
held-again (q ∷ qs) reg ((p, found, same), rest) = rw (found, same) (held-again qs reg rest)

abbrev pub Registration : List QueuePolicy → Store → Store × Option StoreError → Type 0
Registration qs s (s', some e) = Extends s.registry s'.registry
Registration qs s (s', none) =
    Extends s.registry s'.registry
    × All (Holds s'.registry) qs
    × (register_queues qs s' ≡ (s', none))

-- RegisterQueues never changes a queue that is already registered, whatever it returns. If it
-- succeeds, each queue that it was given is registered with the lifetime and the attempts declared,
-- and to register the same queues again succeeds and leaves the store as it is.
pub register_queues-Registration :
    (qs : List QueuePolicy) (s : Store) → Registration qs s (register_queues qs s)
unfolding register_queues
register_queues-Registration qs s =
    go (register qs s.registry) (register-Extends qs s.registry) (register-Holds qs s.registry)
  where
    go :
        (r : List QueuePolicy × Option StoreError)
        → Extends s.registry r.0
        → (r.1 ≡ none → All (Holds r.0) qs)
        → Registration qs s (record s { registry = r.0 }, r.1)
    go (reg, some e) kept holds = kept
    go (reg, none) kept holds =
        let all_held = holds refl in (kept, all_held, rw (held-again qs reg all_held) refl)
