-- ===== src/Mongo/Registry/Guard.antt =====
-- The drift guard of registry.go, while managers only register queues: nobody overwrites a policy.
use gotasks.Task.{
  not_found, lease_lost, Time, queue_conflict, QueuePolicy, no_task, duplicate, StoreError, other,
}
use gotasks.Prelude.Text.{Text}
use gotasks.Prelude.Int.{wrap64, wrap64-pos, quot_ℤ, ◌*ℤ◌, two63, pos, eqb_ℤ-refl, ℤ}
use gotasks.Prelude.{
  ◌∙◌, arith, ℕ, Bool, false, [], Bool-cases, All, ◌≡◌, ap, true, some, ◌⊎◌, ◌<◌, refl, ◌∷◌, ◌*◌,
  inl, inr, List, none, Option,
}
use gotasks.Mongo.Registry.{
  QueueDocs, looked_up, milliseconds, to_policy, QueueDoc, compared, register_queues, agrees, GoOn,
  to_queue_doc, millisecond, reread,
}
use gotasks.Mongo.Driver.{Reply, got, lost}
use gotasks.Mongo.Registry.{inserted}

-- What is registered stays as it is.
abbrev pub Kept : (c : QueueDocs) → c.State → c.State → Type 0
Kept c s s' =
    (n : Text) (d : QueueDoc) → c.registered_doc n s ≡ some d → c.registered_doc n s' ≡ some d

-- The documented behaviour, where the other clients register queues at most.
pub record IsQueueDocs (c : QueueDocs) : Type 0 where
  pub find_one-Kept : (n : Text) (s : c.State) → Kept c s (c.find_one n s).0
  pub finds :
      (n : Text) (s : c.State) (r : Option QueueDoc)
      → (c.find_one n s).1 ≡ got r
      → c.registered_doc n (c.find_one n s).0 ≡ r
  pub insert_one-Kept : (d : QueueDoc) (s : c.State) → Kept c s (c.insert_one d s).0
  pub inserts :
      (d : QueueDoc) (s : c.State)
      → (c.insert_one d s).1 ≡ got true
      → c.registered_doc d.name (c.insert_one d s).0 ≡ some d

to_queue_doc-agrees : (q : QueuePolicy) (now : Time) → agrees (to_queue_doc q now) q ≡ true
unfolding agrees to_queue_doc
to_queue_doc-agrees q now = rw (eqb_ℤ-refl (milliseconds q.ttl), eqb_ℤ-refl q.max_attempts) refl

module _ (c : QueueDocs) where
  -- The queue is registered with a policy that agrees, or with one that does not.
  abbrev pub Registered : Bool → c.State → QueuePolicy → Type 0
  Registered b s q = (d : QueueDoc) × (c.registered_doc q.name s ≡ some d) × (agrees d q ≡ b)

  abbrev pub Somewhere : (QueuePolicy → Type 0) → List QueuePolicy → Type 0
  Somewhere P [] = ⊥
  Somewhere P (q ∷ qs) = P q ⊎ Somewhere P qs

  -- By the result: all queues are registered as declared, or one is registered differently.
  abbrev pub Guarded : List QueuePolicy → c.State × Option StoreError → Type 0
  Guarded qs (s, none) = All (Registered true s) qs
  Guarded qs (s, some queue_conflict) = Somewhere (Registered false s) qs
  Guarded qs (s, some e) = e ≡ other

  Kept-trans : (s t u : c.State) → Kept c s t → Kept c t u → Kept c s u
  Kept-trans s t u p q n d h = q n d (p n d h)

  Registered-Kept :
      (b : Bool) (s t : c.State) (q : QueuePolicy)
      → Kept c s t
      → Registered b s q
      → Registered b t q
  Registered-Kept b s t q k (d, there, a) = (d, k q.name d there, a)

  module _ (h : IsQueueDocs c) where
    -- From `s` on, with the first queue `q` yet to register.
    abbrev Fine : QueuePolicy → List QueuePolicy → c.State → c.State × Option StoreError → Type 0
    Fine q qs s r = Kept c s r.0 × Guarded (q ∷ qs) r

    abbrev GoesOn : List QueuePolicy → GoOn c → Type 0
    GoesOn qs go_on = (s : c.State) → Kept c s (go_on s).0 × Guarded qs (go_on s)

    with_first :
        (q : QueuePolicy) (qs : List QueuePolicy) (s : c.State) (r : c.State × Option StoreError)
        → Registered true s q
        → Kept c s r.0 × Guarded qs r
        → Fine q qs s r
    with_first q qs s (s', none) own (k, g) = (k, (Registered-Kept true s s' q k own, g))
    with_first q qs s (s', some queue_conflict) own (k, g) = (k, inr g)
    with_first q qs s (s', some no_task) own (k, g) = (k, g)
    with_first q qs s (s', some lease_lost) own (k, g) = (k, g)
    with_first q qs s (s', some not_found) own (k, g) = (k, g)
    with_first q qs s (s', some other) own (k, g) = (k, g)
    with_first q qs s (s', some (duplicate key id)) own (k, g) = (k, g)

    compared-Fine :
        (go_on : GoOn c) (q : QueuePolicy) (qs : List QueuePolicy) (s : c.State) (d : QueueDoc)
        → GoesOn qs go_on
        → c.registered_doc q.name s ≡ some d
        → Fine q qs s (compared c go_on q s d)
    compared-Fine go_on q qs s d g there = elim (Bool-cases (agrees d q)) [
      | inl same ↦ rw same (with_first q qs s (go_on s) (d, there, same) (g s))
      | inr differs ↦ rw differs ((λ n e x. x), inl (d, there, differs))
    ]

    reread-Fine :
        (go_on : GoOn c) (q : QueuePolicy) (qs : List QueuePolicy) (s : c.State)
        (r : c.State × Reply (Option QueueDoc))
        → GoesOn qs go_on
        → Kept c s r.0
        → ((x : Option QueueDoc) → r.1 ≡ got x → c.registered_doc q.name r.0 ≡ x)
        → Fine q qs s (reread c go_on q r)
    reread-Fine go_on q qs s (s', lost) g k there = (k, refl)
    reread-Fine go_on q qs s (s', got none) g k there = (k, refl)
    reread-Fine go_on q qs s (s', got (some d)) g k there =
        let f = compared-Fine go_on q qs s' d g (there (some d) refl) in
        (Kept-trans s s' _ k f.0, f.1)

    inserted-Fine :
        (go_on : GoOn c) (q : QueuePolicy) (qs : List QueuePolicy) (now : Time) (s : c.State)
        (r : c.State × Reply Bool)
        → GoesOn qs go_on
        → Kept c s r.0
        → (r.1 ≡ got true → c.registered_doc q.name r.0 ≡ some (to_queue_doc q now))
        → Fine q qs s (inserted c go_on q r)
    inserted-Fine go_on q qs now s (s', lost) g k there = (k, refl)
    inserted-Fine go_on q qs now s (s', got true) g k there =
        let f =
          with_first q qs s' (go_on s') (to_queue_doc q now, there refl, to_queue_doc-agrees q now)
            (g s') in
        (Kept-trans s s' _ k f.0, f.1)
    inserted-Fine go_on q qs now s (s', got false) g k there =
        reread-Fine go_on q qs s (c.find_one q.name s') g
          (Kept-trans s s' _ k (h.find_one-Kept q.name s')) (h.finds q.name s')

    looked_up-Fine :
        (go_on : GoOn c) (q : QueuePolicy) (qs : List QueuePolicy) (now : Time) (s : c.State)
        (r : c.State × Reply (Option QueueDoc))
        → GoesOn qs go_on
        → Kept c s r.0
        → ((x : Option QueueDoc) → r.1 ≡ got x → c.registered_doc q.name r.0 ≡ x)
        → Fine q qs s (looked_up c go_on q now r)
    unfolding to_queue_doc
    looked_up-Fine go_on q qs now s (s', lost) g k there = (k, refl)
    looked_up-Fine go_on q qs now s (s', got none) g k there =
        let d = to_queue_doc q now in
        inserted-Fine go_on q qs now s (c.insert_one d s') g
          (Kept-trans s s' _ k (h.insert_one-Kept d s')) (h.inserts d s')
    looked_up-Fine go_on q qs now s (s', got (some d)) g k there =
        let f = compared-Fine go_on q qs s' d g (there (some d) refl) in
        (Kept-trans s s' _ k f.0, f.1)

-- The drift guard: where managers only register queues, a registration changes no registered policy,
-- and afterwards every declared queue is registered with an agreeing policy if there was no error,
-- and one of them with a differing policy if the error is ErrQueueConflict; no other error of the
-- store's own is returned.
pub register_queues-Guarded :
    (c : QueueDocs) (h : IsQueueDocs c) (qs : List QueuePolicy) (now : Time) (s : c.State)
    → Kept c s (register_queues c qs now s).0 × Guarded c qs (register_queues c qs now s)
unfolding register_queues
register_queues-Guarded c h [] now s = ((λ n d x. x), tt)
register_queues-Guarded c h (q ∷ qs) now s =
    looked_up-Fine c h (λ s'. register_queues c qs now s') q qs now s (c.find_one q.name s)
      (λ s'. register_queues-Guarded c h qs now s') (h.find_one-Kept q.name s) (h.finds q.name s)

milliseconds-whole : (k : ℕ) → milliseconds (pos (k * millisecond)) ≡ pos k
unfolding quot_ℤ
milliseconds-whole k = ground arith

times_millisecond : (k : ℕ) → pos k *ℤ pos millisecond ≡ pos (k * millisecond)
unfolding ◌*ℤ◌
times_millisecond k = ground arith

-- A policy with a TTL of a whole number of milliseconds that is no longer than a time.Duration can
-- be comes back from its document unchanged.
pub to_policy-to_queue_doc :
    (name : Text) (k : ℕ) (attempts : ℤ) (now : Time)
    → k * millisecond < two63
    → to_policy (
        to_queue_doc
          (record { name = name; ttl = pos (k * millisecond); max_attempts = attempts })
          now)
      ≡ record { name = name; ttl = pos (k * millisecond); max_attempts = attempts }
unfolding to_policy to_queue_doc
to_policy-to_queue_doc name k attempts now h =
    ap (λ t. record { name = name; ttl = t; max_attempts = attempts })
      (ap (λ t. wrap64 (t *ℤ pos millisecond)) (milliseconds-whole k)
        ∙ ap wrap64 (times_millisecond k)
        ∙ wrap64-pos (k * millisecond) h)
