-- ===== src/Manager/New/Queues.antt =====
-- The declared queues that New accepts.
use mathlib.Core.Path.{subst}
use gotasks.Task.{QueuePolicy}
use gotasks.Prelude.Text.{text_eq_iff, Text, text_eq, text_eq_refl}
use gotasks.Prelude.Int.{pos, ◌≤ℤ◌}
use gotasks.Prelude.{
  Pairwise, false, All-map, ◌≢◌, some, ◌∙◌, All, ◌∷◌, if◌then◌else◌, arith, [], ap, List, ◌≡◌, none,
}
use gotasks.Policies.{put_policy, find_policy, find-put_policy}
use gotasks.Manager.New.Accepted.{accept-injective}
use gotasks.Manager.New.{check_queues, accept}

pub record IsDeclared (m : List QueuePolicy) (q : QueuePolicy) : Type 0 where
  pub found : find_policy q.name m ≡ some q
  pub named : q.name ≢ []
  pub ttl_ok : pos 0 ≤ℤ q.ttl
  pub attempts_ok : pos 0 ≤ℤ q.max_attempts

-- What one accepted round of the loop has checked.
check_queue-ok :
    (q : QueuePolicy) (qs seen m : List QueuePolicy)
    → check_queues (q ∷ qs) seen ≡ accept m
    → (q.name ≢ [])
      × (pos 0 ≤ℤ q.ttl)
      × (pos 0 ≤ℤ q.max_attempts)
      × (find_policy q.name seen ≡ none)
      × (check_queues qs (put_policy q seen) ≡ accept m)
unfolding check_queues
check_queue-ok q qs seen m h = ground (arith, text_eq_iff q.name [])

-- A policy that is in the map stays there: a second declaration of its name is refused.
check_queues-keeps :
    (n : Text) (x : QueuePolicy) (qs seen m : List QueuePolicy)
    → find_policy n seen ≡ some x
    → check_queues qs seen ≡ accept m
    → find_policy n m ≡ some x
unfolding check_queues
check_queues-keeps n x [] seen m f h = subst (λ y. find_policy n y ≡ some x) (accept-injective h) f
check_queues-keeps n x (q ∷ qs) seen m f h =
    let (_, _, _, absent, rest) = check_queue-ok q qs seen m (unfold check_queues in h) in
    check_queues-keeps n x qs (put_policy q seen) m (find-put_policy n q seen ∙ kept absent) rest
  where
    kept :
        find_policy q.name seen ≡ none
        → (if text_eq q.name n then some q else find_policy n seen) ≡ some x
    kept absent = ground (arith, text_eq_iff q.name n, ap (λ k. find_policy k seen), f)

-- Every declared queue is in the manager's map under its own name and with the policy declared for
-- it; no name is empty, and no TTL or attempts budget negative.
pub check_queues-IsDeclared :
    (qs seen m : List QueuePolicy) → check_queues qs seen ≡ accept m → All (IsDeclared m) qs
check_queues-IsDeclared [] seen m h = tt
check_queues-IsDeclared (q ∷ qs) seen m h =
    let (named, ttl, attempts, _, rest) = check_queue-ok q qs seen m h in
    (
      record {
        found =
            check_queues-keeps q.name q qs (put_policy q seen) m
              (find-put_policy q.name q seen ∙ rw (text_eq_refl q.name)) rest;
        named = named;
        ttl_ok = ttl;
        attempts_ok = attempts;
      },
      check_queues-IsDeclared qs (put_policy q seen) m rest,
    )

-- Different names.
abbrev pub AreDistinct : List QueuePolicy → Type 0
AreDistinct qs = Pairwise (λ p q. text_eq p.name q.name ≡ false) qs

-- A name that the map would not have with one more policy.
absent_apart :
    (n : Text) (q : QueuePolicy) (seen : List QueuePolicy)
    → find_policy n (put_policy q seen) ≡ none
    → (text_eq q.name n ≡ false) × (find_policy n seen ≡ none)
absent_apart n q seen h = ground (arith, find-put_policy n q seen)

-- None of the declared queues is in the map already.
check_queues-absent :
    (qs seen m : List QueuePolicy)
    → check_queues qs seen ≡ accept m
    → All (λ q. find_policy q.name seen ≡ none) qs
check_queues-absent [] seen m h = tt
check_queues-absent (q ∷ qs) seen m h =
    let (_, _, _, absent, rest) = check_queue-ok q qs seen m h in
    (
      absent,
      All-map (λ x. find_policy x.name (put_policy q seen) ≡ none)
          (λ x. find_policy x.name seen ≡ none) qs (λ x k. (absent_apart x.name q seen k).1)
          (check_queues-absent qs (put_policy q seen) m rest),
    )

-- No two declared queues have the same name.
pub check_queues-AreDistinct :
    (qs seen m : List QueuePolicy) → check_queues qs seen ≡ accept m → AreDistinct qs
check_queues-AreDistinct [] seen m h = tt
check_queues-AreDistinct (q ∷ qs) seen m h =
    let (_, _, _, _, rest) = check_queue-ok q qs seen m h in
    (
      All-map (λ x. find_policy x.name (put_policy q seen) ≡ none)
          (λ x. text_eq q.name x.name ≡ false) qs (λ x k. (absent_apart x.name q seen k).0)
          (check_queues-absent qs (put_policy q seen) m rest),
      check_queues-AreDistinct qs (put_policy q seen) m rest,
    )
