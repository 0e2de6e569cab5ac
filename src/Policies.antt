-- ===== src/Policies.antt =====
-- map[string]QueuePolicy, which both memstore's registry and the manager's `queues` are: the list
-- of its values, each under its own name.
use gotasks.Task.{QueuePolicy}
use gotasks.Prelude.Text.{text_eq, Text, text_eq_iff}
use gotasks.Prelude.{refl, arith, Option, ◌∷◌, ◌≡◌, List, [], some, if◌then◌else◌, none}

-- policy, ok := m[name]
unfoldable pub find_policy : Text → List QueuePolicy → Option QueuePolicy
find_policy name [] = none
find_policy name (q ∷ qs) = if text_eq q.name name then some q else find_policy name qs

-- m[q.Name] = q
unfoldable pub put_policy : QueuePolicy → List QueuePolicy → List QueuePolicy
put_policy c [] = c ∷ []
put_policy c (q ∷ qs) = if text_eq q.name c.name then c ∷ qs else q ∷ put_policy c qs

pub find-put_policy :
    (n : Text) (c : QueuePolicy) (qs : List QueuePolicy)
    → find_policy n (put_policy c qs) ≡ (if text_eq c.name n then some c else find_policy n qs)
unfolding find_policy put_policy
find-put_policy n c [] = refl
find-put_policy n c (q ∷ qs) = ground (
  arith,
  find-put_policy n c qs,
  text_eq_iff q.name c.name,
  text_eq_iff q.name n,
  text_eq_iff c.name n,
)

-- What is found under a name has that name.
pub find_policy-name :
    (n : Text) (qs : List QueuePolicy) (q : QueuePolicy) → find_policy n qs ≡ some q → q.name ≡ n
unfolding find_policy
find_policy-name n [] q h = ground arith
find_policy-name n (p ∷ qs) q h = ground (arith, find_policy-name n qs q, text_eq_iff p.name n)
