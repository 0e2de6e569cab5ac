-- ===== src/Fleet/Budget.antt =====
-- What holds of every stored task: its attempts are within its budget, the copies under its lease are
-- true to it, and it was not handed out more often than its attempts say.
use gotasks.Prelude.Text.{text_eq_iff, Text, text_eq_refl, text_eq}
use gotasks.Prelude.Int.{◌≤ℤ◌, pos, ◌<ℤ◌, pos_part}
use gotasks.Prelude.{
  List, Bool, ◌≡◌, ◌∷◌, suc, arith, ℕ, All, ◌≤◌, false, count_if, [], zero, refl, true, All-map,
  ◌+◌,
}
use gotasks.MemStore.State.{task_id, lease_token}
use gotasks.MemStore.Invariant.Insert.{fresh_name}
use gotasks.MemStore.Invariant.{IsIssued, IsValid, IsIssued-mono}
use gotasks.MemStore.Calls.Fencing.{holds_lease, token_fresh}
use gotasks.Fleet.{Fleet, IsNew, runs_of}
use gotasks.MemStore.Claim.{claimable, runnable, claimed}
use gotasks.Task.{pending, running, Task, status_eq, ClaimOptions, Time}

-- r * m
abbrev pub times : ℕ → ℕ → ℕ
times zero m = 0
times (suc r) m = times r m + m

abbrev pub Within : Task → Type 0
Within t =
    (pos 1 ≤ℤ t.max_attempts)
    × (pos t.attempts ≤ℤ t.max_attempts)
    × (t.status ≡ pending → pos t.attempts <ℤ t.max_attempts)

abbrev pub Truthful : Task → Task → Type 0
Truthful t c =
    holds_lease c.id c.lease_token t ≡ true
    → (c.attempts ≡ t.attempts) × (c.max_attempts ≡ t.max_attempts)

abbrev pub Counted : List Task → ℕ → Task → Type 0
Counted hs r t = runs_of t.id hs ≤ t.attempts + times r (pos_part t.max_attempts)

abbrev pub Good : List Task → ℕ → Task → Type 0
Good hs r t = Within t × All (Truthful t) hs × Counted hs r t

-- A copy's token and id were issued, and its own numbers are within the budget.
abbrev pub Proper : ℕ → Task → Type 0
Proper n c =
    IsIssued lease_token n c.lease_token
    × IsIssued task_id n c.id
    × (pos c.attempts ≤ℤ c.max_attempts)

pub record IsOrderly (r : ℕ) (f : Fleet) : Type 0 where
  pub valid : IsValid f.store
  pub good : All (Good f.handed r) f.store.tasks
  pub proper : All (Proper f.store.seq) f.handed

pub Proper-mono : (m n : ℕ) (hs : List Task) → m ≤ n → All (Proper m) hs → All (Proper n) hs
Proper-mono m n hs le = All-map (Proper m) (Proper n) hs (λ c p. (
  IsIssued-mono lease_token m n c.lease_token le p.0,
  IsIssued-mono task_id m n c.id le p.1,
  p.2,
))

-- Nothing runs under the lease of a copy in a task that is not running.
pub idle-Truthful :
    (t : Task) (hs : List Task) → status_eq t.status running ≡ false → All (Truthful t) hs
unfolding holds_lease
idle-Truthful t [] h = tt
idle-Truthful t (c ∷ hs) h = (λ k. ground arith, idle-Truthful t hs h)

-- A change that takes the lease away and keeps the attempts.
pub idle-Good :
    (hs : List Task) (r : ℕ) (u v : Task)
    → v.id ≡ u.id
    → v.attempts ≡ u.attempts
    → v.max_attempts ≡ u.max_attempts
    → status_eq v.status running ≡ false
    → (v.status ≡ pending → pos u.attempts <ℤ u.max_attempts)
    → Good hs r u
    → Good hs r v
idle-Good hs r u v i a m idle left g =
    (rw (a, m) (g.0.0, g.0.1, left), idle-Truthful v hs idle, rw (i, a, m) g.2)

-- A requeued task starts its attempts over.
pub revived-Good :
    (hs : List Task) (r : ℕ) (u v : Task)
    → v.id ≡ u.id
    → v.attempts ≡ 0
    → v.max_attempts ≡ u.max_attempts
    → v.status ≡ pending
    → Good hs r u
    → Good hs (suc r) v
revived-Good hs r u v i a m p g = (
  rw (a, m) (g.0.0, ground arith, λ _. ground arith),
  idle-Truthful v hs (rw p refl),
  rw (i, a, m) (ground arith),
)

pub Good-later : (hs : List Task) (r : ℕ) (t : Task) → Good hs r t → Good hs (suc r) t
Good-later hs r t g = (g.0, g.1, omega (arith, g.2))

pub count-none : (p : Task → Bool) (hs : List Task) → All (λ c. p c ≡ false) hs → count_if p hs ≡ 0
count-none p [] h = refl
count-none p (c ∷ hs) h = ground (arith, count-none p hs h.1)

-- A task that the store has just added was never handed out.
pub new-Good :
    (hs : List Task) (r n : ℕ) (t : Task)
    → IsNew t
    → All (Proper n) hs
    → Good hs r (record t { id = task_id (suc n) })
new-Good hs r n t (p, a, m) h = (
  (m, omega arith, λ _. omega arith),
  idle-Truthful (record t { id = task_id (suc n) }) hs (rw p refl),
  rw (count-none _ hs (All-map _ _ hs (λ c k. fresh_name n c.id k.1) h)) (omega arith),
)

-- A fresh token is that of no copy.
fresh-Truthful :
    (c : Task) (n : ℕ) (hs : List Task)
    → c.lease_token ≡ lease_token (suc n)
    → All (Proper n) hs
    → All (Truthful c) hs
unfolding holds_lease
fresh-Truthful c n [] e h = tt
fresh-Truthful c n (x ∷ hs) e h =
    (λ k. ground (arith, token_fresh n x.lease_token h.0.0), fresh-Truthful c n hs e h.1)

pub claimed-Good :
    (opts : ClaimOptions) (now : Time) (n r : ℕ) (b : Task) (hs : List Task)
    → claimable opts now b ≡ true
    → All (Proper n) hs
    → Good hs r b
    → Good (claimed opts now (suc n) b ∷ hs) r (claimed opts now (suc n) b)
unfolding claimed claimable runnable
claimed-Good opts now n r b hs h p g = (
  (g.0.0, ground arith, λ k. ground arith),
  (λ k. (refl, refl), fresh-Truthful (claimed opts now (suc n) b) n hs refl p),
  rw (text_eq_refl b.id) (omega (arith, g.2)),
)

-- The tasks that were not claimed.
pub other-Good :
    (c : Task) (hs : List Task) (r : ℕ) (t : Task)
    → text_eq t.id c.id ≡ false
    → Good hs r t
    → Good (c ∷ hs) r t
unfolding holds_lease
other-Good c hs r t d g = (g.0, (λ k. ground arith, g.1), rw (text_eq_off t.id c.id d) g.2)
  where
    text_eq_off : (a b : Text) → text_eq a b ≡ false → text_eq b a ≡ false
    text_eq_off a b h = ground (arith, text_eq_iff a b, text_eq_iff b a)
