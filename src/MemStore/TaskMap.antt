-- ===== src/MemStore/TaskMap.antt =====
-- The laws of memstore's task map: what a lookup finds after an assignment or a sweep, and which
-- properties of all tasks, or of all pairs of tasks, these keep.
use mathlib.Core.Option
use gotasks.Prelude.{
  ◌∙◌, ap, count_if, suc, Pairwise-image, Bool, ℕ, ◌≡◌, refl, true, false, some, List, [], ◌∷◌, map,
  arith, All, Pairwise, if◌then◌else◌, inl, inr, Bool-cases,
}
use gotasks.Prelude.Text.{text_eq_refl, Text, text_eq, text_eq_iff}
use gotasks.Prelude.Decimal.{decimal-injective}
use gotasks.Task.{Task}
use gotasks.MemStore.State.{find_task, put_task, task_id, lease_token}

pub find-put :
    (j : Text) (c : Task) (ts : List Task)
    → find_task j (put_task c ts) ≡ (if text_eq c.id j then some c else find_task j ts)
unfolding find_task put_task
find-put j c [] = refl
find-put j c (t ∷ ts) =
    ground (arith, find-put j c ts, text_eq_iff t.id c.id, text_eq_iff t.id j, text_eq_iff c.id j)

-- What is found under an id has that id.
pub find-id : (j : Text) (ts : List Task) (t : Task) → find_task j ts ≡ some t → t.id ≡ j
unfolding find_task
find-id j [] t h = ground arith
find-id j (u ∷ ts) t h = ground (arith, find-id j ts t, text_eq_iff u.id j)

pub All-find {ℓ} :
    (P : Task → Type ℓ) (j : Text) (ts : List Task) (t : Task)
    → All P ts
    → find_task j ts ≡ some t
    → P t
unfolding find_task
All-find P j [] t a h = ground arith
All-find P j (u ∷ ts) t a h = elim (Bool-cases (text_eq u.id j)) [
  | inl hit ↦ let e : u ≡ t = ground arith in rw (← e) a.0
  | inr miss ↦ All-find P j ts t a.1 (ground arith)
]

pub All-put {ℓ} :
    (P : Task → Type ℓ) (c : Task) (ts : List Task) → P c → All P ts → All P (put_task c ts)
unfolding put_task
All-put P c [] p a = (p, tt)
All-put P c (t ∷ ts) p a = elim (Bool-cases (text_eq t.id c.id)) [
  | inl hit ↦ rw hit (p, a.1)
  | inr miss ↦ rw miss (a.0, All-put P c ts p a.1)
]

-- A relation between all pairs survives an assignment if the new task stands in it, both ways
-- round, to every task of another id.
pub Pairwise-put {ℓ} :
    (R : Task → Task → Type ℓ) (c : Task) (ts : List Task)
    → All (λ t. text_eq t.id c.id ≡ false → R c t × R t c) ts
    → Pairwise (λ t u. text_eq t.id u.id ≡ false) ts
    → Pairwise R ts
    → Pairwise R (put_task c ts)
unfolding put_task
Pairwise-put R c [] f d a = (tt, tt)
Pairwise-put R c (t ∷ ts) f d a = elim (Bool-cases (text_eq t.id c.id)) [
  | inl hit ↦ rw hit (others ts f.1 d.0 hit, a.1)
  | inr miss ↦ rw miss (All-put (R t) c ts (f.0 miss).1 a.0, Pairwise-put R c ts f.1 d.1 a.1)
]
  where
    others :
        (us : List Task)
        → All (λ u. text_eq u.id c.id ≡ false → R c u × R u c) us
        → All (λ u. text_eq t.id u.id ≡ false) us
        → text_eq t.id c.id ≡ true
        → All (R c) us
    others [] g e h = tt
    others (u ∷ us) g e h = (
      (g.0 (ground (arith, text_eq_iff t.id c.id, text_eq_iff u.id c.id, text_eq_iff t.id u.id))).0,
      others us g.1 e.1 h,
    )

-- A sweep that keeps ids sends what is found to its image.
pub find-map :
    (f : Task → Task) (j : Text) (ts : List Task)
    → ((t : Task) → (f t).id ≡ t.id)
    → find_task j (map f ts) ≡ Option.map f (find_task j ts)
unfolding find_task
find-map f j [] k = refl
find-map f j (t ∷ ts) k = ground (arith, k t, find-map f j ts k)

pub task_id-injective : (m n : ℕ) → task_id m ≡ task_id n → m ≡ n
unfolding task_id
task_id-injective m n e = decimal-injective m n (cc)

pub lease_token-injective : (m n : ℕ) → lease_token m ≡ lease_token n → m ≡ n
unfolding lease_token
lease_token-injective m n e = decimal-injective m n (cc)

abbrev pub DistinctIds : List Task → Type 0
DistinctIds = Pairwise (λ t u. text_eq t.id u.id ≡ false)

-- Under distinct ids a task is what its own id finds.
pub find_self : (ts : List Task) → DistinctIds ts → All (λ t. find_task t.id ts ≡ some t) ts
unfolding find_task
find_self [] d = tt
find_self (t ∷ ts) d = (
  ground (arith, text_eq_refl t.id),
  step ts (λ u. find_task u.id ts ≡ some u) d.0 (find_self ts d.1),
)
  where
    step :
        (us : List Task) (P : Task → Type 0)
        → All (λ u. text_eq t.id u.id ≡ false) us
        → All (λ u. find_task u.id ts ≡ some u) us
        → All (λ u. find_task u.id (t ∷ ts) ≡ some u) us
    step [] P a b = tt
    step (u ∷ us) P a b = (ground arith, step us P a.1 b.1)

text_eq_sym : (a b : Text) → text_eq a b ≡ false → text_eq b a ≡ false
text_eq_sym a b h = ground (arith, text_eq_iff a b, text_eq_iff b a)

-- An assignment keeps ids distinct, whatever it stores.
pub put-DistinctIds : (c : Task) (ts : List Task) → DistinctIds ts → DistinctIds (put_task c ts)
put-DistinctIds c ts d = Pairwise-put _ c ts (apart ts) d d
  where
    apart :
        (us : List Task)
        → All
            (λ t.
              text_eq t.id c.id ≡ false → (text_eq c.id t.id ≡ false) × (text_eq t.id c.id ≡ false))
            us
    apart [] = tt
    apart (u ∷ us) = (λ h. (text_eq_sym u.id c.id h, h), apart us)

pub map-DistinctIds :
    (f : Task → Task) (ts : List Task)
    → ((t : Task) → (f t).id ≡ t.id)
    → DistinctIds ts
    → DistinctIds (map f ts)
map-DistinctIds f ts k = Pairwise-image f _ ts (λ t u h. rw (k t, k u) h)

-- Replacing a task that passes a test by one that fails it takes one from the count.
pub count_if-put :
    (p : Task → Bool) (c b : Task) (ts : List Task)
    → find_task c.id ts ≡ some b
    → p b ≡ true
    → p c ≡ false
    → suc (count_if p (put_task c ts)) ≡ count_if p ts
unfolding find_task put_task
count_if-put p c b [] f h k = ground arith
count_if-put p c b (t ∷ ts) f h k = ground (arith, count_if-put p c b ts)

-- What is found under some id is found under its own.
pub find_own :
    (j : Text) (ts : List Task) (t : Task) → find_task j ts ≡ some t → find_task t.id ts ≡ some t
find_own j ts t h = ap (λ id. find_task id ts) (find-id j ts t h) ∙ h

-- An assignment leaves what holds of the tasks of other ids, and of the new task, true of all.
pub All-put_others {ℓ} :
    (P : Task → Type ℓ) (c : Task) (ts : List Task)
    → P c
    → All (λ t. text_eq t.id c.id ≡ false → P t) ts
    → DistinctIds ts
    → All P (put_task c ts)
unfolding put_task
All-put_others P c [] p a d = (p, tt)
All-put_others P c (t ∷ ts) p a d = elim (Bool-cases (text_eq t.id c.id)) [
  | inl hit ↦ rw hit (p, others ts a.1 d.0 hit)
  | inr miss ↦ rw miss (a.0 miss, All-put_others P c ts p a.1 d.1)
]
  where
    others :
        (us : List Task)
        → All (λ u. text_eq u.id c.id ≡ false → P u) us
        → All (λ u. text_eq t.id u.id ≡ false) us
        → text_eq t.id c.id ≡ true
        → All P us
    others [] g e h = tt
    others (u ∷ us) g e h = (
      g.0 (ground (arith, text_eq_iff t.id c.id, text_eq_iff u.id c.id, text_eq_iff t.id u.id)),
      others us g.1 e.1 h,
    )
