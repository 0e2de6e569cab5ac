-- ===== src/MemStore/Claim/Choice.antt =====
-- Which task claimOneLocked takes.
use gotasks.MemStore.TaskMap.{find_self, DistinctIds}
use gotasks.MemStore.Claim.Order.{earlier_trans, earlier_irrefl, earlier_cotrans}
use gotasks.Prelude.{
  ap, ◌⊎◌, suc, Option, refl, none, inl, inr, Bool-cases, ◌≡◌, true, false, some, List, [], ◌∷◌,
  All,
}
use gotasks.Task.{ok, no_task, err, Task, Time, ClaimOptions}
use gotasks.MemStore.State.{put_task, Store, find_task}
use gotasks.MemStore.Claim.{
  or_no_task, claimed, take_best, claim_one, claim, improve, pick, claimable, earlier,
}

module _ (opts : ClaimOptions) (now : Time) where
  -- `b` is claimable, and no claimable task of the list is earlier.
  pub record IsFirst (b : Task) (ts : List Task) : Type 0 where
    pub is_claimable : claimable opts now b ≡ true
    pub is_least : All (λ t. claimable opts now t ≡ true → earlier t b ≡ false) ts

  -- What the loop returns from a claimable start, a member of whatever holds of all it has seen.
  record Picked (P : Task → Type 0) (start : Task) (ts : List Task) : Type 0 where
    best : Task
    found : pick opts now (some start) ts ≡ some best
    member : P best
    not_after_start : earlier start best ≡ false
    first : IsFirst best ts

  not_after :
      (t start best : Task)
      → earlier start best ≡ false
      → earlier t start ≡ false
      → earlier t best ≡ false
  not_after t start best h n = elim (Bool-cases (earlier t best)) [
    | inr after ↦ after
    | inl before_best ↦ elim (earlier_cotrans t best start before_best) [
      | inl a ↦ absurd (cc)
      | inr b ↦ absurd (cc)
    ]
  ]

  asymmetric : (t u : Task) → earlier t u ≡ true → earlier u t ≡ false
  asymmetric t u h = elim (Bool-cases (earlier u t)) [
    | inr n ↦ n
    | inl k ↦ absurd (cc (earlier_trans t u t h k, earlier_irrefl t))
  ]

  pick-Picked :
      (P : Task → Type 0) (start : Task) (ts : List Task)
      → claimable opts now start ≡ true
      → P start
      → All P ts
      → Picked P start ts
  unfolding pick improve
  pick-Picked P start [] c p a = record {
    best = start;
    found = refl;
    member = p;
    not_after_start = earlier_irrefl start;
    first = record { is_claimable = c; is_least = tt };
  }
  pick-Picked P start (t ∷ ts) c p a = elim (Bool-cases (claimable opts now t)) [
    | inr skipped ↦
        let r = pick-Picked P start ts c p a.1 in
        record {
          best = r.best;
          found = rw skipped r.found;
          member = r.member;
          not_after_start = r.not_after_start;
          first = record {
            is_claimable = r.first.is_claimable;
            is_least = (λ h. cc, r.first.is_least);
          };
        }
    | inl taken ↦ elim (Bool-cases (earlier t start)) [
      | inl sooner ↦
          let r = pick-Picked P t ts taken a.0 a.1 in
          record {
            best = r.best;
            found = rw (taken, improve, sooner) r.found;
            member = r.member;
            not_after_start =
                not_after start t r.best r.not_after_start (asymmetric t start sooner);
            first = record {
              is_claimable = r.first.is_claimable;
              is_least = (λ h. r.not_after_start, r.first.is_least);
            };
          }
      | inr later ↦
          let r = pick-Picked P start ts c p a.1 in
          record {
            best = r.best;
            found = rw (taken, improve, later) r.found;
            member = r.member;
            not_after_start = r.not_after_start;
            first = record {
              is_claimable = r.first.is_claimable;
              is_least = (λ h. not_after t start r.best r.not_after_start later, r.first.is_least);
            };
          }
    ]
  ]

  abbrev pub NoneClaimable : List Task → Type 0
  NoneClaimable = All (λ t. claimable opts now t ≡ false)

  -- From an empty start the loop finds nothing, or a first task of which holds what holds of all.
  pub pick-cases :
      (P : Task → Type 0) (ts : List Task)
      → All P ts
      → (NoneClaimable ts × (pick opts now none ts ≡ none))
        ⊎ ((b : Task) × P b × IsFirst b ts × (pick opts now none ts ≡ some b))
  unfolding pick improve
  pick-cases P [] a = inl (tt, refl)
  pick-cases P (t ∷ ts) a = elim (Bool-cases (claimable opts now t)) [
    | inr skipped ↦ elim (pick-cases P ts a.1) [
      | inl (none_left, e) ↦ inl ((skipped, none_left), rw skipped e)
      | inr (b, p, f, e) ↦ inr (
        b,
        p,
        record { is_claimable = f.is_claimable; is_least = (λ h. absurd (cc), f.is_least) },
        rw skipped e,
      )
    ]
    | inl taken ↦
        let r = pick-Picked P t ts taken a.0 a.1 in
        inr (
          r.best,
          r.member,
          record {
            is_claimable = r.first.is_claimable;
            is_least = (λ h. r.not_after_start, r.first.is_least);
          },
          rw (taken, improve) r.found,
        )
  ]

  -- What a claim does to the store, and the task that it hands out.
  abbrev pub claimed_store : Store → Task → Store
  claimed_store s b = record s {
    seq = suc s.seq;
    tasks = put_task (claimed opts now (suc s.seq) b) s.tasks;
  }

  abbrev pub Taken : Store → Store × Option Task → Type 0
  Taken s r =
      (NoneClaimable s.tasks × (r ≡ (s, none)))
      ⊎ ((b : Task) × (find_task b.id s.tasks ≡ some b)
          × IsFirst b s.tasks
          × (r ≡ (claimed_store s b, some (claimed opts now (suc s.seq) b))))

  pub claim_one-Taken : (s : Store) → DistinctIds s.tasks → Taken s (claim_one opts now s)
  unfolding claim_one take_best
  claim_one-Taken s d =
      elim (pick-cases (λ t. find_task t.id s.tasks ≡ some t) s.tasks (find_self s.tasks d)) [
        | inl (none_left, e) ↦ inl (none_left, rw e)
        | inr (b, p, f, e) ↦ inr (b, p, f, rw e)
      ]

  -- With distinct ids a claim fails with ErrNoTask exactly on a store with nothing to claim, which
  -- it leaves as it was; otherwise it takes a claimable task that no claimable task precedes in (run_at, id), and
  -- changes that task alone.
  pub claim-Taken :
      (s : Store)
      → DistinctIds s.tasks
      → (NoneClaimable s.tasks × (claim opts now s ≡ (s, err no_task)))
        ⊎ ((b : Task) × (find_task b.id s.tasks ≡ some b)
            × IsFirst b s.tasks
            × (claim opts now s ≡ (claimed_store s b, ok (claimed opts now (suc s.seq) b))))
  unfolding claim
  claim-Taken s d = elim (claim_one-Taken s d) [
    | inl (none_left, e) ↦ inl (none_left, ap or_no_task e)
    | inr (b, p, f, e) ↦ inr (b, p, f, ap or_no_task e)
  ]
