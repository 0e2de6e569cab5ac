-- ===== src/MemStore/Claim/Batch.antt =====
-- How many tasks ClaimBatch takes.
use gotasks.Prelude.Int.{+ℤ_parts, ◌≤ℤ◌, pos}
use gotasks.MemStore.TaskMap.{count_if-put, put-DistinctIds, DistinctIds}
use gotasks.MemStore.State.{Store}
use gotasks.MemStore.Claim.Choice.{claimed_store, claim_one-Taken, NoneClaimable}
use gotasks.Prelude.{refl, inr, inl, zero, [], arith, length, false, ◌≡◌, count_if, ℕ, List}
use gotasks.MemStore.Claim.{◌∷◌, runnable, claimed, claimable, claim_loop}
use gotasks.Task.{Task, Time, ClaimOptions}
use Prim.Native.Nat.{suc, min}

module _ (opts : ClaimOptions) (now : Time) where
  -- A task that was just claimed under a lease of zero or more is not claimable at the same instant.
  claimed-not_claimable :
      (n : ℕ) (b : Task) → pos 0 ≤ℤ opts.lease → claimable opts now (claimed opts now n b) ≡ false
  unfolding claimable claimed runnable
  claimed-not_claimable n b h = ground (arith, +ℤ_parts now opts.lease)

  NoneClaimable-count :
      (ts : List Task) → NoneClaimable opts now ts → count_if (claimable opts now) ts ≡ 0
  NoneClaimable-count [] h = refl
  NoneClaimable-count (t ∷ ts) h = ground (arith, NoneClaimable-count ts h.1)

  -- With distinct ids and a lease that is not negative, the loop of ClaimBatch takes every
  -- claimable task, or as many as it was asked for if these are fewer.
  pub length-claim_loop :
      (k : ℕ) (s : Store)
      → DistinctIds s.tasks
      → pos 0 ≤ℤ opts.lease
      → length (claim_loop k opts now s).1 ≡ min k (count_if (claimable opts now) s.tasks)
  unfolding claim_loop
  length-claim_loop zero s d h = omega arith
  length-claim_loop (suc k) s d h = elim (claim_one-Taken opts now s d) [
    | inl (none_left, e) ↦ rw (e, claim_loop) (omega (arith, NoneClaimable-count s.tasks none_left))
    | inr (b, found, first, e) ↦
        let c = claimed opts now (suc s.seq) b in
        let next = claimed_store opts now s b in
        rw (e, claim_loop)
          (omega (
            arith,
            length-claim_loop k next (put-DistinctIds c s.tasks d) h,
            count_if-put (claimable opts now) c b s.tasks (unfold claimed in found)
                first.is_claimable (claimed-not_claimable (suc s.seq) b h),
          ))
  ]
