-- ===== src/Fleet/Runs.antt =====
-- How often a task is handed to workers.
use mathlib.Core.Path.{subst}
use gotasks.Fleet.{
  Fleet, Act, submit, take, take_batch, end_run, renew, revive, revive_dead, sweep, act, act_all,
  copy_at, with_copy, no_work, SubmitsNew, revivals, runs_of, settled,
}
use gotasks.Fleet.Budget.{IsOrderly, times, Good}
use gotasks.Fleet.Acts.{
  Orderly, enqueue-Orderly, claim_one-Orderly, claim_loop-Orderly, claim-handed, batch-handed,
}
use gotasks.Fleet.Ends.{settled-Orderly, extended-Orderly}
use gotasks.Fleet.Revivals.{revive-Orderly, revive_dead-Orderly, sweep-Orderly}
use gotasks.MemStore.Claim.{claim, claim_batch, claim_one, claim_loop}
use gotasks.MemStore.Finalize.{extend_lease}
use gotasks.MemStore.Invariant.{IsValid-new}
use gotasks.MemStore.State.{Store, new}
use gotasks.Prelude.{
  ℕ, zero, suc, ◌+◌, ◌*◌, ◌≤◌, ◌≡◌, refl, sym, arith, List, [], ◌∷◌, All, All-map, Option, none,
  some,
}
use gotasks.Prelude.Int.{◌≤ℤ◌, pos, pos_part}
use gotasks.Task.{Task, Time}
use gotasks.Worker.{process}

-- The revivals that one act may have made.
abbrev revived_by : Act → ℕ → ℕ
revived_by (revive id) r = suc r
revived_by (revive_dead task_type) r = suc r
revived_by _ r = r

with_copy-IsOrderly :
    (r : ℕ) (f : Fleet) (work : Task → Store → Store) (x : Option Task)
    → ((t : Task) → x ≡ some t → Orderly r f.handed (work t f.store))
    → IsOrderly r f
    → IsOrderly r (with_copy work f x)
with_copy-IsOrderly r f work none k o = o
with_copy-IsOrderly r f work (some t) k o = k t refl

act-IsOrderly :
    (x : Act) (now : Time) (r : ℕ) (f : Fleet)
    → SubmitsNew x
    → IsOrderly r f
    → IsOrderly (revived_by x r) (act x now f)
unfolding act claim claim_batch
act-IsOrderly (submit ts) now r f p o = enqueue-Orderly r f.handed f.store ts p o
act-IsOrderly (take opts) now r f p o =
    subst (IsOrderly r) (sym (claim-handed f.handed (claim_one opts now f.store)))
      (claim_one-Orderly r f.handed opts now f.store o)
act-IsOrderly (take_batch opts k) now r f p o =
    subst (IsOrderly r) (sym (batch-handed f.handed (claim_loop k opts now f.store)))
      (claim_loop-Orderly r k opts now f.handed f.store o)
act-IsOrderly (end_run i m worker_id run over) now r f p o =
    with_copy-IsOrderly r f (λ t s. settled now s (process m worker_id t run over))
      (copy_at i f.handed)
      (λ t c. settled-Orderly r f.handed f.store i t m worker_id run over now c o) o
act-IsOrderly (renew i lease) now r f p o =
    with_copy-IsOrderly r f (λ t s. (extend_lease t lease now s).0) (copy_at i f.handed)
      (λ t c. extended-Orderly r f.handed f.store i t lease now c o) o
act-IsOrderly (revive id) now r f p o = revive-Orderly r f.handed f.store id now o
act-IsOrderly (revive_dead task_type) now r f p o =
    revive_dead-Orderly r f.handed f.store task_type now o
act-IsOrderly sweep now r f p o = sweep-Orderly r f.handed f.store now o

revivals-revived_by :
    (x : Act) (now : Time) (xs : List (Act × Time)) (r : ℕ)
    → revivals xs + revived_by x r ≡ revivals ((x, now) ∷ xs) + r
unfolding revivals
revivals-revived_by (submit ts) now xs r = refl
revivals-revived_by (take opts) now xs r = refl
revivals-revived_by (take_batch opts k) now xs r = refl
revivals-revived_by (end_run i m w run over) now xs r = refl
revivals-revived_by (renew i lease) now xs r = refl
revivals-revived_by (revive id) now xs r = omega arith
revivals-revived_by (revive_dead task_type) now xs r = omega arith
revivals-revived_by sweep now xs r = refl

zero_more : (r : ℕ) → r ≡ 0 + r
zero_more r = omega arith

act_all-IsOrderly :
    (xs : List (Act × Time)) (r : ℕ) (f : Fleet)
    → All (λ x. SubmitsNew x.0) xs
    → IsOrderly r f
    → IsOrderly (revivals xs + r) (act_all xs f)
unfolding act_all revivals
act_all-IsOrderly [] r f p o = subst (λ q. IsOrderly q f) (zero_more r) o
act_all-IsOrderly ((x, now) ∷ xs) r f p o =
    subst (λ q. IsOrderly q (act_all xs (act x now f))) (revivals-revived_by x now xs r)
      (act_all-IsOrderly xs (revived_by x r) (act x now f) p.1 (act-IsOrderly x now r f p.0 o))

times-mul : (r m : ℕ) → times r m ≡ r * m
times-mul zero m = omega arith
times-mul (suc r) m = grind (arith, times-mul r m)

-- The attempts of a task and its runs, for a number of revivals.
abbrev pub IsRunWithin : ℕ → List Task → Task → Type 0
IsRunWithin r hs t =
    (pos t.attempts ≤ℤ t.max_attempts) × (runs_of t.id hs ≤ suc r * pos_part t.max_attempts)

Good-IsRunWithin : (r : ℕ) (hs : List Task) (t : Task) → Good hs r t → IsRunWithin r hs t
Good-IsRunWithin r hs t g =
    let product = times-mul r (pos_part t.max_attempts) in
    (g.0.1, grind (arith, g.2, product, g.0.1))

-- However handlers end, whoever crashes, replays an outcome or loses a lease, and whatever managers
-- share the store: if new tasks only are submitted to a memstore that was empty, then every task has
-- made at most its maximal attempts, and was handed to a worker at most that often, and as often
-- again for each requeueing of dead tasks in the history; and so is every copy that was handed out.
pub act_all-IsRunWithin :
    (xs : List (Act × Time))
    → All (λ x. SubmitsNew x.0) xs
    → All (IsRunWithin (revivals xs) (act_all xs no_work).handed) (act_all xs no_work).store.tasks
      × All (λ c. pos c.attempts ≤ℤ c.max_attempts) (act_all xs no_work).handed
act_all-IsRunWithin xs p =
    let f = act_all xs no_work in
    let start : IsOrderly 0 no_work = record {
      valid = IsValid-new;
      good = unfold new in tt;
      proper = tt;
    } in
    let o : IsOrderly (revivals xs + 0) f = act_all-IsOrderly xs 0 no_work p start in
    let o' : IsOrderly (revivals xs) f = subst (λ r. IsOrderly r f) (omega arith) o in
    (
      All-map (Good f.handed (revivals xs)) (IsRunWithin (revivals xs) f.handed) f.store.tasks
          (Good-IsRunWithin (revivals xs) f.handed) o'.good,
      All-map _ _ f.handed (λ c k. k.2) o'.proper,
    )
