-- ===== src/MemStore/Claim.antt =====
-- claimOneLocked, Store.Claim and Store.ClaimBatch of memstore.go.
pub mod Order
pub mod Choice
pub mod Batch
pub mod Independence
use gotasks.Prelude.{
  ℕ, zero, suc, Bool, true, not, ◌&&◌, ◌||◌, Option, none, some, List, [], ◌∷◌, if◌then◌else◌,
}
use gotasks.Prelude.Int.{pos, ◌+ℤ◌, eqb_ℤ, ltb_ℤ}
use gotasks.Prelude.Text.{Text, text_lt, contains}
use gotasks.Task.{
  Task, Time, ClaimOptions, before, status_eq, pending, running, Result, ok, err, no_task,
}
use gotasks.MemStore.State.{Store, put_task, lease_token}

-- len(only) > 0 && !slices.Contains(only, x) skips the task.
unfoldable pub admits : List Text → Text → Bool
admits [] x = true
admits (y ∷ ys) x = contains (y ∷ ys) x

-- Pending and due, or running with a lease that has expired and attempts left.
unfoldable pub runnable : Time → Task → Bool
runnable now t =
    (status_eq t.status pending && not (before now t.run_at))
    || (status_eq t.status running
        && (before t.leased_until now && ltb_ℤ (pos t.attempts) t.max_attempts))

unfoldable pub claimable : ClaimOptions → Time → Task → Bool
claimable opts now t = admits opts.types t.type && (admits opts.queues t.queue && runnable now t)

-- The order in which `best` is replaced: the earlier run_at, and at equal times the smaller id.
unfoldable pub earlier : Task → Task → Bool
earlier t u = before t.run_at u.run_at || (eqb_ℤ t.run_at u.run_at && text_lt t.id u.id)

unfoldable pub improve : Task → Option Task → Option Task
improve t none = some t
improve t (some best) = if earlier t best then some t else some best

-- The loop over the tasks, with `best` as it stands.
unfoldable pub pick : ClaimOptions → Time → Option Task → List Task → Option Task
pick opts now best [] = best
pick opts now best (t ∷ ts) =
    pick opts now (if claimable opts now t then improve t best else best) ts

unfoldable pub claimed : ClaimOptions → Time → ℕ → Task → Task
claimed opts now seq best = record best {
  status = running;
  attempts = suc best.attempts;
  leased_by = opts.worker_id;
  lease_token = lease_token seq;
  leased_until = now +ℤ opts.lease;
  updated_at = now;
}

unfoldable pub take_best : ClaimOptions → Time → Store → Option Task → Store × Option Task
take_best opts now s none = (s, none)
take_best opts now s (some best) =
    let t = claimed opts now (suc s.seq) best in
    (record s { seq = suc s.seq; tasks = put_task t s.tasks }, some t)

unfoldable pub claim_one : ClaimOptions → Time → Store → Store × Option Task
claim_one opts now s = take_best opts now s (pick opts now none s.tasks)

abbrev pub or_no_task : Store × Option Task → Store × Result Task
or_no_task (s, none) = (s, err no_task)
or_no_task (s, some t) = (s, ok t)

unfoldable pub claim : ClaimOptions → Time → Store → Store × Result Task
claim opts now s = or_no_task (claim_one opts now s)

-- A round of ClaimBatch's loop: no task ends the loop, a task is appended before the rest.
abbrev pub after_claim : (Store → Store × List Task) → Store × Option Task → Store × List Task
after_claim rest (s, none) = (s, [])
after_claim rest (s, some t) = let r = rest s in (r.0, t ∷ r.1)

-- The loop of ClaimBatch, with `k` rounds left.
unfoldable pub claim_loop : ℕ → ClaimOptions → Time → Store → Store × List Task
claim_loop zero opts now s = (s, [])
claim_loop (suc k) opts now s = after_claim (claim_loop k opts now) (claim_one opts now s)

abbrev pub or_none_claimed : Store × List Task → Store × Result (List Task)
or_none_claimed (s, []) = (s, err no_task)
or_none_claimed (s, t ∷ ts) = (s, ok (t ∷ ts))

unfoldable pub claim_batch : ClaimOptions → ℕ → Time → Store → Store × Result (List Task)
claim_batch opts k now s = or_none_claimed (claim_loop k opts now s)
