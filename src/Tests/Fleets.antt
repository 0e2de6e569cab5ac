-- ===== src/Tests/Fleets.antt =====
-- A manager's workers over a memstore: one job runs, is taken again by a second worker after its lease,
-- fails late, is swept, and the dead are requeued.
use gotasks.Fleet.{
  Act, submit, take, end_run, renew, revive_dead, sweep, act_all, no_work, revivals,
}
use gotasks.Fleet.Runs.{IsRunWithin, act_all-IsRunWithin}
use gotasks.Prelude.{All, List, ◌∷◌, [], refl, arith}
use gotasks.Prelude.Int.{pos, ◌≤ℤ◌}
use gotasks.Prelude.Text.{bytes}
use gotasks.Task.{Time}
use gotasks.Tests.{job, worker}
use gotasks.Tests.Managers.{manager}
use gotasks.Worker.{errors}

abbrev two_workers : List (Act × Time)
two_workers =
    (submit (job (bytes "k") ∷ []), pos 10)
    ∷ (take (worker (bytes "w1")), pos 20)
    ∷ (renew 0 (pos 50), pos 40)
    ∷ (take (worker (bytes "w2")), pos 100)
    ∷ (end_run 1 manager (bytes "w1") (errors (bytes "boom")) (pos 110), pos 110)
    ∷ (end_run 0 manager (bytes "w2") (errors (bytes "boom")) (pos 120), pos 125)
    ∷ (sweep, pos 900)
    ∷ (revive_dead (bytes "mail"), pos 950)
    ∷ []

act_all-IsRunWithin_example :
    All
      (IsRunWithin (revivals two_workers) (act_all two_workers no_work).handed)
      (act_all two_workers no_work).store.tasks
    × All (λ c. pos c.attempts ≤ℤ c.max_attempts) (act_all two_workers no_work).handed
act_all-IsRunWithin_example =
    act_all-IsRunWithin two_workers
      (((refl, refl, omega arith), tt), (tt, (tt, (tt, (tt, (tt, (tt, (tt, tt))))))))
