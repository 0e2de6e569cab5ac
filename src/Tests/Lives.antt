-- ===== src/Tests/Lives.antt =====
-- The life of the first job in a memstore: its lease ends, another worker claims it and fails it for
-- good, and it is requeued.
use gotasks.Task.{Time, TaskError}
use gotasks.Prelude.Text.{bytes}
use gotasks.Prelude.Int.{pos}
use gotasks.Prelude.{true, ◌∷◌, [], List}
use gotasks.MemStore.Calls.{Call, run, claims, extends, fails, requeues}
use gotasks.MemStore.Life.{Evolved}
use gotasks.MemStore.Life.Calls.{run-Evolved}
use gotasks.Tests.{first_claim, second_claim, worker, with_claim, with_claim-IsValid}

abbrev crashed : TaskError
crashed = record { at = pos 120; attempt = 2; worker = bytes "w2"; message = bytes "boom" }

abbrev buried_and_back : List (Call × Time)
buried_and_back =
    (claims (worker (bytes "w2")), pos 100)
    ∷ (extends first_claim (pos 50), pos 105)
    ∷ (fails second_claim crashed (pos 130) true, pos 120)
    ∷ (requeues (bytes "task-1"), pos 140)
    ∷ []

run-Evolved_example : Evolved with_claim.tasks (run buried_and_back with_claim).tasks
run-Evolved_example =
    run-Evolved buried_and_back with_claim (tt, (tt, (tt, (tt, tt)))) with_claim-IsValid
