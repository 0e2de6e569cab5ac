-- ===== src/Tests/Upkeep.antt =====
-- Maintenance of memstore and its registry.
use gotasks.Task.{dead}
use gotasks.Tests.{second_job, holding, with_jobs, first_claim}
use gotasks.Task.{QueuePolicy}
use gotasks.Prelude.Text.{bytes}
use gotasks.Prelude.Int.{pos}
use gotasks.Prelude.{◌∷◌, [], count_if, ◌≡◌, List}
use gotasks.MemStore.State.{Store}
use gotasks.MemStore.Revive.Maintenance.{
  Reaping, requeue_dead-RevivedFrom, reap_expired-Reaping, RevivedFrom,
}
use gotasks.MemStore.Revive.{requeue_dead, reap_expired, is_dead_of}
use gotasks.MemStore.Registry.Drift.{Registration, register_queues-Registration}
use gotasks.MemStore.Registry.{register_queues}

-- Its last attempt is running.
abbrev with_last : Store
with_last = holding 3 (record first_claim { attempts = 3 } ∷ second_job ∷ [])

reap_expired-Reaping_example : Reaping (pos 500) with_last (reap_expired (pos 500) with_last)
reap_expired-Reaping_example = reap_expired-Reaping (pos 500) with_last

abbrev with_dead : Store
with_dead = holding 3 (record first_claim { status = dead; unique_key = [] } ∷ second_job ∷ [])

requeue_dead-RevivedFrom_example :
    RevivedFrom [] (pos 600) with_dead.tasks (requeue_dead [] (pos 600) with_dead).0.tasks
    × ((requeue_dead [] (pos 600) with_dead).1 ≡ count_if (is_dead_of []) with_dead.tasks)
    × (count_if (is_dead_of []) (requeue_dead [] (pos 600) with_dead).0.tasks ≡ 0)
requeue_dead-RevivedFrom_example = requeue_dead-RevivedFrom [] (pos 600) with_dead

abbrev mail_queues : List QueuePolicy
mail_queues = record { name = bytes "q"; ttl = pos 100; max_attempts = pos 3 } ∷ []

register_queues-Registration_example :
    Registration mail_queues with_jobs (register_queues mail_queues with_jobs)
register_queues-Registration_example = register_queues-Registration mail_queues with_jobs
