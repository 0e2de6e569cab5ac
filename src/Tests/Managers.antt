-- ===== src/Tests/Managers.antt =====
-- The manager's configuration and its enqueueing, and the strategies of retrying.
use gotasks.Tests.{with_jobs-IsValid, with_jobs}
use gotasks.Task.{QueuePolicy, TaskPolicy, Task, zero_time}
use gotasks.Prelude.Text.{bytes, text_eq}
use gotasks.Prelude.Int.{ℤ, pos, ◌*ℤ◌}
use gotasks.Prelude.{
  ◌≢◌, length, [], ◌*◌, ℕ, ◌/◌, ◌∷◌, refl, none, arith, ◌^◌, min, ◌≡◌, All, false, ◌≤◌, some, ◌+◌,
}
use gotasks.Policies.{find_policy, put_policy}
use gotasks.Options.{second, millisecond, Config}
use gotasks.MemStore.Invariant.{IsValid}
use gotasks.MemStore.Api.{mem_api}
use gotasks.Manager.State.{Manager}
use gotasks.Manager.New.Valid.{resolve_config-IsResolved, IsResolved}
use gotasks.Manager.New.Queues.{AreDistinct, check_queues-IsDeclared, IsDeclared}
use gotasks.Manager.New.Again.{resolve_config-fixed}
use gotasks.Manager.New.{
  resolve_janitor, check_basics, resolve_pipeline, check_queues, resolve_config, accept,
  default_config, resolve_name, resolve_finalize,
}
use gotasks.Manager.Enqueue.Stored.{enqueue_many-IsValid}
use gotasks.Manager.Enqueue.Built.{plan_tasks-IsPlanned, IsPlanned, PlannedFor, IsPolicyOf}
use gotasks.Manager.Enqueue.{
  as_object, build_tasks, good, inherit_attempts, marshal_payload, enqueue_many, new_task,
  plan_tasks, trim_space, trim_right, trim_left,
}
use gotasks.Backoff.Bounds.{exponential_backoff-bounds, IsDraw, linear_backoff-eq}
use gotasks.Backoff.{linear_backoff, exponential_backoff}

abbrev no_jitter : ℤ → ℤ
no_jitter n = pos 0

no_jitter-IsDraw : IsDraw no_jitter
no_jitter-IsDraw = record { in_range = λ n h. (0, refl, h) }

exponential_backoff-bounds_example :
    (w : ℕ) × (exponential_backoff no_jitter (pos 30) (pos 100) (pos 3) ≡ some (pos w))
    × (min (30 * 2 ^ 2) 100 ≤ w)
    × (w ≤ min (30 * 2 ^ 2) 100 + min (30 * 2 ^ 2) 100 / 4)
exponential_backoff-bounds_example =
    exponential_backoff-bounds no_jitter 30 100 2 no_jitter-IsDraw (omega arith) (omega arith)

linear_backoff-eq_example : linear_backoff (pos 30) (pos 3) ≡ some (pos (30 * 3))
linear_backoff-eq_example = linear_backoff-eq 30 2 (omega arith)

abbrev mail_queue : QueuePolicy
mail_queue = record { name = bytes "q"; ttl = pos 100; max_attempts = pos 0 }

abbrev given : Config
given = record (default_config no_jitter) {
  queues = mail_queue ∷ [];
  pipeline = some (record {
    claim_batch = pos 0;
    queue_lease = pos 0;
    finalize_batch = pos 0;
    finalize_interval = pos 0;
    no_finalize = false;
  });
}

abbrev pub settled : Config
settled = record given {
  pipeline = some (record {
    claim_batch = pos 32;
    queue_lease = pos (60 * second);
    finalize_batch = pos 64;
    finalize_interval = pos (300 * millisecond);
    no_finalize = false;
  });
  janitor = record { reap_interval = pos (60 * second); no_reap = false; metrics = none };
  manager_name = bytes "manager";
}

given_resolves : resolve_config given ≡ accept (settled, mail_queue ∷ [])
unfolding resolve_config default_config check_basics check_queues text_eq find_policy put_policy
    resolve_pipeline resolve_finalize resolve_janitor resolve_name ◌*ℤ◌
given_resolves = refl

resolve_config-IsResolved_example :
    IsResolved settled
    × All (IsDeclared (mail_queue ∷ [])) settled.queues
    × AreDistinct settled.queues
resolve_config-IsResolved_example =
    resolve_config-IsResolved given settled (mail_queue ∷ []) given_resolves

resolve_config-fixed_example : resolve_config settled ≡ accept (settled, mail_queue ∷ [])
resolve_config-fixed_example = resolve_config-fixed given settled (mail_queue ∷ []) given_resolves

queues_checked : check_queues (mail_queue ∷ []) [] ≡ accept (mail_queue ∷ [])
unfolding check_queues text_eq find_policy put_policy
queues_checked = refl

check_queues-IsDeclared_example : All (IsDeclared (mail_queue ∷ [])) (mail_queue ∷ [])
check_queues-IsDeclared_example =
    check_queues-IsDeclared (mail_queue ∷ []) [] (mail_queue ∷ []) queues_checked

abbrev keyed_policy : TaskPolicy
keyed_policy = record {
  run_at = zero_time;
  delay = pos 5;
  max_attempts = pos 0;
  unique_key = bytes "k";
}

abbrev planned : Task
planned = new_task (bytes "q") (bytes "mail") keyed_policy (pos 3) mail_queue (pos 10) (bytes "{}")

plans :
    plan_tasks
      (pos 3)
      mail_queue
      (bytes "q")
      (bytes "mail")
      (some (bytes "{}") ∷ [])
      (keyed_policy ∷ [])
      (pos 10)
    ≡ good (planned ∷ [])
unfolding plan_tasks text_eq inherit_attempts build_tasks marshal_payload trim_space trim_left
    trim_right as_object
plans = refl

plan_tasks-IsPlanned_example :
    (p : TaskPolicy) × IsPolicyOf (keyed_policy ∷ []) p
    × PlannedFor
        (IsPlanned (pos 3) mail_queue (bytes "q") (bytes "mail") p (pos 10))
        (some (bytes "{}") ∷ [])
        (planned ∷ [])
    × (length (planned ∷ []) ≡ length (some (bytes "{}") ∷ []))
    × (p.unique_key ≢ [] → length (planned ∷ []) ≤ 1)
plan_tasks-IsPlanned_example =
    plan_tasks-IsPlanned (pos 3) mail_queue (bytes "q") (bytes "mail") (some (bytes "{}") ∷ [])
      (keyed_policy ∷ []) (pos 10) (planned ∷ []) plans

abbrev pub manager : Manager
manager = record {
  cfg = settled;
  types = bytes "mail" ∷ [];
  queue_names = bytes "q" ∷ [];
  queues = mail_queue ∷ [];
  manager_id = bytes "manager.0a1b2c";
  counters = none;
  registered = false;
  started = false;
}

enqueue_many-IsValid_example :
    IsValid
      (enqueue_many mem_api manager with_jobs
        (bytes "q")
        (bytes "mail")
        (some (bytes "{}") ∷ [])
        (keyed_policy ∷ [])
        (pos 10)).1
enqueue_many-IsValid_example =
    enqueue_many-IsValid manager with_jobs (bytes "q") (bytes "mail") (some (bytes "{}") ∷ [])
      (keyed_policy ∷ []) (pos 10) with_jobs-IsValid
