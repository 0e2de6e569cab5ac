-- ===== src/Mongo/Writes.antt =====
-- The filters and updates of mongostore.go.
use gotasks.Prelude.Text.{Text, text_eq}
use gotasks.Prelude.Int.{◌+ℤ◌}
use gotasks.Prelude.{Bool, [], ◌++◌, if◌then◌else◌, List, ◌∷◌}
use gotasks.Mongo.Query.{
  set_status, unset_key, unset_leased_by, type_in, lease_ended, set_updated_at, token_is,
  push_error, queue_in, status_is, unset_leased_until, set_leased_until, inc_attempts, due_by,
  set_run_at, set_result, Filter, attempts_spent, set_leased_by, unset_result, set_attempts,
  push_own_error, Cond, id_is, unset_token, attempts_left, Update, set_token,
}
use gotasks.Mongo.Docs.{ObjectId}
use gotasks.MemStore.Revive.{reap_message}
use gotasks.Task.{TaskError, running, Time, Duration, pending, dead, done}

-- runnableFilter: an empty list restricts nothing.
abbrev pub only : (List Text → Cond) → List Text → List Cond
only c [] = []
only c (x ∷ xs) = c (x ∷ xs) ∷ []

unfoldable pub runnable_filter : Time → List Text → List Text → Filter
runnable_filter now types queues = record {
  all_of = only type_in types ++ only queue_in queues;
  any_of =
      (status_is pending ∷ due_by now ∷ [])
      ∷ (status_is running ∷ lease_ended now ∷ attempts_left ∷ [])
      ∷ [];
}

unfoldable pub claim_update : Time → Text → Text → Duration → Update
claim_update now worker_id token lease =
    set_status running
    ∷ set_leased_by worker_id
    ∷ set_token token
    ∷ set_leased_until (now +ℤ lease)
    ∷ set_updated_at now
    ∷ inc_attempts 1
    ∷ []

unfoldable pub lease_filter : ObjectId → Text → Filter
lease_filter id token = record {
  all_of = id_is id ∷ token_is token ∷ status_is running ∷ [];
  any_of = [];
}

-- The part of completeWrite after its conversions; `result` is empty for no document.
unfoldable pub complete_update : Text → Time → Update
complete_update result now =
    set_status done
      ∷ set_updated_at now
      ∷ (if text_eq result [] then [] else set_result result ∷ [])
    ++ unset_leased_by ∷ unset_token ∷ unset_key ∷ []

-- failWrite
unfoldable pub fail_update : TaskError → Time → Bool → Time → Update
fail_update e retry_at terminal now =
    set_updated_at now
      ∷ (if terminal then set_status dead ∷ [] else set_status pending ∷ set_run_at retry_at ∷ [])
    ++ push_error e ∷ unset_leased_by ∷ unset_token ∷ (if terminal then unset_key ∷ [] else [])

unfoldable pub extend_update : Time → Duration → Update
extend_update now lease = set_leased_until (now +ℤ lease) ∷ set_updated_at now ∷ []

unfoldable pub requeue_update : Time → Update
requeue_update now =
    set_status pending
    ∷ set_attempts 0
    ∷ set_run_at now
    ∷ set_updated_at now
    ∷ unset_result
    ∷ unset_leased_by
    ∷ unset_leased_until
    ∷ unset_token
    ∷ []

-- The filter and the pipeline of ReapExpired.
unfoldable pub reap_filter : Time → Filter
reap_filter now = record {
  all_of = status_is running ∷ lease_ended now ∷ attempts_spent ∷ [];
  any_of = [];
}

unfoldable pub reap_update : Time → Update
reap_update now =
    set_status dead
    ∷ set_updated_at now
    ∷ push_own_error now reap_message
    ∷ unset_leased_by
    ∷ unset_token
    ∷ unset_key
    ∷ []

unfoldable pub dead_filter : List Cond → Filter
dead_filter cs = record { all_of = status_is dead ∷ cs; any_of = [] }
