-- ===== src/Mongo/Query.antt =====
-- The filters and updates that mongostore sends, and what MongoDB documents of their operators.
use gotasks.Task.{Time, TaskError, before, Status, zero_time, status_eq}
use gotasks.Prelude.Text.{Text, contains, text_eq}
use gotasks.Prelude.Int.{eqb_ℤ, pos, ltb_ℤ}
use gotasks.Prelude.{ℕ, ltb, ◌++◌, ◌∷◌, ◌==◌, [], false, not, Bool, List, ◌||◌, ◌+◌, true, ◌&&◌}
use gotasks.Mongo.Docs.{TaskDoc, ObjectId}

-- The clauses of the filters: a value for equality, $in, $lt, $lte, and $expr on two fields. A
-- comparison with a field that is not there does not hold.
pub data Cond : Type 0 where
  id_is : ObjectId → Cond
  id_in : List ObjectId → Cond
  id_below : ObjectId → Cond
  status_is : Status → Cond
  token_is : Text → Cond
  type_is : Text → Cond
  type_in : List Text → Cond
  queue_is : Text → Cond
  queue_in : List Text → Cond
  key_is : Text → Cond
  due_by : Time → Cond
  lease_ended : Time → Cond
  attempts_left : Cond
  attempts_spent : Cond

-- All of the clauses, and one of the alternatives of $or, if there are any.
pub record Filter : Type 0 where
  pub all_of : List Cond
  pub any_of : List (List Cond)

abbrev pub contains_id : List ObjectId → ObjectId → Bool
contains_id [] a = false
contains_id (x ∷ xs) a = (x == a) || contains_id xs a

unfoldable pub meets : Cond → TaskDoc → Bool
meets (id_is o) d = d.id == o
meets (id_in os) d = contains_id os d.id
meets (id_below o) d = ltb d.id o
meets (status_is st) d = status_eq d.status st
meets (token_is x) d = not (text_eq d.lease_token []) && text_eq d.lease_token x
meets (type_is x) d = text_eq d.type x
meets (type_in xs) d = contains xs d.type
meets (queue_is x) d = text_eq d.queue x
meets (queue_in xs) d = contains xs d.queue
meets (key_is x) d = not (text_eq d.unique_key []) && text_eq d.unique_key x
meets (due_by now) d = not (before now d.run_at)
meets (lease_ended now) d = not (eqb_ℤ d.leased_until zero_time) && before d.leased_until now
meets attempts_left d = ltb_ℤ (pos d.attempts) d.max_attempts
meets attempts_spent d = not (ltb_ℤ (pos d.attempts) d.max_attempts)

abbrev pub meets_all : List Cond → TaskDoc → Bool
meets_all [] d = true
meets_all (c ∷ cs) d = meets c d && meets_all cs d

abbrev pub meets_any : List (List Cond) → TaskDoc → Bool
meets_any [] d = false
meets_any (cs ∷ css) d = meets_all cs d || meets_any css d

abbrev pub meets_or : List (List Cond) → TaskDoc → Bool
meets_or [] d = true
meets_or (cs ∷ css) d = meets_any (cs ∷ css) d

unfoldable pub matches : Filter → TaskDoc → Bool
matches f d = meets_all f.all_of d && meets_or f.any_of d

-- $set, $inc, $push and $unset on a field; the last one is the entry that the reaper's pipeline
-- makes of the fields of the document itself.
pub data Change : Type 0 where
  set_status : Status → Change
  set_run_at set_leased_until set_updated_at : Time → Change
  set_leased_by set_token set_result : Text → Change
  set_attempts inc_attempts : ℕ → Change
  push_error : TaskError → Change
  unset_leased_by unset_leased_until unset_token unset_key unset_result : Change
  push_own_error : Time → Text → Change

unfoldable pub change : Change → TaskDoc → TaskDoc
change (set_status st) d = record d { status = st }
change (set_run_at t) d = record d { run_at = t }
change (set_leased_until t) d = record d { leased_until = t }
change (set_updated_at t) d = record d { updated_at = t }
change (set_leased_by x) d = record d { leased_by = x }
change (set_token x) d = record d { lease_token = x }
change (set_result x) d = record d { result = x }
change (set_attempts n) d = record d { attempts = n }
change (inc_attempts n) d = record d { attempts = d.attempts + n }
change (push_error e) d = record d { errors = d.errors ++ e ∷ [] }
change unset_leased_by d = record d { leased_by = [] }
change unset_leased_until d = record d { leased_until = zero_time }
change unset_token d = record d { lease_token = [] }
change unset_key d = record d { unique_key = [] }
change unset_result d = record d { result = [] }
change (push_own_error now text) d = record d {
  errors =
      d.errors
      ++ record { at = now; attempt = d.attempts; worker = d.leased_by; message = text } ∷ [];
}

-- The changes of one update are to different fields, or in the order of the pipeline.
abbrev pub Update : Type 0
Update = List Change

unfoldable pub updated : Update → TaskDoc → TaskDoc
updated [] d = d
updated (x ∷ xs) d = updated xs (change x d)
