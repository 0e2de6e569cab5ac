-- ===== src/Manager/Enqueue.antt =====
-- Enqueue, EnqueueMany, marshalPayload and ensureRegistered of manager.go.
pub mod Built
pub mod Stored
use gotasks.Task.{Task, StoreError, QueuePolicy, TaskPolicy, duplicate, Time, pending, zero_time}
use gotasks.Store.{StoreApi}
use gotasks.Prelude.Text.{bytes, Text, text_eq}
use gotasks.Prelude.Int.{pos, ℤ, ltb_ℤ, ◌+ℤ◌, eqb_ℤ}
use gotasks.Prelude.{
  ◌||◌, count_if, leb, ℕ, ◌&&◌, true, some, none, ◌∷◌, if◌then◌else◌, Option, length, ltb, [], ◌==◌,
  not, List, Bool,
}
use gotasks.Policies.{find_policy}
use gotasks.Manager.State.{count, Manager, enqueued}
use gotasks.Manager.New.{or_default}
use mathlib.Core.Option

pub data EnqueueError : Type 0 where
  type_empty queue_undeclared many_policies attempts_low key_for_many : EnqueueError
  marshal_failed not_an_object : EnqueueError
  from_store : StoreError → EnqueueError

pub data Outcome? {ℓ} (A : Type ℓ) : Type ℓ where
  good : A → Outcome? A
  bad : EnqueueError → Outcome? A

-- bytes.TrimSpace, for the blanks of ASCII.
abbrev pub is_space : ℕ → Bool
is_space c = c == 32 || (leb 9 c && leb c 13)

unfoldable pub trim_left : Text → Text
trim_left [] = []
trim_left (c ∷ cs) = let rest = trim_left cs in if is_space c then rest else c ∷ cs

unfoldable pub trim_right : Text → Text
trim_right [] = []
trim_right (c ∷ cs) = elim (trim_right cs) [
  | [] ↦ if is_space c then [] else c ∷ []
  | d ∷ ds ↦ c ∷ d ∷ ds
]

unfoldable pub trim_space : Text → Text
trim_space t = trim_right (trim_left t)

-- if t[0] != '{'
unfoldable pub as_object : Text → Text → Outcome? Text
as_object b [] = good []
as_object b (c ∷ cs) = if c == b'{' then good b else bad not_an_object

-- A payload is what json.Marshal made of it: no bytes at all if it failed.
unfoldable pub marshal_payload : Option Text → Outcome? Text
marshal_payload none = bad marshal_failed
marshal_payload (some b) =
    let t = trim_space b in
    if text_eq t [] || text_eq t (bytes "null") then good [] else as_object b t

-- MaxAttempts: the task's, or the queue's, or the manager's.
unfoldable pub inherit_attempts : ℤ → ℤ → ℤ → ℤ
inherit_attempts own queue default = or_default (or_default own queue) default

-- runAt: the absolute time, if one is given, or the delay from now.
unfoldable pub start_time : TaskPolicy → Time → Time
start_time p now = if eqb_ℤ p.run_at zero_time then now +ℤ p.delay else p.run_at

unfoldable pub expiry : QueuePolicy → Time → Option Time
expiry qp run_at = if ltb_ℤ (pos 0) qp.ttl then some (run_at +ℤ qp.ttl) else none

unfoldable pub new_task : Text → Text → TaskPolicy → ℤ → QueuePolicy → Time → Text → Task
new_task queue type p attempts qp now payload = record {
  id = [];
  queue = queue;
  type = type;
  unique_key = p.unique_key;
  payload = payload;
  status = pending;
  attempts = 0;
  max_attempts = attempts;
  run_at = start_time p now;
  expires_at = expiry qp (start_time p now);
  leased_by = [];
  leased_until = zero_time;
  lease_token = [];
  errors = [];
  result = [];
  created_at = now;
  updated_at = now;
}

abbrev pub and_then {ℓ κ} : {A : Type ℓ} {B : Type κ} → Outcome? A → (A → Outcome? B) → Outcome? B
and_then (good a) f = f a
and_then (bad e) f = bad e

-- The loop over the payloads.
unfoldable pub build_tasks : (Text → Task) → List (Option Text) → Outcome? (List Task)
build_tasks task [] = good []
build_tasks task (pl ∷ pls) =
    and_then (marshal_payload pl)
      λ raw. and_then (build_tasks task pls) λ rest. good (task raw ∷ rest)

abbrev pub one_policy : List TaskPolicy → Outcome? TaskPolicy
one_policy [] =
    good (record { run_at = zero_time; delay = pos 0; max_attempts = pos 0; unique_key = [] })
one_policy (p ∷ []) = good p
one_policy (p ∷ q ∷ ps) = bad many_policies

-- From the policies and the payloads to the tasks: the part of EnqueueMany between the two calls of
-- the store.
unfoldable pub plan_tasks :
    ℤ
    → QueuePolicy
    → Text
    → Text
    → List (Option Text)
    → List TaskPolicy
    → Time
    → Outcome? (List Task)
plan_tasks default qp queue type payloads policy now = and_then (one_policy policy) λ p.
    let attempts = inherit_attempts p.max_attempts qp.max_attempts default in
    if ltb_ℤ attempts (pos 1)
    then bad attempts_low
    else if not (text_eq p.unique_key []) && ltb 1 (length payloads)
    then bad key_for_many
    else build_tasks (new_task queue type p attempts qp now) payloads

-- An id that is not "" was inserted.
abbrev pub inserted : List Text → ℕ
inserted = count_if (λ id. not (text_eq id []))

module _ (api : StoreApi) where
  open api use {State}

  -- The mutex regMu is held throughout.
  unfoldable pub ensure_registered : Manager → State → Manager × State × Option StoreError
  ensure_registered m s =
      let r = api.register_queues m.cfg.queues s in
      if m.registered then (m, s, none) else elim r.1 [
        | none ↦ (record m { registered = true }, r.0, none)
        | some e ↦ (m, r.0, some e)
      ]

  abbrev pub Reply : Type 0
  Reply = Manager × State × List Text × Option EnqueueError

  -- m.store.Enqueue and what follows it.
  unfoldable pub store_tasks : Text → List Task → Manager → State → Reply
  store_tasks queue tasks m s =
      let r = api.enqueue tasks s in
      (count queue enqueued (inserted r.1) m, r.0, r.1, Option.map from_store r.2)

  abbrev pub store_planned : Text → Manager → State → Outcome? (List Task) → Reply
  store_planned queue m s (bad e) = (m, s, [], some e)
  store_planned queue m s (good tasks) = store_tasks queue tasks m s

  abbrev pub plan_and_store :
      QueuePolicy
      → Text
      → Text
      → List (Option Text)
      → List TaskPolicy
      → Time
      → Manager × State × Option StoreError
      → Reply
  plan_and_store qp queue type payloads policy now (m, s, some e) = (m, s, [], some (from_store e))
  plan_and_store qp queue type [] policy now (m, s, none) = (m, s, [], none)
  plan_and_store qp queue type (pl ∷ pls) policy now (m, s, none) =
      store_planned queue m s
        (plan_tasks m.cfg.default_max_attempts qp queue type (pl ∷ pls) policy now)

  unfoldable pub enqueue_many :
      Manager → State → Text → Text → List (Option Text) → List TaskPolicy → Time → Reply
  enqueue_many m s queue type payloads policy now =
      if text_eq type [] then (m, s, [], some type_empty) else elim (find_policy queue m.queues) [
        | none ↦ (m, s, [], some queue_undeclared)
        | some qp ↦ plan_and_store qp queue type payloads policy now (ensure_registered m s)
      ]

  -- Enqueue of one task: the id, or with a duplicate the id of the task that holds the key.
  abbrev pub one_id : List Text × Option EnqueueError → Text × Option EnqueueError
  one_id (ids, some (from_store (duplicate key holder))) =
      (holder, some (from_store (duplicate key holder)))
  one_id (ids, some e) = ([], some e)
  one_id ([], none) = ([], none)
  one_id (id ∷ ids, none) = (id, none)

  unfoldable pub enqueue_one :
      Manager
      → State
      → Text
      → Text
      → Option Text
      → List TaskPolicy
      → Time
      → Manager × State × Text × Option EnqueueError
  enqueue_one m s queue type payload policy now =
      let r = enqueue_many m s queue type (payload ∷ []) policy now in
      let x = one_id (r.2, r.3) in (r.0, r.1, x.0, x.1)
