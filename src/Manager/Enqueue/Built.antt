-- ===== src/Manager/Enqueue/Built.antt =====
-- What EnqueueMany hands to the store.
use mathlib.Core.Path.{subst}
use gotasks.Task.{TaskPolicy, Time, QueuePolicy, Task, pending, zero_time}
use gotasks.Prelude.Text.{bytes, text_eq, text_eq_iff, Text}
use gotasks.Prelude.Int.{◌≤ℤ◌, eqb_ℤ, ℤ, ◌<ℤ◌, pos, eqb_ℤ-eq, ◌+ℤ◌}
use gotasks.Prelude.{
  ◌||◌, ◌==◌, ◌⊎◌, if◌then◌else◌, sym, ◌∙◌, ◌≤◌, true, inr, ◌∷◌, none, List, [], Bool-cases, Option,
  false, arith, some, ◌≡◌, suc, length, inl, ap, refl, All, ◌≢◌,
}
use gotasks.Manager.Enqueue.{
  one_policy, as_object, trim_space, plan_tasks, marshal_payload, bad, inherit_attempts, Outcome?,
  expiry, and_then, good, build_tasks, new_task, start_time,
}

-- A task that no worker has seen, under the policy `p` of the call and the policy `qp` of the queue.
pub record IsPlanned (default : ℤ) (qp : QueuePolicy) (queue type : Text) (p : TaskPolicy)
    (now : Time) (t : Task) : Type 0 where
  pub in_queue : t.queue ≡ queue
  pub of_type : t.type ≡ type
  pub is_pending : t.status ≡ pending
  pub no_attempts : t.attempts ≡ 0
  pub no_token : t.lease_token ≡ []
  pub keyed : t.unique_key ≡ p.unique_key
  -- The task's own budget comes first, then the queue's, then the manager's; it allows an attempt.
  pub room : pos 1 ≤ℤ t.max_attempts
  pub own_budget : p.max_attempts ≢ pos 0 → t.max_attempts ≡ p.max_attempts
  pub queue_budget :
      p.max_attempts ≡ pos 0 → qp.max_attempts ≢ pos 0 → t.max_attempts ≡ qp.max_attempts
  pub manager_budget : p.max_attempts ≡ pos 0 → qp.max_attempts ≡ pos 0 → t.max_attempts ≡ default
  -- An absolute time wins over a delay; the lifetime is measured from the start.
  pub absolute : p.run_at ≢ zero_time → t.run_at ≡ p.run_at
  pub delayed : p.run_at ≡ zero_time → t.run_at ≡ now +ℤ p.delay
  pub expires : pos 0 <ℤ qp.ttl → t.expires_at ≡ some (t.run_at +ℤ qp.ttl)
  pub never_expires : qp.ttl ≤ℤ pos 0 → t.expires_at ≡ none

or_bad {ℓ} : {A : Type ℓ} → A → Outcome? A → A
or_bad d (good a) = a
or_bad d (bad e) = d

good-injective {ℓ} : {A : Type ℓ} {a b : A} → good a ≡ good b → a ≡ b
unfolding or_bad
good-injective {a} h = ap (or_bad a) h

and_then-good {ℓ κ} :
    {A : Type ℓ} {B : Type κ} (m : Outcome? A) (f : A → Outcome? B) {b : B}
    → and_then m f ≡ good b
    → (a : A) × (m ≡ good a) × (f a ≡ good b)
and_then-good (good a) f h = (a, refl, h)
and_then-good (bad e) f h = absurd (cc)

pub build_tasks-All :
    (P : Task → Type 0) (task : Text → Task) (pls : List (Option Text)) (ts : List Task)
    → ((raw : Text) → P (task raw))
    → build_tasks task pls ≡ good ts
    → All P ts × (length ts ≡ length pls)
unfolding build_tasks
build_tasks-All P task [] ts k h =
    subst (λ us. All P us × (length us ≡ 0)) (good-injective h) (tt, refl)
build_tasks-All P task (pl ∷ pls) ts k h =
    let (raw, _, h₁) = and_then-good (marshal_payload pl) _ h in
    let (rest, e, h₂) = and_then-good (build_tasks task pls) _ h₁ in
    let (all, size) = build_tasks-All P task pls rest k e in
    subst (λ us. All P us × (length us ≡ suc (length pls))) (good-injective h₂)
      ((k raw, all), ap suc size)

eqb-zero : (a : ℤ) → a ≢ pos 0 → eqb_ℤ a (pos 0) ≡ false
eqb-zero a h = elim (Bool-cases (eqb_ℤ a (pos 0))) [
  | inl e ↦ absurd (h (eqb_ℤ-eq a (pos 0) e))
  | inr n ↦ n
]

new_task-IsPlanned :
    (default : ℤ) (qp : QueuePolicy) (queue type : Text) (p : TaskPolicy) (now : Time) (raw : Text)
    → pos 1 ≤ℤ inherit_attempts p.max_attempts qp.max_attempts default
    → IsPlanned default qp queue type p now
        (new_task queue type p (inherit_attempts p.max_attempts qp.max_attempts default) qp now raw)
unfolding new_task
new_task-IsPlanned default qp queue type p now raw h = record {
  in_queue = refl;
  of_type = refl;
  is_pending = refl;
  no_attempts = refl;
  no_token = refl;
  keyed = refl;
  room = h;
  own_budget = λ n. unfold inherit_attempts in ground (arith, eqb-zero p.max_attempts n);
  queue_budget = λ e n. unfold inherit_attempts in ground (arith, eqb-zero qp.max_attempts n);
  manager_budget = λ e n. unfold inherit_attempts in ground arith;
  absolute = λ n. unfold start_time in rw (eqb-zero p.run_at n);
  delayed = λ e. unfold start_time in ground arith;
  expires = λ l. unfold expiry in ground arith;
  never_expires = λ l. unfold expiry in ground arith;
}

-- What json.Marshal made of the payload, if that is an object; nothing, if it is null or empty.
abbrev pub IsPayload : Option Text → Text → Type 0
IsPayload none raw = ⊥
IsPayload (some b) raw =
    (((trim_space b ≡ []) ⊎ (trim_space b ≡ bytes "null")) × (raw ≡ []))
    ⊎ ((cs : Text) × (trim_space b ≡ b'{' ∷ cs) × (raw ≡ b))

good-IsPayload :
    (b t raw : Text)
    → trim_space b ≡ t
    → (if text_eq t [] || text_eq t (bytes "null") then good [] else as_object b t) ≡ good raw
    → IsPayload (some b) raw
unfolding as_object text_eq
good-IsPayload b [] raw e h = inl (inl e, sym (good-injective h))
good-IsPayload b (c ∷ cs) raw e h = elim (Bool-cases (text_eq (c ∷ cs) (bytes "null"))) [
  | inl null ↦
      inl (
        inr (e ∙ (text_eq_iff (c ∷ cs) (bytes "null")).0 null),
        sym (good-injective (rw null at h)),
      )
  | inr other ↦ elim (Bool-cases (c == b'{')) [
    | inl brace ↦
        let first : c ≡ b'{' = ground arith in
        inr (cs, e ∙ ap (λ x. x ∷ cs) first, sym (good-injective (rw (other, brace) at h)))
    | inr foreign ↦ absurd (ground arith)
  ]
]

marshal_payload-IsPayload :
    (pl : Option Text) (raw : Text) → marshal_payload pl ≡ good raw → IsPayload pl raw
unfolding marshal_payload
marshal_payload-IsPayload none raw h = absurd (cc)
marshal_payload-IsPayload (some b) raw h = good-IsPayload b (trim_space b) raw refl h

-- One task for each payload, in their order, with that payload.
abbrev pub PlannedFor : (Task → Type 0) → List (Option Text) → List Task → Type 0
PlannedFor P [] [] = Unit
PlannedFor P (pl ∷ pls) (t ∷ ts) = (P t × IsPayload pl t.payload) × PlannedFor P pls ts
PlannedFor P pls ts = ⊥

build_tasks-PlannedFor :
    (P : Task → Type 0) (task : Text → Task) (pls : List (Option Text)) (ts : List Task)
    → ((raw : Text) → P (task raw) × ((task raw).payload ≡ raw))
    → build_tasks task pls ≡ good ts
    → PlannedFor P pls ts
unfolding build_tasks
build_tasks-PlannedFor P task [] ts k h = subst (PlannedFor P []) (good-injective h) tt
build_tasks-PlannedFor P task (pl ∷ pls) ts k h =
    let (raw, m, h₁) = and_then-good (marshal_payload pl) _ h in
    let (rest, e, h₂) = and_then-good (build_tasks task pls) _ h₁ in
    let (planned, same) = k raw in
    subst (PlannedFor P (pl ∷ pls)) (good-injective h₂) (
      (planned, subst (IsPayload pl) (sym same) (marshal_payload-IsPayload pl raw m)),
      build_tasks-PlannedFor P task pls rest k e,
    )

-- The policy of the call: the one that is given, or no wishes at all.
abbrev pub IsPolicyOf : List TaskPolicy → TaskPolicy → Type 0
IsPolicyOf [] p =
    (p.run_at ≡ zero_time) × (p.delay ≡ pos 0) × (p.max_attempts ≡ pos 0) × (p.unique_key ≡ [])
IsPolicyOf (q ∷ []) p = p ≡ q
IsPolicyOf (q ∷ r ∷ ps) p = ⊥

one_policy-IsPolicyOf :
    (ps : List TaskPolicy) (p : TaskPolicy) → one_policy ps ≡ good p → IsPolicyOf ps p
one_policy-IsPolicyOf [] p h = subst (IsPolicyOf []) (good-injective h) (refl, refl, refl, refl)
one_policy-IsPolicyOf (q ∷ []) p h = sym (good-injective h)
one_policy-IsPolicyOf (q ∷ r ∷ ps) p h = absurd (cc)

one_policy-IsPlanned :
    (default : ℤ) (qp : QueuePolicy) (queue type : Text) (pls : List (Option Text)) (p : TaskPolicy)
    (now : Time) (ts : List Task)
    → plan_tasks default qp queue type pls (p ∷ []) now ≡ good ts
    → PlannedFor (IsPlanned default qp queue type p now) pls ts
      × (length ts ≡ length pls)
      × (p.unique_key ≢ [] → length ts ≤ 1)
unfolding plan_tasks
one_policy-IsPlanned default qp queue type pls p now ts h =
    let attempts = inherit_attempts p.max_attempts qp.max_attempts default in
    let room : pos 1 ≤ℤ attempts = ground arith in
    let built : build_tasks (new_task queue type p attempts qp now) pls ≡ good ts = ground arith in
    let single : p.unique_key ≢ [] → length pls ≤ 1 =
      λ k. one_key k (text_eq_iff p.unique_key []).0 in
    let size : length ts ≡ length pls =
      (build_tasks-All (λ t. Unit) _ pls ts (λ raw. tt) built).1 in
    (
      build_tasks-PlannedFor (IsPlanned default qp queue type p now) _ pls ts
          (λ raw.
            (new_task-IsPlanned default qp queue type p now raw room, unfold new_task in refl))
          built,
      size,
      λ k. rw size (single k),
    )
  where
    one_key :
        p.unique_key ≢ [] → (text_eq p.unique_key [] ≡ true → p.unique_key ≡ []) → length pls ≤ 1
    one_key k e = ground (arith, e)

-- A batch that EnqueueMany accepts has one policy, or none, which stands for no wishes, and becomes one
-- task for each payload, in their order: with what json.Marshal made of the payload, if that is an
-- object, or nothing for null, pending with no attempts used, with the attempts budget, the start and
-- the expiry that the policies give it; a unique key is given to one task at most.
pub plan_tasks-IsPlanned :
    (default : ℤ) (qp : QueuePolicy) (queue type : Text) (pls : List (Option Text))
    (policies : List TaskPolicy) (now : Time) (ts : List Task)
    → plan_tasks default qp queue type pls policies now ≡ good ts
    → (p : TaskPolicy) × IsPolicyOf policies p
      × PlannedFor (IsPlanned default qp queue type p now) pls ts
      × (length ts ≡ length pls)
      × (p.unique_key ≢ [] → length ts ≤ 1)
unfolding plan_tasks
plan_tasks-IsPlanned default qp queue type pls policies now ts h =
    let (p, chosen, rest) = and_then-good (one_policy policies) _ h in
    let (planned, size, single) = one_policy-IsPlanned default qp queue type pls p now ts rest in
    (p, one_policy-IsPolicyOf policies p chosen, planned, size, single)
