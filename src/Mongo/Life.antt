-- ===== src/Mongo/Life.antt =====
-- The documents of mongostore as states of the machine of Life, and the updates as its steps.
pub mod Commands
pub mod Outcomes
pub mod Calls
use gotasks.Prelude.Int.{ltb_ℤ, pos}
use gotasks.Mongo.Claim.{guard_filter}
use gotasks.Prelude.Text.{text_eq, Text}
use gotasks.Prelude.{
  inr, inl, Bool-cases, Bool, arith, suc, false, ◌⊎◌, ◌+◌, ℕ, [], ◌∷◌, true, refl, List, some, ◌≡◌,
}
use gotasks.Mongo.Writes.{
  fail_update, reap_filter, reap_update, extend_update, requeue_update, dead_filter, claim_update,
  runnable_filter, lease_filter, complete_update,
}
use gotasks.Mongo.Query.{id_is, status_is, Cond, meets, change, matches, Filter, Update, updated}
use gotasks.Mongo.Driver.{Tasks, find_doc}
use gotasks.Mongo.Docs.{Bson, TaskDoc, ObjectId}
use gotasks.Life.{
  stale_claim, first_claim, revival, burial, completion, retry, here, Step, Core, Reaches,
  Reaches-trans, step,
}
use gotasks.Task.{running, pending, TaskError, Time, done, dead}
use mathlib.Core.Path.{subst}

abbrev pub core_of_doc : TaskDoc → Core
core_of_doc d = record {
  status = d.status;
  attempts = d.attempts;
  max_attempts = d.max_attempts;
  token = d.lease_token;
  key = d.unique_key;
}

-- Every document is still there, and has gone through steps of the machine.
-- The document with the id, if there is one, is kept and changes by steps of the machine only.
abbrev pub EvolvedAt : ObjectId → List TaskDoc → List TaskDoc → Type 0
EvolvedAt id ds ds' =
    (d : TaskDoc)
    → find_doc id ds ≡ some d
    → (d' : TaskDoc) × (find_doc id ds' ≡ some d') × Reaches (core_of_doc d) (core_of_doc d')

abbrev pub Evolved : List TaskDoc → List TaskDoc → Type 0
Evolved ds ds' = (id : ObjectId) → EvolvedAt id ds ds'

pub Evolved-refl : (ds : List TaskDoc) → Evolved ds ds
Evolved-refl ds id d h = (d, h, here (core_of_doc d))

pub EvolvedAt-trans :
    (id : ObjectId) (cs ds es : List TaskDoc)
    → EvolvedAt id cs ds
    → EvolvedAt id ds es
    → EvolvedAt id cs es
EvolvedAt-trans id cs ds es p q c h =
    let (d, there, r) = p c h in let (e, there', r') = q d there in (e, there', Reaches-trans r r')

pub Evolved-trans : (cs ds es : List TaskDoc) → Evolved cs ds → Evolved ds es → Evolved cs es
Evolved-trans cs ds es p q id = EvolvedAt-trans id cs ds es (p id) (q id)

-- An update that is a step of the machine on what its filter matches, and keeps the id.
pub record IsMove (f : Filter) (u : Update) : Type 0 where
  pub same_id : (d : TaskDoc) → (updated u d).id ≡ d.id
  pub moves :
      (d : TaskDoc) → matches f d ≡ true → Reaches (core_of_doc d) (core_of_doc (updated u d))

pub one : {c d : Core} → Step c d → Reaches c d
one {c} {d} s = step s (here d)

-- What a runnable document is.
runnable-cases :
    (types queues : List Text) (now : Time) (d : TaskDoc)
    → matches (runnable_filter now types queues) d ≡ true
    → (d.status ≡ pending) ⊎ ((d.status ≡ running) × (ltb_ℤ (pos d.attempts) d.max_attempts ≡ true))
unfolding runnable_filter matches meets
runnable-cases types queues now d h = ground arith

next_attempt : (n : ℕ) → n + 1 ≡ suc n
next_attempt n = omega arith

claims-move :
    (token : Text) (d : TaskDoc)
    → (d.status ≡ pending) ⊎ ((d.status ≡ running) × (ltb_ℤ (pos d.attempts) d.max_attempts ≡ true))
    → Reaches
        (core_of_doc d)
        (record (core_of_doc d) { status = running; attempts = suc d.attempts; token = token })
claims-move token d (inl fresh) = one (first_claim token fresh)
claims-move token d (inr (stale, left)) = one (stale_claim token stale left)

pub runnable_filter-IsMove :
    (types queues : List Text) (now lease : Time) (worker_id token : Text)
    → IsMove (runnable_filter now types queues) (claim_update now worker_id token lease)
unfolding claim_update updated change
runnable_filter-IsMove types queues now lease worker_id token = record {
  same_id = λ d. refl;
  moves = λ d h.
      rw (next_attempt d.attempts) (claims-move token d (runnable-cases types queues now d h));
}

held-running :
    (o : ObjectId) (token : Text) (d : TaskDoc)
    → matches (lease_filter o token) d ≡ true
    → d.status ≡ running
unfolding lease_filter matches meets
held-running o token d h = ground arith

-- The changes that come after the status leave the machine's state alone, but for these.
complete_update-core :
    (result : Text) (now : Time) (d : TaskDoc)
    → ((updated (complete_update result now) d).id ≡ d.id)
      × (core_of_doc (updated (complete_update result now) d)
          ≡ record (core_of_doc d) { status = done; token = []; key = [] })
unfolding complete_update updated change
complete_update-core result now d = elim (Bool-cases (text_eq result [])) [
  | inl empty ↦ rw empty (refl, refl)
  | inr some_result ↦ rw some_result (refl, refl)
]

pub complete_update-IsMove :
    (o : ObjectId) (token result : Text) (now : Time)
    → IsMove (lease_filter o token) (complete_update result now)
complete_update-IsMove o token result now = record {
  same_id = λ d. (complete_update-core result now d).0;
  moves = λ d h.
      rw ((complete_update-core result now d).1) (one (completion (held-running o token d h)));
}

pub fail_update-IsMove :
    (o : ObjectId) (token : Text) (e : TaskError) (at : Time) (terminal : Bool) (now : Time)
    → IsMove (lease_filter o token) (fail_update e at terminal now)
unfolding fail_update updated change
fail_update-IsMove o token e at true now = record {
  same_id = λ d. refl;
  moves = λ d h. one (burial (held-running o token d h));
}
fail_update-IsMove o token e at false now = record {
  same_id = λ d. refl;
  moves = λ d h. one (retry (held-running o token d h));
}

pub extend_update-IsMove :
    (o : ObjectId) (token : Text) (now lease : Time)
    → IsMove (lease_filter o token) (extend_update now lease)
unfolding extend_update updated change
extend_update-IsMove o token now lease = record {
  same_id = λ d. refl;
  moves = λ d h. here (core_of_doc d);
}

dead-status : (cs : List Cond) (d : TaskDoc) → matches (dead_filter cs) d ≡ true → d.status ≡ dead
unfolding dead_filter matches meets
dead-status cs d h = ground arith

pub requeue_update-IsMove :
    (cs : List Cond) (now : Time) → IsMove (dead_filter cs) (requeue_update now)
unfolding requeue_update updated change
requeue_update-IsMove cs now = record {
  same_id = λ d. refl;
  moves = λ d h. one (revival (dead-status cs d h));
}

pub requeue_one-IsMove :
    (o : ObjectId) (now : Time)
    → IsMove (record { all_of = id_is o ∷ status_is dead ∷ []; any_of = [] }) (requeue_update now)
unfolding requeue_update updated change matches meets
requeue_one-IsMove o now = record {
  same_id = λ d. refl;
  moves = λ d h. one (revival (ground arith));
}

pub reap_update-IsMove : (now : Time) → IsMove (reap_filter now) (reap_update now)
unfolding reap_filter reap_update updated change matches meets
reap_update-IsMove now = record { same_id = λ d. refl; moves = λ d h. one (burial (ground arith)) }

pub guard_filter-IsMove :
    (b : Bson) (c : Tasks) (ids : List ObjectId) (now lease : Time) (worker_id token : Text)
    → IsMove (guard_filter b c now ids) (claim_update now worker_id token lease)
unfolding guard_filter
guard_filter-IsMove b c ids now lease worker_id token = record {
  same_id = (runnable_filter-IsMove [] [] now lease worker_id token).same_id;
  moves = λ d h. (runnable_filter-IsMove [] [] now lease worker_id token).moves d (narrowed d h);
}
  where
    narrowed :
        (d : TaskDoc)
        → matches (guard_filter b c now ids) d ≡ true
        → matches (runnable_filter now [] []) d ≡ true
    narrowed d h = unfold matches runnable_filter guard_filter in ground arith
