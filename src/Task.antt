-- ===== src/Task.antt =====
-- task.go, the types of store.go, and QueuePolicy and TaskPolicy of options.go.
--
-- A Go string or byte slice is a `Text`; a nil slice and an empty one are the same `Text`, and a nil
-- pointer is `none`. An instant is the number of nanoseconds since Go's zero `time.Time`, so the
-- zero time is `pos 0`; a `time.Duration` is its number of nanoseconds. `attempts` starts at 0 and
-- is only ever incremented or reset, so it is a natural number; every other `int` is an integer.
use gotasks.Prelude.{ℕ, ◌+◌, Bool, true, false, Option, List, ltb}
use gotasks.Prelude.Int.{ℤ, pos, pos_part, neg_part}
use gotasks.Prelude.Text.{Text}

abbrev pub Time : Type 0
Time = ℤ

abbrev pub Duration : Type 0
Duration = ℤ

abbrev pub zero_time : Time
zero_time = pos 0

pub data Status : Type 0 where
  pending running done dead : Status

-- ==
abbrev pub status_eq : Status → Status → Bool
status_eq pending pending = true
status_eq running running = true
status_eq done done = true
status_eq dead dead = true
status_eq _ _ = false

pub record TaskError : Type 0 where
  pub at : Time
  pub attempt : ℕ
  pub worker : Text
  pub message : Text

pub record Task : Type 0 where
  pub id : Text
  pub queue : Text
  pub type : Text
  pub unique_key : Text
  pub payload : Text
  pub status : Status
  pub attempts : ℕ
  pub max_attempts : ℤ
  pub run_at : Time
  pub expires_at : Option Time
  pub leased_by : Text
  pub leased_until : Time
  pub lease_token : Text
  pub errors : List TaskError
  pub result : Text
  pub created_at : Time
  pub updated_at : Time

-- a.Before(b)
abbrev pub before : Time → Time → Bool
before a b = ltb (pos_part a + neg_part b) (pos_part b + neg_part a)

pub record QueuePolicy : Type 0 where
  pub name : Text
  pub ttl : Duration
  pub max_attempts : ℤ

pub record TaskPolicy : Type 0 where
  pub run_at : Time
  pub delay : Duration
  pub max_attempts : ℤ
  pub unique_key : Text

pub record ClaimOptions : Type 0 where
  pub worker_id : Text
  pub types : List Text
  pub queues : List Text
  pub fifo : Bool
  pub lease : Duration

pub record Outcome : Type 0 where
  pub task : Task
  pub result : Text
  pub failure : Option TaskError
  pub retry_at : Time
  pub terminal : Bool

pub record QueueCounters : Type 0 where
  pub enqueued : ℕ
  pub claimed : ℕ
  pub done : ℕ
  pub failed : ℕ
  pub dead : ℕ

-- The sentinel errors and error types of store.go. `duplicate` is a *DuplicateTaskError, with its
-- Key and ExistingID; `other` is any error that matches no sentinel. The wrapped texts are not kept.
pub data StoreError : Type 0 where
  no_task lease_lost not_found queue_conflict other : StoreError
  duplicate : Text → Text → StoreError

pub data Result {ℓ} (A : Type ℓ) : Type ℓ where
  ok : A → Result A
  err : StoreError → Result A
