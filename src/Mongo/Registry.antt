-- ===== src/Mongo/Registry.antt =====
-- registry.go: the queue policies, one document each, with their TTL in whole milliseconds.
pub mod Guard
use gotasks.Task.{ok, err, queue_conflict, other, Time, StoreError, QueuePolicy, Duration, Result}
use gotasks.Prelude.Text.{text_eq, Text}
use gotasks.Prelude.Int.{quot_ℤ, ℤ, ◌*ℤ◌, pos, eqb_ℤ, wrap64}
use gotasks.Prelude.{
  List, Bool, false, map, none, [], if◌then◌else◌, some, Option, ◌&&◌, ℕ, true, ◌∷◌,
}
use gotasks.Mongo.Driver.{Reply, got, lost}

pub record QueueDoc : Type 0 where
  pub name : Text
  pub ttl_ms : ℤ
  pub max_attempts : ℤ
  pub created_at : Time
  pub updated_at : Time

-- The nanoseconds of a millisecond, and Duration.Milliseconds.
abbrev pub millisecond : ℕ
millisecond = 1000000

abbrev pub milliseconds : Duration → ℤ
milliseconds d = quot_ℤ d millisecond

unfoldable pub to_queue_doc : QueuePolicy → Time → QueueDoc
to_queue_doc q now = record {
  name = q.name;
  ttl_ms = milliseconds q.ttl;
  max_attempts = q.max_attempts;
  created_at = now;
  updated_at = now;
}

-- The product wraps around at 64 bits.
unfoldable pub to_policy : QueueDoc → QueuePolicy
to_policy d = record {
  name = d.name;
  ttl = wrap64 (d.ttl_ms *ℤ pos millisecond);
  max_attempts = d.max_attempts;
}

unfoldable pub agrees : QueueDoc → QueuePolicy → Bool
agrees d q = eqb_ℤ d.ttl_ms (milliseconds q.ttl) && eqb_ℤ d.max_attempts q.max_attempts

-- The commands on the queues collection. What other clients do to it since the last command is part
-- of a command's step.
pub record QueueDocs : Type 1 where
  pub State : Type 0
  -- The document with a name.
  pub registered_doc : Text → State → Option QueueDoc
  pub find_one : Text → State → State × Reply (Option QueueDoc)
  -- Whether the document was inserted: if not, its name is there already.
  pub insert_one : QueueDoc → State → State × Reply Bool
  -- In the order of the names.
  pub find_all : State → State × Reply (List QueueDoc)
  -- $set of the TTL, the attempts and updated_at, with $setOnInsert of created_at.
  -- Whether it was created.
  pub upsert : Text → (ttl_ms max_attempts : ℤ) → Time → State → State × Reply Bool

module _ (c : QueueDocs) where
  -- How the loop goes on, after the queue is registered.
  abbrev pub GoOn : Type 0
  GoOn = c.State → c.State × Option StoreError

  abbrev pub compared : GoOn → QueuePolicy → c.State → QueueDoc → c.State × Option StoreError
  compared go_on q s d = if agrees d q then go_on s else (s, some queue_conflict)

  -- The second look, after another manager has inserted the queue first.
  abbrev pub reread :
      GoOn → QueuePolicy → c.State × Reply (Option QueueDoc) → c.State × Option StoreError
  reread go_on q (s, lost) = (s, some other)
  reread go_on q (s, got none) = (s, some other)
  reread go_on q (s, got (some d)) = compared go_on q s d

  abbrev pub inserted : GoOn → QueuePolicy → c.State × Reply Bool → c.State × Option StoreError
  inserted go_on q (s, lost) = (s, some other)
  inserted go_on q (s, got true) = go_on s
  inserted go_on q (s, got false) = reread go_on q (c.find_one q.name s)

  abbrev pub looked_up :
      GoOn → QueuePolicy → Time → c.State × Reply (Option QueueDoc) → c.State × Option StoreError
  looked_up go_on q now (s, lost) = (s, some other)
  looked_up go_on q now (s, got none) = inserted go_on q (c.insert_one (to_queue_doc q now) s)
  looked_up go_on q now (s, got (some d)) = compared go_on q s d

  unfoldable pub register_queues : List QueuePolicy → Time → c.State → c.State × Option StoreError
  register_queues [] now s = (s, none)
  register_queues (q ∷ qs) now s =
      looked_up (λ s'. register_queues qs now s') q now (c.find_one q.name s)

  abbrev pub listed : c.State × Reply (List QueueDoc) → c.State × Result (List QueuePolicy)
  listed (s, lost) = (s, err other)
  listed (s, got ds) = (s, ok (map to_policy ds))

  unfoldable pub queues : c.State → c.State × Result (List QueuePolicy)
  queues s = listed (c.find_all s)

  abbrev pub upserted : c.State × Reply Bool → c.State × Option StoreError
  upserted (s, lost) = (s, some other)
  upserted (s, got x) = (s, none)

  unfoldable pub set_queue_policy : QueuePolicy → Time → c.State → c.State × Option StoreError
  set_queue_policy q now s =
      if text_eq q.name []
      then (s, some other)
      else upserted (c.upsert q.name (milliseconds q.ttl) q.max_attempts now s)
