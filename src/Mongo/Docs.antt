-- ===== src/Mongo/Docs.antt =====
-- The documents of mongostore.go, and their conversion from and to tasks.
--
-- The driver's object ids and its conversions between JSON and BSON are parameters. An object id is
-- twelve bytes, and stands for the number that they spell; a raw BSON document is its bytes. A field
-- that `omitempty` leaves out is its empty value, the zero time included.
use gotasks.Task.{Time, not_found, Task, Status, ok, Result, TaskError, err, zero_time}
use gotasks.Prelude.Text.{Text, text_eq, bytes}
use gotasks.Prelude.Int.{ℤ}
use gotasks.Prelude.{Option, some, none, ◌||◌, ◌∷◌, [], List, ℕ, if◌then◌else◌}
use gotasks.Manager.Enqueue.{trim_space}

abbrev pub ObjectId : Type 0
ObjectId = ℕ

-- What mongostore uses of the packages bson and primitive.
pub record Bson : Type 1 where
  pub Fields : Type 0
  pub unmarshal_ext_json : Text → Option Fields
  pub marshal : Fields → Option Text
  pub marshal_ext_json : Text → Option Text
  pub object_id_from_hex : Text → Option ObjectId
  pub hex : ObjectId → Text

pub record TaskDoc : Type 0 where
  pub id : ObjectId
  pub queue : Text
  pub type : Text
  pub unique_key : Text
  pub payload : Text
  pub status : Status
  pub attempts : ℕ
  pub max_attempts : ℤ
  pub run_at : Time
  pub leased_by : Text
  pub leased_until : Time
  pub lease_token : Text
  pub errors : List TaskError
  pub result : Text
  pub expires_at : Option Time
  pub created_at : Time
  pub updated_at : Time

module _ (b : Bson) where
  -- jsonToRaw: no bytes at all for no document; none if a conversion fails.
  unfoldable pub json_to_raw : Text → Option Text
  json_to_raw j =
      let t = trim_space j in
      if text_eq t [] || text_eq t (bytes "null")
      then some []
      else elim (b.unmarshal_ext_json t) [ none ↦ none | some d ↦ b.marshal d ]

  unfoldable pub raw_to_json : Text → Option Text
  raw_to_json [] = some []
  raw_to_json (x ∷ xs) = b.marshal_ext_json (x ∷ xs)

  abbrev pub task_of : TaskDoc → Text → Text → Task
  task_of d payload result = record {
    id = b.hex d.id;
    queue = d.queue;
    type = d.type;
    unique_key = d.unique_key;
    payload = payload;
    status = d.status;
    attempts = d.attempts;
    max_attempts = d.max_attempts;
    run_at = d.run_at;
    expires_at = d.expires_at;
    leased_by = d.leased_by;
    leased_until = d.leased_until;
    lease_token = d.lease_token;
    errors = d.errors;
    result = result;
    created_at = d.created_at;
    updated_at = d.updated_at;
  }

  -- toTask
  unfoldable pub to_task : TaskDoc → Option Task
  to_task d = elim (raw_to_json d.payload) [
    | none ↦ none
    | some payload ↦ elim (raw_to_json d.result) [
      | none ↦ none
      | some result ↦ some (task_of d payload result)
    ]
  ]

  -- oid
  unfoldable pub oid : Text → Result ObjectId
  oid id = elim (b.object_id_from_hex id) [ none ↦ err not_found | some o ↦ ok o ]

  -- The document that Enqueue builds for a task.
  unfoldable pub new_doc : ObjectId → Text → Task → TaskDoc
  new_doc id payload t = record {
    id = id;
    queue = t.queue;
    type = t.type;
    unique_key = t.unique_key;
    payload = payload;
    status = t.status;
    attempts = t.attempts;
    max_attempts = t.max_attempts;
    run_at = t.run_at;
    leased_by = [];
    leased_until = zero_time;
    lease_token = [];
    errors = [];
    result = [];
    expires_at = t.expires_at;
    created_at = t.created_at;
    updated_at = t.updated_at;
  }
