-- ===== src/Mongo/Config.antt =====
-- The options of mongostore.go, New, FromClient and Close. What the server answers to the connection,
-- the ping and the indexes is an argument.
pub mod Opening
use gotasks.Prelude.Text.{bytes, Text}
use gotasks.Prelude.Int.{ℤ, pos, ltb_ℤ}
use gotasks.Prelude.{
  if◌then◌else◌, Option, some, ◌++◌, ◌&&◌, List, Bool, false, true, none, ◌∷◌, ◌||◌, not, [],
}

pub record Config : Type 0 where
  pub database : Text
  pub namespace : Text
  pub enqueue_chunk : ℤ
  pub ping : Bool

abbrev pub Setter : Type 0
Setter = Config → Config

unfoldable pub with_database : Text → Setter
with_database name c = record c { database = name }

unfoldable pub with_namespace : Text → Setter
with_namespace name c = record c { namespace = name }

unfoldable pub with_enqueue_chunk_size : ℤ → Setter
with_enqueue_chunk_size n c = record c { enqueue_chunk = n }

unfoldable pub with_ping : Bool → Setter
with_ping on c = record c { ping = on }

abbrev pub default_config : Config
default_config = record {
  database = bytes "gotasks";
  namespace = bytes "gotasks";
  enqueue_chunk = pos 1000;
  ping = true;
}

unfoldable pub set_all : List Setter → Config → Config
set_all [] c = c
set_all (o ∷ os) c = set_all os (o c)

-- The store, with the names of its collections.
pub record Settings : Type 0 where
  pub database : Text
  pub tasks_col : Text
  pub queues_col : Text
  pub metrics_col : Text
  pub enqueue_chunk : ℤ
  pub owns_client : Bool

pub record Answers : Type 0 where
  pub connects : Bool
  pub pings : Bool
  pub ensures_indexes : Bool

unfoldable pub build : Answers → Config → Option Settings
build a cfg =
    if (ltb_ℤ cfg.enqueue_chunk (pos 1) || ltb_ℤ (pos 10000) cfg.enqueue_chunk)
    then none
    else (if a.ensures_indexes
        then some (record {
          database = cfg.database;
          tasks_col = cfg.namespace ++ bytes "_tasks";
          queues_col = cfg.namespace ++ bytes "_queues";
          metrics_col = cfg.namespace ++ bytes "_metrics";
          enqueue_chunk = cfg.enqueue_chunk;
          owns_client = false;
        })
        else none)

-- Whether a client is connected.
pub data Link : Type 0 where
  connected disconnected : Link

-- client.Disconnect
unfoldable pub disconnect : Link → Link
disconnect l = disconnected

-- The end of New: without a store, the client is disconnected.
abbrev pub owned : Option Settings → Link → Link × Option Settings
owned none l = (disconnect l, none)
owned (some s) l = (l, some (record s { owns_client = true }))

-- The client that New makes, as it leaves it, and the store, if there is no error.
unfoldable pub new_store : List Setter → Answers → Link × Option Settings
new_store os a =
    let cfg = set_all os default_config in
    if a.connects
    then (if cfg.ping && not a.pings
        then (disconnect connected, none)
        else owned (build a cfg) connected)
    else (disconnected, none)

unfoldable pub from_client : List Setter → Answers → Option Settings
from_client os a = build a (set_all os default_config)

-- The store's client after Close.
unfoldable pub close : Settings → Link → Link
close s l = if s.owns_client then disconnect l else l
