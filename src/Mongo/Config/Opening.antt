-- ===== src/Mongo/Config/Opening.antt =====
-- What New and FromClient of mongostore leave behind.
use gotasks.Prelude.Int.{pos, ◌≤ℤ◌, ltb_ℤ}
use gotasks.Prelude.{
  arith, true, refl, ◌≡◌, List, if◌then◌else◌, none, false, inl, inr, Option, Bool, some,
  Bool-cases, ◌||◌, ◌&&◌, not,
}
use gotasks.Mongo.Config.{
  default_config, new_store, Config, set_all, close, build, Setter, from_client, Answers, Settings,
  Link, connected, disconnected, disconnect, owned,
}

-- A store with a chunk size that Enqueue can work with.
abbrev pub IsUsable : Settings → Type 0
IsUsable s = (pos 1 ≤ℤ s.enqueue_chunk) × (s.enqueue_chunk ≤ℤ pos 10000)

-- The options and the server allow for a store on a client.
abbrev pub can_build : Config → Answers → Bool
can_build cfg a =
    not (ltb_ℤ cfg.enqueue_chunk (pos 1) || ltb_ℤ (pos 10000) cfg.enqueue_chunk)
    && a.ensures_indexes

abbrev pub can_open : Config → Answers → Bool
can_open cfg a = a.connects && (not (cfg.ping && not a.pings) && can_build cfg a)

-- With a store, the client is connected, and Close disconnects it; with an error, it is not connected.
abbrev pub IsClean : Config → Answers → Link × Option Settings → Type 0
IsClean cfg a (l, none) = (l ≡ disconnected) × (can_open cfg a ≡ false)
IsClean cfg a (l, some s) =
    (l ≡ connected) × (close s l ≡ disconnected) × IsUsable s × (can_open cfg a ≡ true)

-- Close leaves the client of the caller as it is.
abbrev pub IsLent : Config → Answers → Option Settings → Type 0
IsLent cfg a none = can_build cfg a ≡ false
IsLent cfg a (some s) = ((l : Link) → close s l ≡ l) × IsUsable s × (can_build cfg a ≡ true)

build-IsLent : (a : Answers) (cfg : Config) → IsLent cfg a (build a cfg)
unfolding build close
build-IsLent a cfg =
    elim (Bool-cases (ltb_ℤ cfg.enqueue_chunk (pos 1) || ltb_ℤ (pos 10000) cfg.enqueue_chunk)) [
      | inl outside ↦ rw outside (ground arith)
      | inr within ↦ elim (Bool-cases a.ensures_indexes) [
        | inl indexed ↦
            rw (within, indexed) ((λ l. refl), (ground arith, ground arith), ground arith)
        | inr failed ↦ rw (within, failed) (ground arith)
      ]
    ]

owned-IsClean :
    (cfg : Config) (a : Answers) (r : Option Settings)
    → a.connects ≡ true
    → (cfg.ping && not a.pings) ≡ false
    → IsLent cfg a r
    → IsClean cfg a (owned r connected)
unfolding close disconnect
owned-IsClean cfg a none c p h = (refl, ground arith)
owned-IsClean cfg a (some s) c p (_, u, h) = (refl, refl, u, ground arith)

settled-IsClean :
    (cfg : Config) (a : Answers) (there silent : Bool)
    → a.connects ≡ there
    → (cfg.ping && not a.pings) ≡ silent
    → IsClean cfg a (
        if there
        then (if silent then (disconnect connected, none) else owned (build a cfg) connected)
        else (disconnected, none))
unfolding disconnect
settled-IsClean cfg a false silent c p = (refl, ground arith)
settled-IsClean cfg a true true c p = (refl, ground arith)
settled-IsClean cfg a true false c p = owned-IsClean cfg a (build a cfg) c p (build-IsLent a cfg)

-- New connects, pings if it is to, and makes the indexes: if all goes well and the chunk size is one of
-- 1 to 10000, it returns a store whose client is connected until Close disconnects it, and else an
-- error, with its client disconnected. FromClient returns a store if the chunk size is one of these and
-- the indexes are made, and an error else; Close of its store leaves the client to the caller.
pub new_store-IsClean :
    (os : List Setter) (a : Answers)
    → IsClean (set_all os default_config) a (new_store os a)
      × IsLent (set_all os default_config) a (from_client os a)
unfolding new_store from_client
new_store-IsClean os a = (
  settled-IsClean (set_all os default_config) a _ _ refl refl,
  build-IsLent a (set_all os default_config),
)
