-- ===== src/Manager/New.antt =====
-- New of manager.go: the defaults, the checks in the order of the source, and the resolved values.
pub mod Accepted
pub mod Valid
pub mod Queues
pub mod Again
use gotasks.Policies.{put_policy, find_policy}
use gotasks.Task.{QueuePolicy, Duration}
use gotasks.Prelude.Text.{Text, bytes, text_eq}
use gotasks.Prelude.Int.{leb_ℤ, ltb_ℤ, eqb_ℤ, ◌*ℤ◌, pos, ℤ}
use gotasks.Prelude.{
  none, Option, false, if◌then◌else◌, [], true, List, length, not, ◌||◌, some, ◌∷◌, ◌==◌, ◌*◌, Bool,
}
use gotasks.Options.{
  MetricsConfig, JanitorConfig, minute, hour, millisecond, PipelineConfig, second, Config,
}
use gotasks.Backoff.{exponential_backoff}
use Prim.Native.Nat.{compare, Ordering}

pub data ConfigError : Type 0 where
  store_nil workers_low poll_low lease_low attempts_low backoff_nil fallback_low : ConfigError
  no_queues queue_unnamed ttl_negative queue_attempts_negative queue_twice : ConfigError
  claim_batch_range queue_lease_negative finalize_batch_range : ConfigError
  finalize_interval_negative reap_negative metrics_interval_low retention_low : ConfigError
  manager_id_failed : ConfigError

pub data Checked {ℓ} (A : Type ℓ) : Type ℓ where
  accept : A → Checked A
  reject : ConfigError → Checked A

infixl 5 ◌>>=◌ ◌>>◌
abbrev pub ◌>>=◌ {ℓ κ} : {A : Type ℓ} {B : Type κ} → Checked A → (A → Checked B) → Checked B
accept a >>= f = f a
reject e >>= f = reject e

abbrev pub ◌>>◌ {ℓ} : {B : Type ℓ} → Checked (Unit {0}) → Checked B → Checked B
m >> k = m >>= λ _. k

-- if bad { return nil, err }
abbrev pub fail_if : Bool → ConfigError → Checked (Unit {0})
fail_if true e = reject e
fail_if false e = accept tt

-- The configuration that the options start from; the jitter of its strategy comes from `draw`.
unfoldable pub default_config : (ℤ → ℤ) → Config
default_config draw = record {
  workers = pos 4;
  poll_interval = pos (2 * second);
  lease_time = pos (60 * second);
  default_max_attempts = pos 3;
  default_timeout = pos (60 * second);
  backoff = some (exponential_backoff draw (pos (30 * second)) (pos hour));
  janitor = record { reap_interval = pos 0; no_reap = false; metrics = none };
  heartbeat_interval = pos 0;
  pipeline = none;
  disable_change_stream = false;
  fallback_poll = pos (30 * second);
  fifo = false;
  queues = [];
  manager_name = [];
}

abbrev pub is_none {ℓ} : {A : Type ℓ} → Option A → Bool
is_none none = true
is_none (some a) = false

unfoldable pub check_basics : Config → Checked (Unit {0})
check_basics c = do
  fail_if (ltb_ℤ c.workers (pos 1)) workers_low
  fail_if (leb_ℤ c.poll_interval (pos 0)) poll_low
  fail_if (leb_ℤ c.lease_time (pos 0)) lease_low
  fail_if (ltb_ℤ c.default_max_attempts (pos 1)) attempts_low
  fail_if (is_none c.backoff) backoff_nil
  fail_if (leb_ℤ c.fallback_poll (pos 0)) fallback_low
  fail_if (length c.queues == 0) no_queues

-- The loop over cfg.Queues, with the map `queues` so far.
unfoldable pub check_queues : List QueuePolicy → List QueuePolicy → Checked (List QueuePolicy)
check_queues [] seen = accept seen
check_queues (q ∷ qs) seen = do
  fail_if (text_eq q.name []) queue_unnamed
  fail_if (ltb_ℤ q.ttl (pos 0)) ttl_negative
  fail_if (ltb_ℤ q.max_attempts (pos 0)) queue_attempts_negative
  fail_if (not (is_none (find_policy q.name seen))) queue_twice
  check_queues qs (put_policy q seen)

-- if x == 0 { x = d }
abbrev pub or_default : ℤ → ℤ → ℤ
or_default x d = if eqb_ℤ x (pos 0) then d else x

abbrev pub min_ℤ : ℤ → ℤ → ℤ
min_ℤ a b = if ltb_ℤ b a then b else a

unfoldable pub resolve_finalize : PipelineConfig → Checked PipelineConfig
resolve_finalize p = do
  let size = or_default p.finalize_batch (min_ℤ (pos 2 *ℤ p.claim_batch) (pos 1000))
  fail_if (ltb_ℤ size (pos 2) || ltb_ℤ (pos 1000) size) finalize_batch_range
  fail_if (ltb_ℤ p.finalize_interval (pos 0)) finalize_interval_negative
  accept (record p {
    finalize_batch = size;
    finalize_interval = or_default p.finalize_interval (pos (300 * millisecond));
  })

unfoldable pub resolve_pipeline : Duration → PipelineConfig → Checked PipelineConfig
resolve_pipeline lease_time p = do
  let batch = or_default p.claim_batch (pos 32)
  fail_if (ltb_ℤ batch (pos 1) || ltb_ℤ (pos 100) batch) claim_batch_range
  fail_if (ltb_ℤ p.queue_lease (pos 0)) queue_lease_negative
  let q = record p { claim_batch = batch; queue_lease = or_default p.queue_lease lease_time }
  if q.no_finalize then accept q else resolve_finalize q

abbrev pub resolve_pipeline? : Duration → Option PipelineConfig → Checked (Option PipelineConfig)
resolve_pipeline? lease_time none = accept none
resolve_pipeline? lease_time (some p) = resolve_pipeline lease_time p >>= λ q. accept (some q)

unfoldable pub resolve_metrics : MetricsConfig → Checked MetricsConfig
resolve_metrics mc = do
  let interval = or_default mc.interval (pos minute)
  fail_if (ltb_ℤ interval (pos second)) metrics_interval_low
  let retention = or_default mc.retention (pos (7 * 24 * hour))
  fail_if (ltb_ℤ retention (pos minute)) retention_low
  accept (record { interval = interval; retention = retention })

abbrev pub resolve_metrics? : Option MetricsConfig → Checked (Option MetricsConfig)
resolve_metrics? none = accept none
resolve_metrics? (some mc) = resolve_metrics mc >>= λ r. accept (some r)

unfoldable pub resolve_janitor : JanitorConfig → Checked JanitorConfig
resolve_janitor j = do
  let reap = or_default j.reap_interval (pos (60 * second))
  fail_if (ltb_ℤ reap (pos 0)) reap_negative
  metrics ← resolve_metrics? j.metrics
  accept (record { reap_interval = reap; no_reap = j.no_reap; metrics = metrics })

-- if cfg.ManagerName == "" { cfg.ManagerName = "manager" }
unfoldable pub resolve_name : Text → Text
resolve_name name = if text_eq name [] then bytes "manager" else name

-- The configuration with its defaults filled in, and the declared queues by name.
unfoldable pub resolve_config : Config → Checked (Config × List QueuePolicy)
resolve_config c = do
  check_basics c
  queues ← check_queues c.queues []
  pipeline ← resolve_pipeline? c.lease_time c.pipeline
  janitor ← resolve_janitor c.janitor
  accept (
    record c { pipeline = pipeline; manager_name = resolve_name c.manager_name; janitor = janitor },
    queues,
  )
