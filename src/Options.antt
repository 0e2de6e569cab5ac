-- ===== src/Options.antt =====
-- options.go: the configuration of a manager, and the options that set its fields.
--
-- The logger, the hooks and the middleware observe or wrap a run and are no part of the model; the
-- fields that hold them are left out. A nil pointer or interface is `none`.
pub mod Setters
use gotasks.Task.{Duration, QueuePolicy}
use gotasks.Prelude.Text.{Text}
use gotasks.Prelude.Int.{ℤ, negsuc}
use gotasks.Prelude.{Bool, List, ◌*◌, Option, ℕ}
use gotasks.Backoff.{Backoff}

pub record PipelineConfig : Type 0 where
  pub claim_batch : ℤ
  pub queue_lease : Duration
  pub finalize_batch : ℤ
  pub finalize_interval : Duration
  pub no_finalize : Bool

pub record MetricsConfig : Type 0 where
  pub interval : Duration
  pub retention : Duration

pub record JanitorConfig : Type 0 where
  pub reap_interval : Duration
  pub no_reap : Bool
  pub metrics : Option MetricsConfig

pub record Config : Type 0 where
  pub workers : ℤ
  pub poll_interval : Duration
  pub lease_time : Duration
  pub default_max_attempts : ℤ
  pub default_timeout : Duration
  pub backoff : Option Backoff
  pub janitor : JanitorConfig
  pub heartbeat_interval : Duration
  pub pipeline : Option PipelineConfig
  pub disable_change_stream : Bool
  pub fallback_poll : Duration
  pub fifo : Bool
  pub queues : List QueuePolicy
  pub manager_name : Text

abbrev pub millisecond : ℕ
millisecond = 1_000_000

abbrev pub second : ℕ
second = 1_000_000_000

abbrev pub minute : ℕ
minute = 60 * second

abbrev pub hour : ℕ
hour = 60 * minute

-- HeartbeatAuto
abbrev pub heartbeat_auto : Duration
heartbeat_auto = negsuc 0
