-- ===== src/Options/Setters.antt =====
-- The functional options of options.go.
use gotasks.Task.{QueuePolicy, Duration}
use gotasks.Prelude.Text.{Text}
use gotasks.Prelude.Int.{ℤ}
use gotasks.Prelude.{true, ◌++◌, Option, ◌∷◌, [], some, List}
use gotasks.Options.{Config, PipelineConfig, JanitorConfig, heartbeat_auto}
use gotasks.Backoff.{Backoff}

-- type Option func(*Config)
abbrev pub Setter : Type 0
Setter = Config → Config

unfoldable pub with_workers : ℤ → Setter
with_workers n c = record c { workers = n }

unfoldable pub with_poll_interval : Duration → Setter
with_poll_interval d c = record c { poll_interval = d }

unfoldable pub with_lease_time : Duration → Setter
with_lease_time d c = record c { lease_time = d }

unfoldable pub with_default_max_attempts : ℤ → Setter
with_default_max_attempts n c = record c { default_max_attempts = n }

unfoldable pub with_default_timeout : Duration → Setter
with_default_timeout d c = record c { default_timeout = d }

unfoldable pub with_backoff : Option Backoff → Setter
with_backoff b c = record c { backoff = b }

unfoldable pub without_change_stream : Setter
without_change_stream c = record c { disable_change_stream = true }

unfoldable pub with_fallback_poll : Duration → Setter
with_fallback_poll d c = record c { fallback_poll = d }

unfoldable pub with_manager_name : Text → Setter
with_manager_name name c = record c { manager_name = name }

unfoldable pub with_janitor : JanitorConfig → Setter
with_janitor jc c = record c { janitor = jc }

unfoldable pub with_fifo : Setter
with_fifo c = record c { fifo = true }

unfoldable pub with_queues : List QueuePolicy → Setter
with_queues qs c = record c { queues = c.queues ++ qs }

unfoldable pub with_pipeline_mode : PipelineConfig → Setter
with_pipeline_mode pc c = record c { pipeline = some pc }

unfoldable pub with_heartbeat : Setter
with_heartbeat c = record c { heartbeat_interval = heartbeat_auto }

unfoldable pub with_heartbeat_interval : Duration → Setter
with_heartbeat_interval d c = record c { heartbeat_interval = d }

-- for _, o := range opts { o(&cfg) }
unfoldable pub apply_setters : List Setter → Config → Config
apply_setters [] c = c
apply_setters (o ∷ os) c = apply_setters os (o c)
