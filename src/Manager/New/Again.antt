-- ===== src/Manager/New/Again.antt =====
-- A resolved configuration is a fixed point of New's checks and defaults.
use gotasks.Task.{Duration, QueuePolicy}
use gotasks.Prelude.Text.{text_eq_iff, Text}
use gotasks.Prelude.Int.{pos, ◌<ℤ◌, ◌≤ℤ◌}
use gotasks.Prelude.{
  ◌∙◌, [], some, ap, List, Bool-cases, inr, ◌≡◌, Option, arith, none, sym, inl, ◌≢◌, refl,
}
use gotasks.Options.{PipelineConfig, Config, JanitorConfig, MetricsConfig}
use gotasks.Manager.New.Accepted.{>>=-accept, accept-injective}
use gotasks.Manager.New.Valid.{
  IsPipelineOk, IsMetricsOk, IsResolved, resolve_config-IsResolved, Given,
}
use gotasks.Manager.New.{
  accept, check_basics, check_queues, resolve_pipeline?, resolve_name, resolve_metrics?,
  resolve_pipeline, resolve_finalize, resolve_janitor, resolve_metrics, resolve_config,
}

resolve_finalize-fixed :
    (q : PipelineConfig)
    → pos 2 ≤ℤ q.finalize_batch
    → q.finalize_batch ≤ℤ pos 1000
    → pos 0 <ℤ q.finalize_interval
    → resolve_finalize q ≡ accept q
unfolding resolve_finalize
resolve_finalize-fixed q a b c = ground arith

resolve_pipeline-fixed :
    (lease : Duration) (q : PipelineConfig) → IsPipelineOk q → resolve_pipeline lease q ≡ accept q
unfolding resolve_pipeline
resolve_pipeline-fixed lease q fine = elim (Bool-cases q.no_finalize) [
  | inl off ↦ ground arith
  | inr on ↦ ground (
    arith,
    resolve_finalize-fixed q (fine.finalize_low on) (fine.finalize_high on) (fine.interval_pos on),
  )
]

resolve_pipeline?-fixed :
    (lease : Duration) (q : Option PipelineConfig)
    → Given IsPipelineOk q
    → resolve_pipeline? lease q ≡ accept q
resolve_pipeline?-fixed lease none fine = refl
resolve_pipeline?-fixed lease (some q) fine = rw (resolve_pipeline-fixed lease q fine)

resolve_metrics?-fixed :
    (m : Option MetricsConfig) → Given IsMetricsOk m → resolve_metrics? m ≡ accept m
unfolding resolve_metrics
resolve_metrics?-fixed none fine = refl
resolve_metrics?-fixed (some m) fine = ground arith

resolve_janitor-fixed :
    (j : JanitorConfig)
    → pos 0 <ℤ j.reap_interval
    → Given IsMetricsOk j.metrics
    → resolve_janitor j ≡ accept j
unfolding resolve_janitor
resolve_janitor-fixed j h fine = ground (arith, resolve_metrics?-fixed j.metrics fine)

check_basics-fixed : (c : Config) → IsResolved c → check_basics c ≡ accept tt
unfolding check_basics
check_basics-fixed c r = ground arith

resolve_name-fixed : (name : Text) → name ≢ [] → resolve_name name ≡ name
unfolding resolve_name
resolve_name-fixed name h = ground (arith, text_eq_iff name [])

resolve_config-parts :
    (r : Config) (qs : List QueuePolicy)
    → IsResolved r
    → check_queues r.queues [] ≡ accept qs
    → resolve_config r ≡ accept (r, qs)
unfolding resolve_config
resolve_config-parts r qs v q = rw (
  check_basics-fixed r v,
  q,
  resolve_pipeline?-fixed r.lease_time r.pipeline v.pipeline_ok,
  resolve_janitor-fixed r.janitor v.reap_pos v.metrics_ok,
  resolve_name-fixed r.manager_name v.name_some,
)

-- The declared queues are looked at as they were given.
pub resolve_config-queues :
    (c r : Config) (qs : List QueuePolicy)
    → resolve_config c ≡ accept (r, qs)
    → (r.queues ≡ c.queues) × (check_queues c.queues [] ≡ accept qs)
unfolding resolve_config
resolve_config-queues c r qs h =
    let (u, basic, h₁) = >>=-accept (check_basics c) _ h in
    let (names, declared, h₂) = >>=-accept (check_queues c.queues []) _ h₁ in
    let (p, pipe, h₃) = >>=-accept (resolve_pipeline? c.lease_time c.pipeline) _ h₂ in
    let (j, jan, h₄) = >>=-accept (resolve_janitor c.janitor) _ h₃ in
    let same = accept-injective h₄ in
    (
      sym (ap (λ (x : Config × List QueuePolicy). x.0.queues) same),
      declared ∙ ap accept (ap (λ (x : Config × List QueuePolicy). x.1) same),
    )

-- New accepts a configuration that it has resolved, with the same queues, and changes nothing more
-- in it.
pub resolve_config-fixed :
    (c r : Config) (qs : List QueuePolicy)
    → resolve_config c ≡ accept (r, qs)
    → resolve_config r ≡ accept (r, qs)
resolve_config-fixed c r qs h =
    let (same, declared) = resolve_config-queues c r qs h in
    resolve_config-parts r qs (resolve_config-IsResolved c r qs h).0
      (ap (λ x. check_queues x []) same ∙ declared)
