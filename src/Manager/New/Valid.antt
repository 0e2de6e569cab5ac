-- ===== src/Manager/New/Valid.antt =====
-- What New guarantees of the configuration that the rest of the manager reads.
use mathlib.Core.Path.{subst}
use gotasks.Task.{Duration, QueuePolicy}
use gotasks.Prelude.Text.{Text, text_eq_iff}
use gotasks.Prelude.Int.{pos, ◌<ℤ◌, ◌≤ℤ◌}
use gotasks.Prelude.{All, List, arith, none, ◌≡◌, some, ◌≢◌, Option, [], false}
use gotasks.Options.{JanitorConfig, second, PipelineConfig, MetricsConfig, minute, Config}
use gotasks.Manager.New.Accepted.{>>=-accept, accept-injective}
use gotasks.Manager.New.Queues.{
  IsDeclared, AreDistinct, check_queues-IsDeclared, check_queues-AreDistinct,
}
use gotasks.Manager.New.{
  check_basics, check_queues, resolve_name, resolve_pipeline?, resolve_metrics?, resolve_pipeline,
  resolve_janitor, resolve_metrics, resolve_config, accept, is_none, resolve_finalize,
}

pub record IsPipelineOk (p : PipelineConfig) : Type 0 where
  pub batch_low : pos 1 ≤ℤ p.claim_batch
  pub batch_high : p.claim_batch ≤ℤ pos 100
  pub lease_pos : pos 0 <ℤ p.queue_lease
  pub finalize_low : p.no_finalize ≡ false → pos 2 ≤ℤ p.finalize_batch
  pub finalize_high : p.no_finalize ≡ false → p.finalize_batch ≤ℤ pos 1000
  pub interval_pos : p.no_finalize ≡ false → pos 0 <ℤ p.finalize_interval

pub record IsMetricsOk (m : MetricsConfig) : Type 0 where
  pub interval_low : pos second ≤ℤ m.interval
  pub retention_low : pos minute ≤ℤ m.retention

abbrev pub Given {ℓ} : {A : Type ℓ} → (A → Type 0) → Option A → Type 0
Given P none = Unit
Given P (some a) = P a

pub record IsResolved (c : Config) : Type 0 where
  pub workers_pos : pos 1 ≤ℤ c.workers
  pub poll_pos : pos 0 <ℤ c.poll_interval
  pub lease_pos : pos 0 <ℤ c.lease_time
  pub attempts_pos : pos 1 ≤ℤ c.default_max_attempts
  pub backoff_set : is_none c.backoff ≡ false
  pub fallback_pos : pos 0 <ℤ c.fallback_poll
  pub queues_some : c.queues ≢ []
  pub name_some : c.manager_name ≢ []
  pub reap_pos : pos 0 <ℤ c.janitor.reap_interval
  pub pipeline_ok : Given IsPipelineOk c.pipeline
  pub metrics_ok : Given IsMetricsOk c.janitor.metrics

resolve_finalize-ok :
    (p q : PipelineConfig)
    → resolve_finalize p ≡ accept q
    → (pos 2 ≤ℤ q.finalize_batch)
      × (q.finalize_batch ≤ℤ pos 1000)
      × (pos 0 <ℤ q.finalize_interval)
      × (q.claim_batch ≡ p.claim_batch)
      × (q.queue_lease ≡ p.queue_lease)
unfolding resolve_finalize
resolve_finalize-ok p q h = ground arith

resolve_pipeline-ok :
    (lease : Duration) (p q : PipelineConfig)
    → pos 0 <ℤ lease
    → resolve_pipeline lease p ≡ accept q
    → IsPipelineOk q
unfolding resolve_pipeline resolve_finalize
resolve_pipeline-ok lease p q l h = ground arith

resolve_pipeline?-ok :
    (lease : Duration) (p q : Option PipelineConfig)
    → pos 0 <ℤ lease
    → resolve_pipeline? lease p ≡ accept q
    → Given IsPipelineOk q
resolve_pipeline?-ok lease none q l h = subst (Given IsPipelineOk) (accept-injective h) tt
resolve_pipeline?-ok lease (some p) q l h =
    let (r, e, f) = >>=-accept (resolve_pipeline lease p) _ h in
    subst (Given IsPipelineOk) (accept-injective f) (resolve_pipeline-ok lease p r l e)

resolve_metrics-ok : (m r : MetricsConfig) → resolve_metrics m ≡ accept r → IsMetricsOk r
unfolding resolve_metrics
resolve_metrics-ok m r h = ground arith

resolve_metrics?-ok :
    (m r : Option MetricsConfig) → resolve_metrics? m ≡ accept r → Given IsMetricsOk r
resolve_metrics?-ok none r h = subst (Given IsMetricsOk) (accept-injective h) tt
resolve_metrics?-ok (some m) r h =
    let (x, e, f) = >>=-accept (resolve_metrics m) _ h in
    subst (Given IsMetricsOk) (accept-injective f) (resolve_metrics-ok m x e)

resolve_janitor-ok :
    (j r : JanitorConfig)
    → resolve_janitor j ≡ accept r
    → (pos 0 <ℤ r.reap_interval) × Given IsMetricsOk r.metrics
unfolding resolve_janitor
resolve_janitor-ok j r h =
    let e : resolve_metrics? j.metrics ≡ accept r.metrics = ground arith in
    (ground arith, resolve_metrics?-ok j.metrics r.metrics e)

resolve_name-ok : (name : Text) → resolve_name name ≢ []
unfolding resolve_name
resolve_name-ok name h = ground (arith, text_eq_iff name [])

-- What the first checks leave.
record IsBasic (c : Config) : Type 0 where
  workers_pos : pos 1 ≤ℤ c.workers
  poll_pos : pos 0 <ℤ c.poll_interval
  lease_pos : pos 0 <ℤ c.lease_time
  attempts_pos : pos 1 ≤ℤ c.default_max_attempts
  backoff_set : is_none c.backoff ≡ false
  fallback_pos : pos 0 <ℤ c.fallback_poll
  queues_some : c.queues ≢ []

check_basics-ok : (c : Config) {u : Unit {0}} → check_basics c ≡ accept u → IsBasic c
unfolding check_basics
check_basics-ok c h = ground arith

-- A manager runs only on a resolved configuration: with the zero values replaced, every bound that New
-- checks holds of it, and the queues that it declares have different names, none of them empty, and
-- no negative TTL or attempts, and stand under their names in the map that the manager keeps.
pub resolve_config-IsResolved :
    (c r : Config) (qs : List QueuePolicy)
    → resolve_config c ≡ accept (r, qs)
    → IsResolved r × All (IsDeclared qs) r.queues × AreDistinct r.queues
unfolding resolve_config
resolve_config-IsResolved c r qs h =
    let (u, basic, h₁) = >>=-accept (check_basics c) _ h in
    let (m, declared, h₂) = >>=-accept (check_queues c.queues []) _ h₁ in
    let (p, pipe, h₃) = >>=-accept (resolve_pipeline? c.lease_time c.pipeline) _ h₂ in
    let (j, jan, h₄) = >>=-accept (resolve_janitor c.janitor) _ h₃ in
    let b = check_basics-ok c basic in
    let (reap, metrics) = resolve_janitor-ok c.janitor j jan in
    subst
      (λ (x : Config × List QueuePolicy).
        IsResolved x.0 × All (IsDeclared x.1) x.0.queues × AreDistinct x.0.queues)
      (accept-injective h₄)
      (
        record {
          workers_pos = b.workers_pos;
          poll_pos = b.poll_pos;
          lease_pos = b.lease_pos;
          attempts_pos = b.attempts_pos;
          backoff_set = b.backoff_set;
          fallback_pos = b.fallback_pos;
          queues_some = b.queues_some;
          name_some = resolve_name-ok c.manager_name;
          reap_pos = reap;
          pipeline_ok = resolve_pipeline?-ok c.lease_time c.pipeline p b.lease_pos pipe;
          metrics_ok = metrics;
        },
        check_queues-IsDeclared c.queues [] m declared,
        check_queues-AreDistinct c.queues [] m declared,
      )
