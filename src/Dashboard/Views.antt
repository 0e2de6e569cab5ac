-- ===== src/Dashboard/Views.antt =====
-- overview, queueDetail and metrics of dashboard.go.
use gotasks.Dashboard.{
  Response, queues_body, queue_body, points_body, queue_required, bad_request, write_err, write_ok,
}
use gotasks.Mongo.Driver.{Tasks}
use gotasks.Mongo.Listing.{MetricPoint}
use gotasks.Mongo.Metrics.{Metrics, metrics_series}
use gotasks.Mongo.Overview
use gotasks.Mongo.Overview.{QueueOverview, QueueReads, View}
use gotasks.Options.{second}
use gotasks.Prelude.{ℕ, ◌*◌, List, [], Option, none, some, if◌then◌else◌, ◌&&◌}
use gotasks.Prelude.Int.{ℤ, pos, ltb_ℤ, leb_ℤ, ◌-ℤ◌}
use gotasks.Prelude.Text.{Text, text_eq}
use gotasks.Task.{Result, ok, err, Time, Duration}

abbrev pub overview_response : Result (List QueueOverview × Text × ℕ) → Response
overview_response (err e) = write_err e
overview_response (ok (rows, next_one, total)) = write_ok (queues_body rows next_one total)

abbrev pub queue_response : Result QueueOverview → Response
queue_response (err e) = write_err e
queue_response (ok row) = write_ok (queue_body row)

abbrev pub points_response : Result (List MetricPoint) → Response
points_response (err e) = write_err e
points_response (ok points) = write_ok (points_body points)

abbrev pub hour : ℕ
hour = 3600 * second

-- With what time.ParseDuration makes of the parameter, if it is there and no error.
unfoldable pub since_of : Option Duration → Duration
since_of none = pos hour
since_of (some d) = if ltb_ℤ (pos 0) d && leb_ℤ d (pos (30 * 24 * hour)) then d else pos hour

module _ (c : Tasks) (q : QueueReads) (view : View c) where
  -- With what strconv.Atoi makes of the limit.
  unfoldable pub overview : (after : Text) → (limit : ℤ) → Response
  overview after limit = overview_response (Overview.overview c q view after limit)

  unfoldable pub queue_detail : Text → Response
  queue_detail name = queue_response (Overview.queue_detail c q view name)

unfoldable pub metrics :
    (m : Metrics) → Text → Option Duration → (now : Time) → (s later : m.State) → Response
metrics m queue since now s later =
    if text_eq queue []
    then record { status = bad_request; body = queue_required }
    else points_response (metrics_series m queue (now -ℤ since_of since) s later)
