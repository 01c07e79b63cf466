-- ===== src/Tests/DashboardTests.antt =====
-- The websocket hub, and the range query of the dashboard.
use tinyobs.Base.{
  ℕ, ◌*◌, ◌≡◌, ◌≤◌, ◌<◌, arith, refl, List, [], ◌∷◌, some, codes, length, All, str_eq,
}
use tinyobs.Ingest.Dashboard
use tinyobs.Ingest.Dashboard.Answers.{range_data-bounded}
use tinyobs.Ingest.Dashboard.Downsampling.{downsample_points-length}
use tinyobs.Ingest.Dashboard.Handlers.{range_data, data_of}
use tinyobs.Ingest.Dashboard.{
  Point, SeriesData, downsample_points, bucket_loop, average_bucket, sum_values,
}
use tinyobs.Ingest.Websocket.Blocking.{IsBlocked, hub_blocks, connections}
use tinyobs.Ingest.Websocket.{MetricsHub, new_metrics_hub, unregistering, Steps}
use tinyobs.Metric.{Metric, gauge_type}
use tinyobs.Query.Outcome.{ok, panic}
use tinyobs.Storage.Memory.{memory_ops}
use tinyobs.Tests.Data.{ℕ_ops}

abbrev point : ℕ → ℕ → Point ℕ
point t v = record { timestamp = t; value = v }

abbrev points : List (Point ℕ)
points = point 1 4 ∷ point 2 8 ∷ point 3 6 ∷ point 4 2 ∷ point 5 7 ∷ []

-- Five points for three: the bucket size is 1, and nothing is thinned out.
all_five : downsample_points points 3 ≡ ok points
unfolding downsample_points bucket_loop average_bucket sum_values
all_five = refl

two_of_five : downsample_points points 2 ≡ ok (point 1 6 ∷ point 3 4 ∷ point 5 7 ∷ [])
unfolding downsample_points bucket_loop average_bucket sum_values
two_of_five = refl

downsample_points-length_example :
    (qs : List (Point ℕ)) × (downsample_points points 2 ≡ ok qs) × (2 ≤ length qs) × (length qs < 4)
downsample_points-length_example = downsample_points-length points 2 (omega arith) (omega arith)

abbrev measured : ℕ → ℕ → Metric ℕ
measured t v = record {
  name = codes "load";
  type = gauge_type;
  value = v;
  label_map = some ((codes "host", codes "web") ∷ []);
  timestamp = t * 1_000_000;
}

abbrev loads : List (Metric ℕ)
loads = measured 3 6 ∷ measured 1 4 ∷ measured 2 8 ∷ []

range_data-bounded_example :
    (out : List (SeriesData ℕ)) × (range_data memory_ops 2 (codes "load") (some loads)
      ≡ ok (data_of out))
    × All (λ d. length d.points < 4) out
range_data-bounded_example =
    range_data-bounded memory_ops 2 (codes "load") loads (omega arith)
      ((omega arith, tt), ((omega arith, tt), ((omega arith, tt), tt)))

-- The write to the full channel that `Run` waits for.
abbrev blocked : MetricsHub
blocked = record new_metrics_hub {
  clients = connections 11;
  unregister = connections 10;
  position = unregistering (10 ∷ []);
}

hub_blocks_example :
    (h : MetricsHub) × (c : ℕ) × (rest : List ℕ) × Steps new_metrics_hub h
    × IsBlocked c rest (connections 11) h
hub_blocks_example = hub_blocks 11 (omega arith)

-- A label with an empty key ends the query in a panic.
empty_key :
    range_data memory_ops 2
      (codes "load")
      (some (record (measured 1 4) { label_map = some (([], []) ∷ []) } ∷ []))
    ≡ panic
unfolding range_data Dashboard.group_metrics Dashboard.read_label_loop Dashboard.read_user_label
    str_eq
empty_key = refl
