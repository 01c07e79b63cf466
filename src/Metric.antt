-- ===== src/Metric.antt =====
-- pkg/sdk/metrics/types.go: a metric sample. A `time.Time` is the count of nanoseconds since the
-- zero Time of Go (January 1, year 1, UTC), so `IsZero` is a test for 0 and earlier instants do not
-- occur. The label map of a metric is `none` where it is nil.
use tinyobs.Base.{ℕ, ◌*◌, Bytes, Dict, codes, Option, none, some, [], ◌∷◌}

abbrev pub Time : Type 0
Time = ℕ

-- `time.Second`, `time.Minute` and `time.Hour`
abbrev pub second : ℕ
second = 1_000_000_000

abbrev pub minute : ℕ
minute = 60 * second

abbrev pub hour : ℕ
hour = 60 * minute

abbrev pub Labels : Type 0
Labels = Dict Bytes

abbrev pub MetricType : Type 0
MetricType = Bytes

abbrev pub counter_type : MetricType
counter_type = codes "counter"

abbrev pub gauge_type : MetricType
gauge_type = codes "gauge"

abbrev pub histogram_type : MetricType
histogram_type = codes "histogram"

-- `V` is the type float64 of values.
pub record Metric (V : Type 0) : Type 0 where
  pub name : Bytes
  pub type : MetricType
  pub value : V
  pub label_map : Option Labels
  pub timestamp : Time

-- A nil map reads as an empty one.
abbrev pub read_labels : Option Labels → Labels
read_labels none = []
read_labels (some ls) = ls

-- The labels as `encoding/json` gives them back: an empty map is left out (`omitempty`), and reads
-- back as nil.
abbrev pub json_labels : Option Labels → Option Labels
json_labels (some (kv ∷ ls)) = some (kv ∷ ls)
json_labels _ = none

-- A metric as it comes out of JSON.
abbrev pub json_form : {V : Type 0} → Metric V → Metric V
json_form m = record m { label_map = json_labels m.label_map }
