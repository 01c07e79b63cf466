-- ===== src/Sdk/Collectors.antt =====
-- pkg/sdk/metrics/counter.go and gauge.go. A method returns the new record and the metrics that it
-- sends to the client; `now` is `time.Now()`.
pub mod Totals
use tinyobs.Base.{Bytes, Dict, List, [], ◌∷◌, if◌then◌else◌, insert, lookup_or}
use tinyobs.Float.{FloatOps}
use tinyobs.Metric.{Metric, Time, counter_type, gauge_type}
use tinyobs.Sdk.Labels.{make_key, make_labels}

pub record Counter (V : Type 0) : Type 0 where
  pub name : Bytes
  pub values : Dict V

pub record Gauge (V : Type 0) : Type 0 where
  pub name : Bytes
  pub values : Dict V

abbrev pub new_counter : {V : Type 0} → Bytes → Counter V
new_counter name = record { name = name; values = [] }

abbrev pub new_gauge : {V : Type 0} → Bytes → Gauge V
new_gauge name = record { name = name; values = [] }

module _ {V : Type 0} ⦃F : FloatOps V⦄ where
  -- The metric that a call sends.
  counted : Bytes → Bytes → Time → V → List Bytes → Metric V
  counted name type now v labels = record {
    name = name;
    type = type;
    value = v;
    label_map = make_labels labels;
    timestamp = now;
  }

  unfoldable pub counter_add : Time → V → List Bytes → Counter V → Counter V × List (Metric V)
  unfolding counted
  counter_add now v labels c =
      let key = make_key labels in
      let new_value = F.add (lookup_or key F.zero_value c.values) v in
      if F.lt v F.zero_value then (c, []) else (
        record c { values = insert key new_value c.values },
        counted c.name counter_type now new_value labels ∷ [],
      )

  unfoldable pub counter_inc : Time → List Bytes → Counter V → Counter V × List (Metric V)
  counter_inc now labels c = counter_add now (F.of_ℕ 1) labels c

  -- A new value in the map, and the metric sent for it.
  gauge_store : Time → V → List Bytes → Gauge V → Gauge V × List (Metric V)
  unfolding counted
  gauge_store now v labels g = (
    record g { values = insert (make_key labels) v g.values },
    counted g.name gauge_type now v labels ∷ [],
  )

  unfoldable pub gauge_set : Time → V → List Bytes → Gauge V → Gauge V × List (Metric V)
  unfolding gauge_store
  gauge_set now v labels g = gauge_store now v labels g

  unfoldable pub gauge_add : Time → V → List Bytes → Gauge V → Gauge V × List (Metric V)
  unfolding gauge_store
  gauge_add now v labels g =
      gauge_store now (F.add (lookup_or (make_key labels) F.zero_value g.values) v) labels g

  unfoldable pub gauge_sub : Time → V → List Bytes → Gauge V → Gauge V × List (Metric V)
  unfolding gauge_store
  gauge_sub now v labels g =
      gauge_store now (F.sub (lookup_or (make_key labels) F.zero_value g.values) v) labels g

  unfoldable pub gauge_inc : Time → List Bytes → Gauge V → Gauge V × List (Metric V)
  gauge_inc now labels g = gauge_add now (F.of_ℕ 1) labels g

  unfoldable pub gauge_dec : Time → List Bytes → Gauge V → Gauge V × List (Metric V)
  gauge_dec now labels g = gauge_sub now (F.of_ℕ 1) labels g
