-- ===== src/Tests/CompactionTests.antt =====
-- Compaction, on samples of two buckets. The text of a time is the time itself.
use tinyobs.Base.{
  ℕ, ◌+◌, ◌-◌, ◌*◌, ◌^◌, ◌≤◌, ◌<◌, ◌≡◌, refl, true, false, ltb, List, [], ◌∷◌, some, Bytes, codes,
  All, filter, length, lookup, lookup_or, arith, insert, str_eq,
}
use tinyobs.Compaction.Aggregate.{
  Aggregate, resolution_5m, stored_labels, average, scan_aggregate, to_metric, from_metric,
}
use tinyobs.Compaction.Compactor.{
  aggregate_key, is_raw, add_raw, absorb, group_raw, group_step, group_5m, write_all, compact_5m,
  compact_1h, compact_and_cleanup,
}
use tinyobs.Compaction.Cleanup.{is_recent_raw, compact_and_cleanup-recent, compact_and_cleanup-old}
use tinyobs.Compaction.Conservation.{samples, samples_5m, group_raw_conserves}
use tinyobs.Compaction.Decimal.{is_digit, value_of, format_uint, scan_uint}
use tinyobs.Compaction.Extremes.{group_raw-IsCovered}
use tinyobs.Float.Order.{IsStrictOrder}
use tinyobs.Compaction.RoundTrip.{from_metric-to_metric}
use tinyobs.Compaction.Rounding.{round_to_5_minutes}
use tinyobs.Compaction.Untraced.{without_late, compact_and_cleanup-without_late}
use tinyobs.Metric.{Time, Metric, read_labels, gauge_type, minute, hour}
use tinyobs.Storage.Memory.{
  matches, in_range, name_matches, labels_match, label_matches, query, query_loop, write, delete,
  delete_loop, Storage, memory_ops, resolution_of,
}
use tinyobs.Storage.{resolution_raw}
use tinyobs.Tests.Data.{ℕ_ops, digits_value}

abbrev rfc3339 : Time → Bytes
rfc3339 t = t ∷ []

abbrev sample : Time → ℕ → Metric ℕ
sample t v = record {
  name = codes "load";
  type = gauge_type;
  value = v;
  label_map = some ((codes "host", codes "a") ∷ []);
  timestamp = t;
}

abbrev raw : List (Metric ℕ)
raw = sample (hour + minute) 4 ∷ sample (hour + 2 * minute) 6 ∷ sample (hour + 7 * minute) 5 ∷ []

abbrev bucket : Aggregate ℕ
bucket = record {
  name = codes "load";
  labels = (codes "host", codes "a") ∷ [];
  timestamp = hour;
  resolution = resolution_5m;
  sum = 100;
  count = 12;
  min = 50;
  max = 60;
}

abbrev stored : List (Metric ℕ)
stored = to_metric bucket ∷ sample hour 5 ∷ to_metric (record bucket { count = 30 }) ∷ []

ltb-IsStrictOrder : IsStrictOrder ltb
ltb-IsStrictOrder = record { irrefl = λ a. ground arith; trans = λ a b c h k. ground arith }

group_raw_conserves_example : samples (group_raw rfc3339 [] raw) ≡ length (filter is_raw raw)
unfolding lookup_or str_eq
group_raw_conserves_example = group_raw_conserves rfc3339 raw (omega arith)

small : samples_5m stored < 2 ^ 64
unfolding from_metric lookup to_metric stored_labels insert str_eq scan_aggregate scan_uint
    lookup_or format_uint is_digit value_of
small = omega arith

from_metric-to_metric_example :
    from_metric (to_metric bucket) ≡ some (record bucket { sum = 100 - 48; min = 2; max = 12 })
from_metric-to_metric_example =
    from_metric-to_metric (λ v. digits_value 0 (v ∷ [])) (λ v. refl) bucket (refl, tt) (omega arith)

group_raw-IsCovered_example :
    All
      (λ m.
        (a : Aggregate ℕ) × (lookup
            (aggregate_key rfc3339 m.name
              (read_labels m.label_map)
              (round_to_5_minutes m.timestamp))
            (group_raw rfc3339 [] raw)
          ≡ some a)
        × (ltb m.value a.min ≡ false)
        × (ltb a.max m.value ≡ false))
      (filter is_raw raw)
group_raw-IsCovered_example = group_raw-IsCovered rfc3339 ltb-IsStrictOrder [] raw

abbrev storage : Storage ℕ
storage = record {
  metrics = sample (181 * hour + minute) 4 ∷ sample (190 * hour) 6 ∷ sample (199 * hour) 5 ∷ [];
  max_metrics = 10;
}

compact_and_cleanup-recent_example :
    filter
      (is_recent_raw (200 * hour))
      (compact_and_cleanup rfc3339 memory_ops (200 * hour) storage).0.metrics
    ≡ filter (is_recent_raw (200 * hour)) storage.metrics
compact_and_cleanup-recent_example = compact_and_cleanup-recent rfc3339 (200 * hour) storage

succeeds : (compact_and_cleanup rfc3339 memory_ops (200 * hour) storage).1 ≡ true
unfolding compact_and_cleanup compact_5m compact_1h group_raw group_5m group_step write_all query
    query_loop matches in_range name_matches labels_match label_matches str_eq lookup lookup_or
    add_raw insert write delete delete_loop from_metric to_metric stored_labels absorb average
    round_to_5_minutes
succeeds = refl

compact_and_cleanup-old_example :
    let left = (compact_and_cleanup rfc3339 memory_ops (200 * hour) storage).0.metrics in
    All
      (λ m. 200 * hour - 6 * hour ≤ m.timestamp)
      (filter (λ m. str_eq (resolution_of m) resolution_raw) left)
    × All
        (λ m. 200 * hour - 7 * 24 * hour ≤ m.timestamp)
        (filter (λ m. str_eq (resolution_of m) resolution_5m) left)
compact_and_cleanup-old_example = compact_and_cleanup-old rfc3339 (200 * hour) storage succeeds

-- The first sample is nineteen hours old.
compact_and_cleanup-without_late_example :
    compact_and_cleanup rfc3339 memory_ops (200 * hour) storage
    ≡ compact_and_cleanup rfc3339 memory_ops (200 * hour) (without_late (200 * hour) storage)
compact_and_cleanup-without_late_example =
    compact_and_cleanup-without_late rfc3339 (200 * hour) storage succeeds
