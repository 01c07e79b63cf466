-- ===== src/Tests/IngestTests.antt =====
-- The ingestion of samples, under the limits.
use tinyobs.Base.{
  sort_strings, Bytes, Option, lookup_or, ℕ, ◌+◌, ◌*◌, ◌≤◌, ◌≡◌, arith, ◌≢◌, refl, ◌⊎◌, true, List,
  [], ◌∷◌, some, none, codes, All, map, str_eq, length, lookup,
}
use tinyobs.Ingest.Cardinality.{
  admit, cleanup_old_series, expired, delete_all, CardinalityTracker, new_cardinality_tracker,
  check, key_of,
}
use tinyobs.Storage.Memory.{write, new, memory_ops}
use tinyobs.Ingest.Handler.Queries.{parse_time_param, QueryParams, found, handle_query}
use tinyobs.Ingest.Handler.Reading.{found_in, handle_query-handle_ingest}
use tinyobs.Ingest.Handler.{check_loop, check_one, store, usage, no_checker, stamp, handle_ingest}
use tinyobs.Metric.{Time, Metric, Labels, gauge_type, hour}
use tinyobs.Ingest.Cardinality.Bounds.{IsFull}
use tinyobs.Ingest.Handler.Full.{handle_ingest-IsFull}
use tinyobs.Ingest.Handler.Atomic.{handle_ingest_atomic}
use tinyobs.Ingest.Limits.{max_unique_series, max_metrics_per_request, validate_metric, IsValid}

abbrev sample : ℕ → Labels → Metric ℕ
sample t ls = record {
  name = codes "load";
  type = gauge_type;
  value = 7;
  label_map = some ls;
  timestamp = t;
}

abbrev samples : List (Metric ℕ)
samples = sample 0 [] ∷ sample 5 ((codes "host", codes "a") ∷ []) ∷ []

abbrev tracker : CardinalityTracker
tracker = new_cardinality_tracker 0

-- A tracker that has counted as many series as it may, and has forgotten them.
abbrev stuck : CardinalityTracker
stuck = record tracker { total_series = max_unique_series }

handle_ingest_atomic_example :
    let (status, _, s') =
      handle_ingest memory_ops (λ i. 100 + i) true (some samples) (usage 1 2) 100 tracker new in
    (status ≡ 200)
      × All IsValid (map (stamp 100) samples)
      × (2 ≤ max_metrics_per_request)
      × (s'.metrics ≡ map (stamp 100) samples)
    ⊎ (status ≢ 200) × (s' ≡ new)
handle_ingest_atomic_example =
    handle_ingest_atomic (λ i. 100 + i) true samples (usage 1 2) 100 tracker new

handle_ingest-IsFull_example :
    (let (status, c', s') =
        handle_ingest memory_ops (λ i. 90 * hour + i) true (some samples) no_checker 5 stuck new in
      (status ≢ 200) × IsFull (key_of (sample 0 [])) max_unique_series c' × (s' ≡ new))
unfolding lookup key_of str_eq tinyobs.Ingest.Cardinality.series_key sort_strings
handle_ingest-IsFull_example =
    handle_ingest-IsFull memory_ops (λ i. 90 * hour + i) true samples no_checker 5 stuck new
      (record { few = omega arith; counted = refl; at_limit = omega arith; unseen = refl }) refl

abbrev no_time : Bytes → Option Time
no_time text = none

abbrev all_of_load : QueryParams
all_of_load = record { is_get = true; start = []; end = []; metric = codes "load" }

handle_query-handle_ingest_example :
    (let all = found_in no_time no_time 107 all_of_load (map (stamp 100) samples) in
      handle_query no_time no_time memory_ops 107 all_of_load
        (handle_ingest memory_ops (λ i. 100 + i) true (some samples) (usage 1 2) 100 tracker new).2
      ≡ found all (length all))
unfolding handle_ingest check_loop check_one store stamp validate_metric write check admit
    cleanup_old_series expired delete_all parse_time_param lookup lookup_or
handle_query-handle_ingest_example =
    handle_query-handle_ingest no_time no_time (λ i. 100 + i) true samples (usage 1 2) 100 107
      tracker new all_of_load refl refl (omega arith)
