-- ===== src/Ingest/Cardinality.antt =====
-- pkg/ingest/cardinality.go. A method that changes `*CardinalityTracker` returns the new record,
-- and takes what `time.Now()` gives as an argument.
pub mod Bounds
use tinyobs.Base.{
  ℕ, ◌+◌, ◌-◌, ◌*◌, Bool, true, false, not, ◌&&◌, List, [], ◌∷◌, ◌++◌, Option, none, some, Bytes,
  sort_strings, Dict, lookup, lookup_or, insert, delete, keys, filter, length, ltb, leb, ◌==◌,
  if◌then◌else◌,
}
use tinyobs.Ingest.Limits.{LimitError, max_unique_series, max_series_per_metric}
use tinyobs.Metric.{Time, Labels, Metric, read_labels, hour}

pub record CardinalityTracker : Type 0 where
  pub series_count : Dict ℕ
  pub total_series : ℕ
  pub series_seen : Dict Time
  pub last_cleanup : Time

abbrev pub series_retention_period : ℕ
series_retention_period = 24 * hour

abbrev pub cleanup_interval : ℕ
cleanup_interval = hour

abbrev pub new_cardinality_tracker : Time → CardinalityTracker
new_cardinality_tracker now = record {
  series_count = [];
  total_series = 0;
  series_seen = [];
  last_cleanup = now;
}

-- The test that leaves internal labels out of the key.
is_user_key : Bytes → Bool
is_user_key [] = true
is_user_key (c ∷ k) = not (c == b'_')

key_suffix : Labels → List Bytes → Bytes
key_suffix ls [] = []
key_suffix ls (k ∷ ks) = b',' ∷ k ++ (b'=' ∷ lookup_or k [] ls ++ key_suffix ls ks)

unfoldable pub series_key : Bytes → Labels → Bytes
unfolding is_user_key key_suffix
series_key name ls = name ++ key_suffix ls (sort_strings (filter is_user_key (keys ls)))

-- A key up to its first comma.
metric_name_of : Bytes → Bytes
metric_name_of [] = []
metric_name_of (c ∷ s) = let rest = c ∷ metric_name_of s in if c == b',' then [] else rest

-- `m[k]++`
abbrev increment : Bytes → Dict ℕ → Dict ℕ
increment k m = insert k (lookup_or k 0 m + 1) m

rebuild_loop : Dict ℕ → ℕ → Dict Time → Dict ℕ × ℕ
rebuild_loop counts total [] = (counts, total)
rebuild_loop counts total ((key, _) ∷ seen) =
    rebuild_loop (increment (metric_name_of key) counts) (total + 1) seen

unfoldable pub rebuild_counts : CardinalityTracker → CardinalityTracker
unfolding rebuild_loop metric_name_of
rebuild_counts c =
    let (counts, total) = rebuild_loop [] 0 c.series_seen in
    record c { series_count = counts; total_series = total }

-- The keys last seen before the cut-off.
unfoldable pub expired : Time → Dict Time → List Bytes
expired cutoff [] = []
expired cutoff ((k, seen) ∷ m) =
    let rest = expired cutoff m in if ltb seen cutoff then k ∷ rest else rest

unfoldable pub delete_all : List Bytes → Dict Time → Dict Time
delete_all [] m = m
delete_all (k ∷ ks) m = delete_all ks (delete k m)

unfoldable pub cleanup_old_series : Time → CardinalityTracker → CardinalityTracker
cleanup_old_series now c =
    let to_remove = expired (now - series_retention_period) c.series_seen in
    let cleaned = record c {
      last_cleanup = now;
      series_seen = delete_all to_remove c.series_seen;
    } in
    if ltb (now - c.last_cleanup) cleanup_interval
    then c
    else if ltb 1000 (length to_remove)
    then rebuild_counts cleaned
    else cleaned

unfoldable pub key_of : {V : Type 0} → Metric V → Bytes
key_of m = series_key m.name (read_labels m.label_map)

-- The tests of `Check` behind the cleanup.
unfoldable pub admit : Bytes → Bytes → CardinalityTracker → Option LimitError
admit name key c = elim (lookup key c.series_seen) [
  | some _ ↦ none
  | none ↦
      if leb max_unique_series c.total_series
      then some LimitError.cardinality_limit
      else if leb max_series_per_metric (lookup_or name 0 c.series_count)
      then some LimitError.metric_cardinality_limit
      else none
]

unfoldable pub check :
    {V : Type 0} → Time → Metric V → CardinalityTracker → CardinalityTracker × Option LimitError
check now m c = let c' = cleanup_old_series now c in (c', admit m.name (key_of m) c')

-- The counters of a series that is new.
unfoldable pub count_new : Option Time → Bytes → CardinalityTracker → CardinalityTracker
count_new (some _) name c = c
count_new none name c = record c {
  series_count = increment name c.series_count;
  total_series = c.total_series + 1;
}

unfoldable pub record_metric :
    {V : Type 0} → Time → Metric V → CardinalityTracker → CardinalityTracker
record_metric now m c =
    count_new (lookup (key_of m) c.series_seen) m.name
      (record c { series_seen = insert (key_of m) now c.series_seen })

pub record CardinalityStats : Type 0 where
  pub total_series : ℕ
  pub unique_metrics : ℕ
  pub max_series_metric : Bytes
  pub max_series_count : ℕ

max_loop : Bytes → ℕ → Dict ℕ → Bytes × ℕ
max_loop name count [] = (name, count)
max_loop name count ((k, n) ∷ m) =
    max_loop (if ltb count n then k else name) (if ltb count n then n else count) m

-- The counters of `Stats`; its two limits are constants, and its percentage a float.
unfoldable pub stats : CardinalityTracker → CardinalityStats
unfolding max_loop
stats c =
    let (name, count) = max_loop [] 0 c.series_count in
    record {
      total_series = c.total_series;
      unique_metrics = length c.series_count;
      max_series_metric = name;
      max_series_count = count;
    }
