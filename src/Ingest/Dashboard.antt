-- ===== src/Ingest/Dashboard.antt =====
-- pkg/ingest/dashboard.go: the list of metrics and the range query. `now` is `time.Now()`; a
-- point's time is the count of milliseconds since Go's zero Time, and the order of points with one
-- time, which `sort.Slice` leaves open, is that of insertion. A `continue` in a loop over a map
-- follows the order of the list.
pub mod Downsampling
pub mod Handlers
pub mod Answers
use tinyobs.Base.{
  ℕ, zero, suc, ◌+◌, ◌-◌, ◌*◌, ◌/◌, ◌==◌, not, ◌&&◌, Bool, true, false, List, [], ◌∷◌, ◌++◌, Option,
  none, some, Bytes, codes, Dict, insert, lookup, lookup_or, keys, length, take, drop, ltb, leb,
  if◌then◌else◌, str_eq, sort_strings, map,
}
use tinyobs.Float.{FloatOps}
use tinyobs.Metric.{Metric, Labels, Time, second, hour, read_labels}
use tinyobs.Query.Outcome.{Outcome, ok, panic, out_of_fuel, ◌>>=◌}
use tinyobs.Storage.Memory.{key_suffix, resolution_of}
use tinyobs.Storage.{StorageOps, QueryRequest}

-- pkg/config/config.go
abbrev pub ingest_default_max_points : ℕ
ingest_default_max_points = 1000

abbrev pub ingest_max_points_limit : ℕ
ingest_max_points_limit = 5000

abbrev pub ingest_metrics_list_limit : ℕ
ingest_metrics_list_limit = 10000

abbrev pub ingest_metrics_list_time_window : ℕ
ingest_metrics_list_time_window = 24 * hour

abbrev pub ingest_max_query_window : ℕ
ingest_max_query_window = 90 * 24 * hour

pub record Point (V : Type 0) : Type 0 where
  pub timestamp : ℕ
  pub value : V

pub record SeriesData (V : Type 0) : Type 0 where
  pub metric : Bytes
  pub labels : Labels
  pub points : List (Point V)
  pub resolution : Bytes

unfoldable pub make_series_key : Bytes → Labels → Bytes
make_series_key metric ls =
    if length ls == 0 then metric else metric ++ key_suffix ls (sort_strings (keys ls))

-- The loop over the labels of a metric: the labels of the user, the resolution, and whether there
-- is one. `k[0]` of an empty key is out of range.
pub record Reading : Type 0 where
  pub user_labels : Labels
  pub is_aggregate : Bool
  pub resolution : Bytes

-- `if k[0] != '_' { userLabels[k] = v }`
unfoldable pub read_user_label : Bytes → Bytes → Labels → Outcome Labels
read_user_label [] v ls = panic
read_user_label (c ∷ k) v ls = ok (if c == b'_' then ls else insert (c ∷ k) v ls)

unfoldable pub read_label_loop : Reading → Labels → Outcome Reading
read_label_loop r [] = ok r
read_label_loop r ((k, v) ∷ rest) =
    let other = read_user_label k v r.user_labels >>= λ ls.
    read_label_loop (record r { user_labels = ls }) rest in
    if str_eq k (codes "__resolution__")
    then read_label_loop (record r { is_aggregate = true; resolution = v }) rest
    else other

module _ {V : Type 0} where
  unfoldable pub insert_point : Point V → List (Point V) → List (Point V)
  insert_point p [] = p ∷ []
  insert_point p (q ∷ qs) =
      if ltb p.timestamp q.timestamp then p ∷ q ∷ qs else q ∷ insert_point p qs

  -- `sort.Slice`
  unfoldable pub sort_points : List (Point V) → List (Point V) → List (Point V)
  sort_points done [] = done
  sort_points done (p ∷ ps) = sort_points (insert_point p done) ps

  -- The series in the map, or a new one, with one more point.
  unfoldable pub add_point : Bytes → Reading → Metric V → Dict (SeriesData V) → Dict (SeriesData V)
  add_point metric r m series =
      let key = make_series_key metric r.user_labels in
      let fresh : SeriesData V = record {
        metric = metric;
        labels = r.user_labels;
        points = [];
        resolution = r.resolution;
      } in
      let old : SeriesData V = elim (lookup key series) [ some s ↦ s | none ↦ fresh ] in
      insert key
        (record old {
          points =
              old.points ++ record { timestamp = m.timestamp / 1_000_000; value = m.value } ∷ [];
          resolution =
              if r.is_aggregate && str_eq old.resolution (codes "raw")
              then r.resolution
              else old.resolution;
        })
        series

  unfoldable pub group_metrics :
      Bytes → Dict (SeriesData V) → List (Metric V) → Outcome (Dict (SeriesData V))
  group_metrics metric series [] = ok series
  group_metrics metric series (m ∷ ms) =
      let start : Reading = record {
        user_labels = [];
        is_aggregate = false;
        resolution = codes "raw";
      } in
      read_label_loop start (read_labels m.label_map) >>= λ r.
      group_metrics metric (add_point metric r m series) ms

module _ {V : Type 0} ⦃F : FloatOps V⦄ where
  unfoldable pub sum_values : V → List (Point V) → V
  sum_values t [] = t
  sum_values t (p ∷ ps) = sum_values (F.add t p.value) ps

  -- The average of a bucket, at the time of its first point.
  unfoldable pub average_bucket : Point V → List (Point V) → Point V
  average_bucket p ps = record {
    timestamp = p.timestamp;
    value = F.div (sum_values F.zero_value (p ∷ ps)) (F.of_ℕ (length (p ∷ ps)));
  }

  -- The loop of `downsamplePoints` over the points from `i` on; a bucket has `suc b` points.
  unfoldable pub bucket_loop : ℕ → ℕ → List (Point V) → Outcome (List (Point V))
  bucket_loop fuel b [] = ok []
  bucket_loop zero b (p ∷ ps) = out_of_fuel
  bucket_loop (suc fuel) b (p ∷ ps) =
      bucket_loop fuel b (drop b ps) >>= λ rest. ok (average_bucket p (take b ps) ∷ rest)

  unfoldable pub downsample_points : List (Point V) → ℕ → Outcome (List (Point V))
  downsample_points points max_points =
      let bucket_size = length points / max_points in
      if leb (length points) max_points
      then ok points
      else bucket_loop (length points) ((if ltb bucket_size 1 then 1 else bucket_size) - 1) points

  -- The loop that sorts and thins out each series.
  unfoldable pub finish_series : ℕ → Dict (SeriesData V) → Outcome (List (SeriesData V))
  finish_series max_points [] = ok []
  finish_series max_points ((key, s) ∷ series) =
      let points = sort_points [] s.points in
      (if ltb max_points (length points) then downsample_points points max_points else ok points)
      >>= λ thin. finish_series max_points series >>= λ rest. ok (record s { points = thin } ∷ rest)
