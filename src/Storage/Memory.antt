-- ===== src/Storage/Memory.antt =====
-- pkg/storage/memory/memory.go. A method that changes `*Storage` returns the new record.
pub mod Writes
pub mod Queries
pub mod Deletes
pub mod Statistics
use tinyobs.Base.{
  ℕ, ◌+◌, ◌*◌, Bool, true, false, not, ◌&&◌, ◌||◌, List, [], ◌∷◌, ◌++◌, Option, none, some, Bytes,
  codes, str_eq, sort_strings, lookup_or, keys, insert, Dict, any, length, ltb, leb, ◌==◌,
  if◌then◌else◌,
}
use tinyobs.Metric.{Time, Labels, Metric, read_labels}
use tinyobs.Storage.{QueryRequest, DeleteOptions, Stats, StorageOps}

abbrev pub default_max_metrics : ℕ
default_max_metrics = 50000

pub record Storage (V : Type 0) : Type 0 where
  pub metrics : List (Metric V)
  pub max_metrics : ℕ  -- 0 = use default

abbrev pub new : {V : Type 0} → Storage V
new = record { metrics = []; max_metrics = default_max_metrics }

-- The test for one label: nothing matches in a nil map, and a missing label reads as "".
unfoldable pub label_matches : Option Labels → Bytes × Bytes → Bool
label_matches none (k, v) = false
label_matches (some ls) (k, v) = str_eq (lookup_or k [] ls) v

-- The loop over `req.Labels`.
unfoldable pub labels_match : Option Labels → Labels → Bool
labels_match ls [] = true
labels_match ls (kv ∷ rest) = if label_matches ls kv then labels_match ls rest else false

-- `,k=v` for each key.
unfoldable pub key_suffix : Labels → List Bytes → Bytes
key_suffix ls [] = []
key_suffix ls (k ∷ ks) = b',' ∷ k ++ (b'=' ∷ lookup_or k [] ls ++ key_suffix ls ks)

unfoldable pub series_key : Bytes → Labels → Bytes
series_key name ls = name ++ key_suffix ls (sort_strings (keys ls))

module _ {V : Type 0} where
  abbrev pub limit_of : Storage V → ℕ
  limit_of s = if s.max_metrics == 0 then default_max_metrics else s.max_metrics

  -- The flag is `err == nil`.
  unfoldable pub write : Storage V → List (Metric V) → Storage V × Bool
  write s ms =
      let new_total = length s.metrics + length ms in
      if ltb (limit_of s) new_total
      then (s, false)
      else (record s { metrics = s.metrics ++ ms }, true)

  unfoldable pub in_range : QueryRequest → Metric V → Bool
  in_range req m = not (ltb m.timestamp req.start || ltb req.end m.timestamp)

  unfoldable pub name_matches : QueryRequest → Metric V → Bool
  name_matches req m =
      if ltb 0 (length req.metric_names)
      then any (λ name. str_eq m.name name) req.metric_names
      else true

  -- The three filters of the loop, each of which may `continue`.
  unfoldable pub matches : QueryRequest → Metric V → Bool
  matches req m = in_range req m && name_matches req m && labels_match m.label_map req.labels

  unfoldable pub query_loop : QueryRequest → List (Metric V) → List (Metric V) → List (Metric V)
  query_loop req results [] = results
  query_loop req results (m ∷ ms) =
      let results' = results ++ m ∷ [] in
      let go_on = query_loop req results' ms in
      let skip = query_loop req results ms in
      if matches req m
      then (if ltb 0 req.limit && leb req.limit (length results') then results' else go_on)
      else skip

  unfoldable pub query : Storage V → QueryRequest → List (Metric V)
  unfolding query_loop
  query s req = query_loop req [] s.metrics

  -- `m.Labels["__resolution__"]`, which is "" for raw data.
  abbrev pub resolution_of : Metric V → Bytes
  resolution_of m = lookup_or (codes "__resolution__") [] (read_labels m.label_map)

  unfoldable pub delete_loop : DeleteOptions → List (Metric V) → List (Metric V) → List (Metric V)
  delete_loop opts filtered [] = filtered
  delete_loop opts filtered (m ∷ ms) =
      let kept = filtered ++ m ∷ [] in
      delete_loop opts
        (if not (ltb m.timestamp opts.before) then kept else elim opts.resolution [
          | some r ↦ if not (str_eq (resolution_of m) r) then kept else filtered
          | none ↦ filtered
        ])
        ms

  unfoldable pub delete : Storage V → DeleteOptions → Storage V
  delete s opts = record s { metrics = delete_loop opts [] s.metrics }

  -- The loop of `Stats`: the set of series, the oldest and the newest time.
  unfoldable pub stats_loop : Dict Bool → Time → Time → List (Metric V) → Dict Bool × Time × Time
  stats_loop series oldest newest [] = (series, oldest, newest)
  stats_loop series oldest newest (m ∷ ms) =
      stats_loop (insert (series_key m.name (read_labels m.label_map)) true series)
        (if ltb m.timestamp oldest then m.timestamp else oldest)
        (if ltb newest m.timestamp then m.timestamp else newest) ms

  stats_from : List (Metric V) → Stats
  stats_from [] = record {
    total_metrics = 0;
    total_series = 0;
    size_bytes = 0;
    oldest_metric = 0;
    newest_metric = 0;
  }
  stats_from (m ∷ ms) =
      let (series, oldest, newest) = stats_loop [] m.timestamp m.timestamp (m ∷ ms) in
      record {
        total_metrics = length (m ∷ ms);
        total_series = length series;
        size_bytes = length (m ∷ ms) * 100;
        oldest_metric = oldest;
        newest_metric = newest;
      }

  unfoldable pub stats : Storage V → Stats
  unfolding stats_from
  stats s = stats_from s.metrics

-- The backend as the compactor sees it.
abbrev pub memory_ops : {V : Type 0} → StorageOps V (Storage V)
memory_ops = record {
  write = write;
  query = λ s req. some (query s req);
  delete = λ s opts. (delete s opts, true);
}
