-- ===== src/Compaction/Compactor.antt =====
-- pkg/compaction/compactor.go. The storage is an interface; `rfc3339` is `Time.Format(RFC3339)`.
-- An error stops a job and leaves the storage as the last call left it; the flag is `err == nil`.
use tinyobs.Base.{
  ℕ, ◌+◌, ◌-◌, ◌*◌, Bool, true, false, not, List, [], ◌∷◌, ◌++◌, Option, none, some, Bytes, str_eq,
  sort_strings, Dict, map, lookup, lookup_or, insert, keys, ltb, if◌then◌else◌,
}
use tinyobs.Compaction.Aggregate.{
  Aggregate, Resolution, resolution_5m, resolution_1h, resolution_label, to_metric, from_metric,
}
use tinyobs.Compaction.Decimal.{uint64}
use tinyobs.Compaction.Rounding.{round_to_5_minutes, round_to_1_hour}
use tinyobs.Float.{FloatOps}
use tinyobs.Metric.{Time, Labels, Metric, read_labels, hour}
use tinyobs.Storage.{QueryRequest, DeleteOptions, StorageOps}
use tinyobs.Storage as Storage

abbrev pub compact_5m_delay : ℕ
compact_5m_delay = 6 * hour

abbrev pub compact_5m_lookback : ℕ
compact_5m_lookback = 12 * hour

abbrev pub compact_1h_delay : ℕ
compact_1h_delay = 2 * 24 * hour

abbrev pub compact_1h_lookback : ℕ
compact_1h_lookback = 7 * 24 * hour

abbrev pub raw_data_retention : ℕ
raw_data_retention = 6 * hour

abbrev pub five_min_retention : ℕ
five_min_retention = 7 * 24 * hour

key_suffix : Labels → List Bytes → Bytes
key_suffix ls [] = []
key_suffix ls (k ∷ ks) = b',' ∷ k ++ (b'=' ∷ lookup_or k [] ls ++ key_suffix ls ks)

abbrev pub whole_range : Time → Time → QueryRequest
whole_range start end = record {
  start = start;
  end = end;
  metric_names = [];
  labels = [];
  limit = 0;
}

-- The values of a map, in the order of a `range` loop.
abbrev pub values : {A : Type 0} → Dict A → List A
values [] = []
values ((k, v) ∷ m) = v ∷ values m

module _ {V : Type 0} where
  abbrev pub or_else : Option (Aggregate V) → Aggregate V → Aggregate V
  or_else none b = b
  or_else (some a) b = a

  abbrev pub is_raw : Metric V → Bool
  is_raw m = str_eq (lookup_or resolution_label [] (read_labels m.label_map)) []

module _ {V : Type 0} ⦃F : FloatOps V⦄ where
  -- One aggregate taken into another: the body of both loops behind the lookup.
  unfoldable pub absorb : V → ℕ → V → V → Aggregate V → Aggregate V
  absorb sum count min max a = record a {
    sum = F.add a.sum sum;
    count = uint64 (a.count + count);
    min = if F.lt min a.min then min else a.min;
    max = if F.lt a.max max then max else a.max;
  }

  -- The aggregate of a bucket that is new.
  abbrev pub fresh : Bytes → Labels → Time → Resolution → V → V → Aggregate V
  fresh name ls t resolution min max = record {
    name = name;
    labels = ls;
    timestamp = t;
    resolution = resolution;
    sum = F.zero_value;
    count = 0;
    min = min;
    max = max;
  }

-- Nothing is written where there is no aggregate.
unfoldable pub write_all : {V S : Type 0} → StorageOps V S → S → List (Metric V) → S × Bool
write_all ops s [] = (s, true)
write_all ops s (m ∷ ms) = ops.write s (m ∷ ms)

-- The next step, unless the last one failed.
abbrev pub then_do : {S : Type 0} → S × Bool → (S → S × Bool) → S × Bool
then_do (s, true) k = k s
then_do (s, false) k = (s, false)

module _ (rfc3339 : Time → Bytes) where
  unfoldable pub aggregate_key : Bytes → Labels → Time → Bytes
  unfolding key_suffix
  aggregate_key name ls t = name ++ (b'@' ∷ rfc3339 t ++ key_suffix ls (sort_strings (keys ls)))

  module _ {V : Type 0} ⦃F : FloatOps V⦄ where
    -- A raw sample in its bucket.
    unfoldable pub add_raw : Metric V → Dict (Aggregate V) → Dict (Aggregate V)
    add_raw m buckets =
        let ls = read_labels m.label_map in
        let t = round_to_5_minutes m.timestamp in
        let key = aggregate_key m.name ls t in
        insert key
          (absorb m.value 1 m.value m.value
            (or_else (lookup key buckets) (fresh m.name ls t resolution_5m m.value m.value)))
          buckets

    unfoldable pub group_raw : Dict (Aggregate V) → List (Metric V) → Dict (Aggregate V)
    group_raw buckets [] = buckets
    group_raw buckets (m ∷ ms) = group_raw (if is_raw m then add_raw m buckets else buckets) ms

    -- A five-minute aggregate in its bucket.
    unfoldable pub add_5m : Time → Aggregate V → Dict (Aggregate V) → Dict (Aggregate V)
    add_5m t a buckets =
        let key = aggregate_key a.name a.labels (round_to_1_hour t) in
        insert key
          (absorb a.sum a.count a.min a.max (
            or_else (lookup key buckets)
              (fresh a.name a.labels (round_to_1_hour t) resolution_1h a.min a.max)))
          buckets

    -- Samples that are no aggregates, or of another resolution, are passed over.
    unfoldable pub group_step :
        Option (Aggregate V) → Time → Dict (Aggregate V) → Dict (Aggregate V)
    group_step none t buckets = buckets
    group_step (some a) t buckets =
        if str_eq a.resolution resolution_5m then add_5m t a buckets else buckets

    unfoldable pub group_5m : Dict (Aggregate V) → List (Metric V) → Dict (Aggregate V)
    group_5m buckets [] = buckets
    group_5m buckets (m ∷ ms) = group_5m (group_step (from_metric m) m.timestamp buckets) ms

    module _ {S : Type 0} (ops : StorageOps V S) where
      unfoldable pub compact_5m : S → Time → Time → S × Bool
      compact_5m s start end =
          if not (ltb start end) then (s, false) else elim (ops.query s (whole_range start end)) [
            | none ↦ (s, false)
            | some ms ↦ write_all ops s (map to_metric (values (group_raw [] ms)))
          ]

      unfoldable pub compact_1h : S → Time → Time → S × Bool
      compact_1h s start end =
          if not (ltb start end) then (s, false) else elim (ops.query s (whole_range start end)) [
            | none ↦ (s, false)
            | some ms ↦ write_all ops s (map to_metric (values (group_5m [] ms)))
          ]

      unfoldable pub compact_and_cleanup : Time → S → S × Bool
      compact_and_cleanup now s =
          then_do (compact_5m s (now - compact_5m_lookback) (now - compact_5m_delay)) (λ s1.
            then_do
              (ops.delete s1 (record {
                before = now - raw_data_retention;
                resolution = some Storage.resolution_raw;
              }))
              (λ s2.
                then_do (compact_1h s2 (now - compact_1h_lookback) (now - compact_1h_delay)) (λ s3.
                  ops.delete s3 (record {
                    before = now - five_min_retention;
                    resolution = some Storage.resolution_5m;
                  }))))
