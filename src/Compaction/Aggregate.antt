-- ===== src/Compaction/Aggregate.antt =====
-- pkg/compaction/types.go: aggregates, and their form as a sample with special labels.
use tinyobs.Base.{
  ℕ, [], ◌∷◌, Option, none, some, Bytes, codes, lookup, lookup_or, insert, ◌==◌, if◌then◌else◌,
}
use tinyobs.Compaction.Decimal.{format_uint, scan_uint}
use tinyobs.Float.{FloatOps}
use tinyobs.Metric.{Time, Labels, Metric, read_labels, gauge_type}

abbrev pub Resolution : Type 0
Resolution = Bytes

abbrev pub resolution_5m : Resolution
resolution_5m = codes "5m"

abbrev pub resolution_1h : Resolution
resolution_1h = codes "1h"

-- `Values` is never filled by the compactor and is left out.
pub record Aggregate (V : Type 0) : Type 0 where
  pub name : Bytes
  pub labels : Labels
  pub timestamp : Time
  pub resolution : Resolution
  pub sum : V
  pub count : ℕ  -- uint64
  pub min : V
  pub max : V

abbrev pub resolution_label : Bytes
resolution_label = codes "__resolution__"

abbrev pub sum_label : Bytes
sum_label = codes "__sum__"

abbrev pub count_label : Bytes
count_label = codes "__count__"

abbrev pub min_label : Bytes
min_label = codes "__min__"

abbrev pub max_label : Bytes
max_label = codes "__max__"

-- The loop that leaves out the labels that begin with `_`, and an empty key.
unfoldable pub user_labels : Labels → Labels
user_labels [] = []
user_labels (([], v) ∷ ls) = user_labels ls
user_labels ((c ∷ k, v) ∷ ls) =
    let rest = user_labels ls in if c == b'_' then rest else (c ∷ k, v) ∷ rest

module _ {V : Type 0} ⦃F : FloatOps V⦄ where
  unfoldable pub average : Aggregate V → V
  average a = if a.count == 0 then F.zero_value else F.div a.sum (F.of_ℕ a.count)

  unfoldable pub stored_labels : Aggregate V → Labels
  stored_labels a = insert max_label (F.format_float a.max) (
      insert min_label (F.format_float a.min) (
        insert count_label (format_uint a.count) (
          insert sum_label (F.format_float a.sum) (insert resolution_label a.resolution a.labels))))

  unfoldable pub to_metric : Aggregate V → Metric V
  to_metric a = record {
    name = a.name;
    type = gauge_type;
    value = average a;
    label_map = some (stored_labels a);
    timestamp = a.timestamp;
  }

  -- The four scans, each of which may give up.
  unfoldable pub scan_aggregate : Bytes → Labels → Metric V → Option (Aggregate V)
  scan_aggregate resolution ls m = elim (F.scan_float (lookup_or sum_label [] ls)) [
    | none ↦ none
    | some sum ↦ elim (scan_uint (lookup_or count_label [] ls)) [
      | none ↦ none
      | some count ↦ elim (F.scan_float (lookup_or min_label [] ls)) [
        | none ↦ none
        | some min ↦ elim (F.scan_float (lookup_or max_label [] ls)) [
          | none ↦ none
          | some max ↦ some (record {
            name = m.name;
            labels = user_labels ls;
            timestamp = m.timestamp;
            resolution = resolution;
            sum = sum;
            count = count;
            min = min;
            max = max;
          })
        ]
      ]
    ]
  ]

  unfoldable pub from_metric : Metric V → Option (Aggregate V)
  from_metric m =
      let ls = read_labels m.label_map in
      elim (lookup resolution_label ls) [
        | none ↦ none
        | some resolution ↦ scan_aggregate resolution ls m
      ]
