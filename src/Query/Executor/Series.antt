-- ===== src/Query/Executor/Series.antt =====
-- pkg/query/executor.go: time series, their keys, and their grouping by labels. A nil label map is
-- an empty one here, which is all that the executor tells apart.
use tinyobs.Base.{
  Bool, not, List, [], ◌∷◌, ◌++◌, Option, none, some, Bytes, str_eq, sort_strings, Dict, keys,
  lookup, lookup_or, insert, any, filter, if◌then◌else◌,
}
use tinyobs.Metric.{Time, Labels}

pub record Point (V : Type 0) : Type 0 where
  pub time : Time
  pub value : V

pub record TimeSeries (V : Type 0) : Type 0 where
  pub labels : Labels
  pub points : List (Point V)

pub record SeriesGroup (V : Type 0) : Type 0 where
  pub labels : Labels
  pub series : List (TimeSeries V)

-- `k=v,` for each key.
key_text : Labels → List Bytes → Bytes
key_text ls [] = []
key_text ls (k ∷ ks) = k ++ (b'=' ∷ lookup_or k [] ls ++ (b',' ∷ key_text ls ks))

unfoldable pub series_key : Labels → Bytes
unfolding key_text
series_key ls = key_text ls (sort_strings (keys ls))

abbrev pub member : List Bytes → Bytes → Bool
member grouping k = any (λ g. str_eq k g) grouping

-- The same text for the grouping labels that are there.
group_text : Labels → List Bytes → Bytes
group_text ls [] = []
group_text ls (g ∷ gs) =
    let rest = group_text ls gs in
    elim (lookup g ls) [ some v ↦ g ++ (b'=' ∷ v ++ (b',' ∷ rest)) | none ↦ rest ]

unfoldable pub build_group_key : Labels → List Bytes → Bool → Bytes
unfolding key_text group_text
build_group_key ls grouping without =
    if without
    then key_text ls (sort_strings (filter (λ k. not (member grouping k)) (keys ls)))
    else group_text ls (sort_strings grouping)

-- The loop over the grouping labels.
pick_labels : Labels → List Bytes → Labels → Labels
pick_labels ls [] result = result
pick_labels ls (g ∷ gs) result =
    pick_labels ls gs (elim (lookup g ls) [ some v ↦ insert g v result | none ↦ result ])

unfoldable pub extract_group_labels : Labels → List Bytes → Bool → Labels
unfolding pick_labels
extract_group_labels ls grouping without =
    if without then filter (λ kv. not (member grouping kv.0)) ls else pick_labels ls grouping []

module _ {V : Type 0} where
  -- A series that joins its group, or founds it.
  unfoldable pub join_group : Labels → Option (SeriesGroup V) → TimeSeries V → SeriesGroup V
  join_group new (some g) ts = record g { series = g.series ++ ts ∷ [] }
  join_group new none ts = record { labels = new; series = ts ∷ [] }

  unfoldable pub group_loop :
      List Bytes → Bool → Dict (SeriesGroup V) → List (TimeSeries V) → Dict (SeriesGroup V)
  group_loop grouping without groups [] = groups
  group_loop grouping without groups (ts ∷ rest) =
      let key = build_group_key ts.labels grouping without in
      group_loop grouping without
        (insert key
          (join_group (extract_group_labels ts.labels grouping without) (lookup key groups) ts)
          groups)
        rest
