-- ===== src/Query/Executor/Evaluation/Results.antt =====
-- pkg/query/executor.go: the configurations of an executor, and the result of `Execute`.
use tinyobs.Base.{
  ℕ, suc, ◌+◌, ◌≡◌, refl, ap, Bool, true, false, List, [], ◌∷◌, Option, none, some, Dict, map,
  lookup, insert, length, length-append, total, total-insert, count_of, ltb, if◌then◌else◌, arith,
}
use tinyobs.Compaction.Compactor.{values}
use tinyobs.Float.{FloatOps}
use tinyobs.Metric.{Time, Metric, read_labels}
use tinyobs.Query.Executor.Aggregation.{sort_points, insert_point}
use tinyobs.Query.Executor.Evaluation.{
  answer, failed, join_series, series_loop, sorted_series, execute_vector_selector,
}
use tinyobs.Query.Executor.Series.{Point, TimeSeries, series_key}
use tinyobs.Query.Tokens.{VectorSelector}
use tinyobs.Storage.{StorageOps}

pub record ExecutorConfig : Type 0 where
  pub max_samples : ℕ

abbrev pub default_executor_config : ExecutorConfig
default_executor_config = record { max_samples = 1_000_000 }

abbrev pub production_executor_config : ExecutorConfig
production_executor_config = record { max_samples = 50_000_000 }

pub record Result (V : Type 0) : Type 0 where
  pub series : List (TimeSeries V)
  pub total_samples : ℕ

-- The loop over the series.
unfoldable pub total_samples : {V : Type 0} → List (TimeSeries V) → ℕ
total_samples [] = 0
total_samples (s ∷ ss) = length s.points + total_samples ss

-- What `Execute` returns for the series of an evaluation.
unfoldable pub result_of : {V : Type 0} → List (TimeSeries V) → Result V
result_of ss = record { series = ss; total_samples = total_samples ss }

-- `Close` on a result that is not nil.
unfoldable pub close : {V : Type 0} → Result V → Result V
close r = record { series = []; total_samples = 0 }

points_of_dict : {V : Type 0} → Dict (TimeSeries V) → ℕ
points_of_dict = total (λ ts. length ts.points)

total_samples-values :
    {V : Type 0} (series : Dict (TimeSeries V))
    → total_samples (values series) ≡ points_of_dict series
unfolding total_samples points_of_dict
total_samples-values [] = refl
total_samples-values ((k, ts) ∷ series) = omega (arith, total_samples-values series)

length-join_series :
    {V : Type 0} (m : Metric V) (old : Option (TimeSeries V))
    → length (join_series m old).points ≡ suc (count_of (λ ts. length ts.points) old)
unfolding join_series
length-join_series m none = refl
length-join_series m (some ts) =
    omega (arith, length-append ts.points (record { time = m.timestamp; value = m.value } ∷ []))

points_of_dict-series_loop :
    {V : Type 0} (series : Dict (TimeSeries V)) (ms : List (Metric V))
    → points_of_dict (series_loop series ms) ≡ points_of_dict series + length ms
unfolding series_loop points_of_dict
points_of_dict-series_loop series [] = omega arith
points_of_dict-series_loop series (m ∷ ms) =
    let key = series_key (read_labels m.label_map) in
    let joined = join_series m (lookup key series) in
    omega (
      arith,
      points_of_dict-series_loop (insert key joined series) ms,
      total-insert (λ (ts : TimeSeries _). length ts.points) key joined series,
      length-join_series m (lookup key series),
    )

length-insert_point :
    {V : Type 0} (p : Point V) (ps : List (Point V)) → length (insert_point p ps) ≡ suc (length ps)
unfolding insert_point
length-insert_point p [] = refl
length-insert_point p (q ∷ qs) = ground (arith, length-insert_point p qs)

length-sort_points : {V : Type 0} (ps : List (Point V)) → length (sort_points ps) ≡ length ps
unfolding sort_points
length-sort_points [] = refl
length-sort_points (p ∷ ps) =
    omega (arith, length-insert_point p (sort_points ps), length-sort_points ps)

total_samples-sorted_series :
    {V : Type 0} (ss : List (TimeSeries V))
    → total_samples (map sorted_series ss) ≡ total_samples ss
unfolding total_samples
total_samples-sorted_series [] = refl
total_samples-sorted_series (s ∷ ss) =
    omega (arith, length-sort_points s.points, total_samples-sorted_series ss)

unless-answer :
    {V : Type 0} (full : Bool) (xs ss : List (TimeSeries V)) (k n : ℕ)
    → (if full then failed else answer xs k) ≡ answer ss n
    → (xs ≡ ss) × (k ≡ n)
unless-answer true xs ss k n h = absurd cc
unless-answer false xs ss k n h = (cc, cc)

answered-total_samples :
    {V : Type 0} (max_samples loaded n : ℕ) (found : Option (List (Metric V)))
    (ss : List (TimeSeries V))
    → (elim found [
      | none ↦ failed
      | some ms ↦
          if ltb max_samples (loaded + length ms)
          then failed
          else answer (map sorted_series (values (series_loop [] ms))) (loaded + length ms)
    ])
      ≡ answer ss n
    → loaded + total_samples ss ≡ n
unfolding points_of_dict
answered-total_samples max_samples loaded n none ss h = absurd cc
answered-total_samples max_samples loaded n (some ms) ss h =
    let series = values (series_loop [] ms) in
    let (same, count) =
      unless-answer (ltb max_samples (loaded + length ms)) (map sorted_series series) ss
        (loaded + length ms) n h in
    omega (
      arith,
      count,
      ap total_samples same,
      total_samples-sorted_series series,
      total_samples-values (series_loop [] ms),
      points_of_dict-series_loop [] ms,
    )

-- No sample is lost and none is counted twice: the series that a selector answers hold just as many
-- points as it has loaded samples.
pub execute_vector_selector-total_samples :
    {V S : Type 0} ⦃F : FloatOps V⦄ (ops : StorageOps V S) (max_samples : ℕ) (s : S)
    (vec : VectorSelector) (start stop : Time) (loaded n : ℕ) (ss : List (TimeSeries V))
    → execute_vector_selector ops max_samples s vec start stop loaded ≡ answer ss n
    → loaded + total_samples ss ≡ n
unfolding execute_vector_selector
execute_vector_selector-total_samples ops max_samples s vec start stop loaded n ss h =
    answered-total_samples max_samples loaded n _ ss h
