-- ===== src/Tests/ExecutorTests.antt =====
-- The evaluation of queries.
use tinyobs.Base.{
  ℕ, ◌+◌, ◌≤◌, ◌≡◌, refl, ltb, List, [], ◌∷◌, some, Bytes, codes, arith, lookup, lookup_or, insert,
  str_eq, sort_strings,
}
use tinyobs.Float.Order.{IsStrictOrder}
use tinyobs.Metric.{Metric, Labels, counter_type}
use tinyobs.Query.Executor.Aggregation.{sort_points, insert_point}
use tinyobs.Query.Executor.Evaluation.Limit.{expr_samples, execute-limit}
use tinyobs.Query.Executor.Evaluation.Results.{total_samples, execute_vector_selector-total_samples}
use tinyobs.Query.Executor.Evaluation.Steps.{IsSteps, number_points_ends}
use tinyobs.Query.Executor.Evaluation.{
  answer, execute, execute_expr, and_then, execute_function_call, execute_rate, rate_of_arg,
  execute_range_selector, execute_vector_selector, series_loop, sorted_series, number_points,
}
use tinyobs.Query.Executor.Rate.{
  sub_duration, slide, rate_at, rate_loop, rate_series, rate_reference,
}
use tinyobs.Query.Executor.Series.{Point, TimeSeries, series_key}
use tinyobs.Query.Executor.Sorting.{rate_series-sorted_series}
use tinyobs.Query.Tokens.{Expr, function_call, range_selector, end, arg}
use tinyobs.Storage.Memory.{
  Storage, memory_ops, query, query_loop, matches, in_range, name_matches, labels_match,
}
use tinyobs.Tests.Data.{ℕ_ops}

abbrev point : ℕ → ℕ → Point ℕ
point t v = record { time = t; value = v }

abbrev host : Bytes → Labels
host name = (codes "host", name) ∷ (codes "code", codes "200") ∷ []

abbrev series : TimeSeries ℕ
series = record {
  labels = host (codes "a");
  points = point 2_000_000_000 30 ∷ point 0 10 ∷ point 1_000_000_000 14 ∷ [];
}

abbrev three : List (TimeSeries ℕ)
three = series ∷ record series { labels = host (codes "b") } ∷ record series { points = [] } ∷ []

abbrev sample : ℕ → ℕ → Metric ℕ
sample t v = record {
  name = codes "hits";
  type = counter_type;
  value = v;
  label_map = some (host (codes "a"));
  timestamp = t;
}

abbrev storage : Storage ℕ
storage = record {
  metrics = sample 0 10 ∷ sample 1_000_000_000 14 ∷ sample 2_000_000_000 30 ∷ [];
  max_metrics = 5;
}

-- `rate(hits[1s])`
abbrev rate_of_hits : Expr ℕ
rate_of_hits =
    function_call (codes "rate")
      (arg (range_selector (record { name = codes "hits"; matchers = [] }) 1_000_000_000) end)

-- At two seconds the window starts at the sample of time 0, not at the one exactly a second ago, so
-- the rate is that of two seconds, divided by one.
rates :
    execute memory_ops 10 storage 9 rate_of_hits 1_000_000_000 3_000_000_000 1
    ≡ answer
        (record {
          labels = host (codes "a");
          points = point 1_000_000_000 4 ∷ point 2_000_000_000 20 ∷ [];
        }
          ∷ [])
        3
unfolding execute execute_expr and_then execute_function_call execute_rate rate_of_arg
    execute_range_selector execute_vector_selector series_loop query query_loop matches in_range
    name_matches labels_match str_eq lookup lookup_or insert series_key sort_strings sort_points
    insert_point rate_series rate_loop rate_at slide sub_duration
rates = refl

ltb-IsStrictOrder : IsStrictOrder ltb
ltb-IsStrictOrder = record { irrefl = λ a. ground arith; trans = λ a b c h k. ground arith }

rate_series-sorted_series_example :
    (rate_series 1_000_000_000 (sorted_series series)).points
    ≡ rate_reference 1_000_000_000 [] (sort_points series.points)
rate_series-sorted_series_example = rate_series-sorted_series 1_000_000_000 series

execute-limit_example :
    let loaded = expr_samples memory_ops storage rate_of_hits 1_000_000_000 3_000_000_000 in
    (3 ≡ loaded) × (loaded ≤ 10)
execute-limit_example =
    execute-limit 10 memory_ops storage 9 rate_of_hits 1_000_000_000 3_000_000_000 1 _ 3 rates

number_points_ends_example :
    (ps : List (Point ℕ)) × (number_points {V = ℕ} 12 5 15 4 7 ≡ some ps) × IsSteps 7 5 15 4 ps
number_points_ends_example =
    number_points_ends 7 11 5 15 4 (omega arith) (omega arith) (omega arith)

-- The three samples of `hits` become one series of three points.
execute_vector_selector-total_samples_example : 0 + total_samples (sorted_series series ∷ []) ≡ 3
unfolding execute_vector_selector series_loop query query_loop matches in_range name_matches
    labels_match str_eq lookup lookup_or insert series_key sort_strings sort_points insert_point
execute_vector_selector-total_samples_example =
    execute_vector_selector-total_samples memory_ops 10 storage
      (record { name = codes "hits"; matchers = [] }) 0 3_000_000_000 0 3
      (sorted_series series ∷ []) refl
