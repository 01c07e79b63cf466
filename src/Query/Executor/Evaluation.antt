-- ===== src/Query/Executor/Evaluation.antt =====
-- pkg/query/executor.go: the evaluation of an expression. `loaded` is `e.samplesLoaded`; an error
-- ends the query. `Result.Close` only releases memory and is left out.
pub mod Grouping
pub mod Steps
pub mod Limit
pub mod Indices
pub mod Results
use tinyobs.Base.{
  ℕ, zero, suc, ◌+◌, Bool, true, false, List, [], ◌∷◌, ◌++◌, Option, none, some, Bytes, codes,
  str_eq, Dict, map, lookup, insert, length, ltb, ◌==◌, ◌&&◌, not, if◌then◌else◌,
}
use tinyobs.Compaction.Compactor.{values}
use tinyobs.Float.{FloatOps}
use tinyobs.Metric.{Time, Labels, Metric, read_labels}
use tinyobs.Query.Executor.Aggregation.{aggregate, sort_points}
use tinyobs.Query.Executor.Rate.{add_duration, sub_duration, rate_series, increase_series}
use tinyobs.Query.Executor.Series.{
  Point, TimeSeries, SeriesGroup, series_key, build_group_key, group_loop,
}
use tinyobs.Query.Tokens.{
  TokenType, type_eq, Token, LabelMatcher, VectorSelector, Expr, Args, nil, vector_selector,
  range_selector, function_call, unary_expr, binary_expr, aggregate_expr, number_literal,
  paren_expr, subquery_expr, end, arg,
}
use tinyobs.Storage.{QueryRequest, StorageOps}

-- What an evaluation comes to: series and the samples loaded so far, an error, an index out of range,
-- or a loop that has not ended within its fuel.
pub data Evaluation (V : Type 0) : Type 0 where
  answer : List (TimeSeries V) → ℕ → Evaluation V
  failed panicked out_of_fuel : Evaluation V

unfoldable pub and_then :
    {V : Type 0} → Evaluation V → (List (TimeSeries V) → ℕ → Evaluation V) → Evaluation V
and_then (answer ss n) k = k ss n
and_then failed k = failed
and_then panicked k = panicked
and_then out_of_fuel k = out_of_fuel

-- The labels of the `=` matchers; the other matchers are passed over.
unfoldable pub equal_labels : Labels → List LabelMatcher → Labels
equal_labels ls [] = ls
equal_labels ls (m ∷ ms) =
    equal_labels (if type_eq m.op TokenType.equal then insert m.name m.value ls else ls) ms

module _ {V : Type 0} where
  join_series : Metric V → Option (TimeSeries V) → TimeSeries V
  join_series m (some ts) = record ts {
    points = ts.points ++ record { time = m.timestamp; value = m.value } ∷ [];
  }
  join_series m none = record {
    labels = read_labels m.label_map;
    points = record { time = m.timestamp; value = m.value } ∷ [];
  }

  -- The loop that groups samples by their label sets.
  unfoldable pub series_loop : Dict (TimeSeries V) → List (Metric V) → Dict (TimeSeries V)
  unfolding join_series
  series_loop series [] = series
  series_loop series (m ∷ ms) =
      let key = series_key (read_labels m.label_map) in
      series_loop (insert key (join_series m (lookup key series)) series) ms

  abbrev pub sorted_series : TimeSeries V → TimeSeries V
  sorted_series ts = record ts { points = sort_points ts.points }

  -- The first point of `ps` at the time of `p`.
  find_point : Time → List (Point V) → Option (Point V)
  find_point t [] = none
  find_point t (q ∷ qs) = if t == q.time then some q else find_point t qs

  -- The loop of a literal: a point at each step; `none` where the fuel has run out.
  unfoldable pub number_points : ℕ → Time → Time → ℕ → V → Option (List (Point V))
  number_points zero t stop step v = none
  number_points (suc f) t stop step v =
      let rest = number_points f (add_duration t step) stop step v in
      if ltb stop t
      then some []
      else elim rest [ some ps ↦ some (record { time = t; value = v } ∷ ps) | none ↦ none ]

-- `Series[0]`, where `none` is an index out of range.
abbrev pub first : {A : Type 0} → List A → Option A
first [] = none
first (x ∷ xs) = some x

-- `len(fn.Args)`, and `fn.Args[0]`, where `none` is an index out of range.
abbrev pub args_length : {V : Type 0} → Args V → ℕ
args_length end = 0
args_length (arg e es) = suc (args_length es)

abbrev pub first_arg : {V : Type 0} → Args V → Option (Expr V)
first_arg end = none
first_arg (arg e es) = some e

module _ {V : Type 0} ⦃F : FloatOps V⦄ where
  unfoldable pub apply_op : V → V → TokenType → V
  apply_op left right op =
      if type_eq op TokenType.plus
      then F.add left right
      else if type_eq op TokenType.minus
      then F.sub left right
      else if type_eq op TokenType.multiply
      then F.mul left right
      else if type_eq op TokenType.divide
      then (if not (F.eq right F.zero_value) then F.div left right else F.nan)
      else if type_eq op TokenType.power
      then F.pow left right
      else if type_eq op TokenType.modulo
      then F.fmod left right
      else F.nan

  apply_points : TokenType → List (Point V) → List (Point V) → List (Point V)
  apply_points op [] rs = []
  apply_points op (p ∷ ps) rs =
      let rest = apply_points op ps rs in
      elim (find_point p.time rs) [
        | some q ↦ record { time = p.time; value = apply_op p.value q.value op } ∷ rest
        | none ↦ rest
      ]

  -- What `left.Series[0]` and `right.Series[0]` make; `none` is an index out of range.
  unfoldable pub apply_to_first :
      Option (TimeSeries V) → Option (TimeSeries V) → TokenType → ℕ → Evaluation V
  unfolding apply_points find_point
  apply_to_first (some l) (some r) op n =
      answer (record { labels = l.labels; points = apply_points op l.points r.points } ∷ []) n
  apply_to_first _ _ op n = panicked

  -- One series on either side, or an error.
  unfoldable pub apply_binary_op :
      List (TimeSeries V) → List (TimeSeries V) → TokenType → ℕ → Evaluation V
  apply_binary_op ls rs op n =
      if length ls == 1 && length rs == 1 then apply_to_first (first ls) (first rs) op n else failed

  abbrev negate_series : TimeSeries V → TimeSeries V
  negate_series ts = record ts {
    points = map (λ (p : Point V). record p { value = F.neg p.value }) ts.points;
  }

  abbrev aggregate_group : Bytes → SeriesGroup V → TimeSeries V
  aggregate_group op g = record { labels = g.labels; points = aggregate g.series op }

  unfoldable pub execute_number_literal : ℕ → V → Time → Time → ℕ → ℕ → Evaluation V
  execute_number_literal fuel v start stop step n = elim (number_points fuel start stop step v) [
    | some ps ↦ answer (record { labels = []; points = ps } ∷ []) n
    | none ↦ out_of_fuel
  ]

  module _ {S : Type 0} (ops : StorageOps V S) (max_samples : ℕ) (s : S) where
    unfoldable pub execute_vector_selector : VectorSelector → Time → Time → ℕ → Evaluation V
    unfolding equal_labels
    execute_vector_selector vec start stop loaded =
        elim (ops.query s (record {
          start = start;
          end = stop;
          metric_names = vec.name ∷ [];
          labels = equal_labels [] vec.matchers;
          limit = 0;
        })) [
          | none ↦ failed
          | some ms ↦
              if ltb max_samples (loaded + length ms)
              then failed
              else answer (map sorted_series (values (series_loop [] ms))) (loaded + length ms)
        ]

    unfoldable pub execute_range_selector : VectorSelector → ℕ → Time → Time → ℕ → Evaluation V
    execute_range_selector vec d start stop loaded =
        execute_vector_selector vec (sub_duration start d) stop loaded

    -- `executeRate` from `fn.Args[0]` on, which is to be a range selector.
    unfoldable pub rate_of_arg : Option (Expr V) → Time → Time → ℕ → Evaluation V
    rate_of_arg none start stop loaded = panicked
    rate_of_arg (some (range_selector vec d)) start stop loaded =
        and_then (execute_range_selector vec d start stop loaded)
          (λ ss n. answer (map (rate_series d) ss) n)
    rate_of_arg (some _) start stop loaded = failed

    unfoldable pub execute_rate : Args V → Time → Time → ℕ → Evaluation V
    execute_rate args start stop loaded =
        if not (args_length args == 1)
        then failed
        else rate_of_arg (first_arg args) start stop loaded

    -- `executeIncrease` from its own `fn.Args[0]` on.
    unfoldable pub increase_of_arg : Option (Expr V) → List (TimeSeries V) → ℕ → Evaluation V
    increase_of_arg none ss n = panicked
    increase_of_arg (some (range_selector vec d)) ss n = answer (map (increase_series d) ss) n
    increase_of_arg (some _) ss n = failed

    unfoldable pub execute_increase : Args V → Time → Time → ℕ → Evaluation V
    execute_increase args start stop loaded =
        and_then (execute_rate args start stop loaded)
          (λ ss n. increase_of_arg (first_arg args) ss n)

    unfoldable pub execute_function_call : Bytes → Args V → Time → Time → ℕ → Evaluation V
    execute_function_call name args start stop loaded =
        if str_eq name (codes "rate")
        then execute_rate args start stop loaded
        else if str_eq name (codes "increase")
        then execute_increase args start stop loaded
        else failed

    unfoldable pub execute_expr : ℕ → Expr V → Time → Time → ℕ → ℕ → Evaluation V
    execute_expr fuel (vector_selector vec) start stop step loaded =
        execute_vector_selector vec start stop loaded
    execute_expr fuel (range_selector vec d) start stop step loaded =
        execute_range_selector vec d start stop loaded
    execute_expr fuel (binary_expr l op r matching) start stop step loaded =
        and_then (execute_expr fuel l start stop step loaded) (λ ls n.
          and_then (execute_expr fuel r start stop step n) (λ rs k. apply_binary_op ls rs op k))
    execute_expr fuel (aggregate_expr op grouping e without) start stop step loaded =
        and_then (execute_expr fuel e start stop step loaded)
          (λ ss n. answer (map (aggregate_group op) (values (group_loop grouping without [] ss))) n)
    execute_expr fuel (function_call name args) start stop step loaded =
        execute_function_call name args start stop loaded
    execute_expr fuel (number_literal v) start stop step loaded =
        execute_number_literal fuel v start stop step loaded
    execute_expr fuel (unary_expr op e) start stop step loaded =
        and_then (execute_expr fuel e start stop step loaded)
          (λ ss n. answer (if type_eq op TokenType.minus then map negate_series ss else ss) n)
    execute_expr fuel (paren_expr e) start stop step loaded =
        execute_expr fuel e start stop step loaded
    execute_expr fuel nil start stop step loaded = failed
    execute_expr fuel (subquery_expr e range sub_step offset) start stop step loaded = failed

    -- `Execute`, without the count of the samples in the result.
    unfoldable pub execute : ℕ → Expr V → Time → Time → ℕ → Evaluation V
    execute fuel e start stop step = execute_expr fuel e start stop step 0
