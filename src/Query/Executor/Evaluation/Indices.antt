-- ===== src/Query/Executor/Evaluation/Indices.antt =====
-- pkg/query/executor.go: every index is in range.
use tinyobs.Base.{
  ℕ, ◌+◌, ◌≡◌, ◌≢◌, not, ◌&&◌, ◌==◌, List, [], ◌∷◌, Option, none, some, Bytes, codes, str_eq,
  length, map, ltb, if◌then◌else◌, if_elim, arith,
}
use mathlib.Core.Path.{subst}
use tinyobs.Compaction.Compactor.{values}
use tinyobs.Float.{FloatOps}
use tinyobs.Metric.{Time, Metric}
use tinyobs.Query.Executor.Evaluation.{
  Evaluation, answer, failed, panicked, out_of_fuel, and_then, series_loop, sorted_series,
  number_points, first, args_length, first_arg, apply_to_first, apply_binary_op,
  execute_number_literal, execute_vector_selector, execute_range_selector, rate_of_arg,
  execute_rate, increase_of_arg, execute_increase, execute_function_call, execute_expr, execute,
}
use tinyobs.Query.Executor.Rate.{sub_duration}
use tinyobs.Query.Executor.Series.{Point, TimeSeries}
use tinyobs.Query.Tokens.{
  TokenType, VectorSelector, Expr, Args, nil, vector_selector, range_selector, function_call,
  unary_expr, binary_expr, aggregate_expr, number_literal, paren_expr, subquery_expr, end, arg,
}
use tinyobs.Storage.{StorageOps}

-- Any outcome but a panic.
abbrev IsFine : {V : Type 0} → Evaluation V → Type 0
IsFine panicked = ⊥
IsFine _ = Unit

and_then-IsFine :
    {V : Type 0} (r : Evaluation V) (k : List (TimeSeries V) → ℕ → Evaluation V)
    → IsFine r
    → ((ss : List (TimeSeries V)) (n : ℕ) → IsFine (k ss n))
    → IsFine (and_then r k)
unfolding and_then
and_then-IsFine (answer ss n) k h step = step ss n
and_then-IsFine failed k h step = tt
and_then-IsFine panicked k h step = h
and_then-IsFine out_of_fuel k h step = tt

module _ {V : Type 0} ⦃F : FloatOps V⦄ where
  apply_binary_op-IsFine :
      (ls rs : List (TimeSeries V)) (op : TokenType) (n : ℕ) → IsFine (apply_binary_op ls rs op n)
  unfolding apply_binary_op apply_to_first
  apply_binary_op-IsFine ls rs op n =
      if_elim IsFine (length ls == 1 && length rs == 1)
        (λ one. go ls rs (ground arith) (ground arith)) (λ _. tt)
    where
      go :
          (ls rs : List (TimeSeries V))
          → length ls ≡ 1
          → length rs ≡ 1
          → IsFine (apply_to_first (first ls) (first rs) op n)
      go [] rs h k = absurd (omega (arith, h))
      go (l ∷ ls) [] h k = absurd (omega (arith, k))
      go (l ∷ ls) (r ∷ rs) h k = tt

  number_literal-IsFine :
      (fuel : ℕ) (v : V) (start stop : Time) (step n : ℕ)
      → IsFine (execute_number_literal fuel v start stop step n)
  unfolding execute_number_literal
  number_literal-IsFine fuel v start stop step n = go (number_points fuel start stop step v)
    where
      go :
          (o : Option (List (Point V)))
          → IsFine (elim o [
            | some ps ↦ answer (record { labels = []; points = ps } ∷ []) n
            | none ↦ out_of_fuel
          ])
      go (some ps) = tt
      go none = tt

  module _ {S : Type 0} (ops : StorageOps V S) (max_samples : ℕ) (s : S) where
    vector_selector-IsFine :
        (vec : VectorSelector) (start stop : Time) (loaded : ℕ)
        → IsFine (execute_vector_selector ops max_samples s vec start stop loaded)
    unfolding execute_vector_selector
    vector_selector-IsFine vec start stop loaded = go (ops.query s _)
      where
        go :
            (o : Option (List (Metric V)))
            → IsFine (elim o [
              | none ↦ failed
              | some ms ↦
                  if ltb max_samples (loaded + length ms)
                  then failed
                  else answer (map sorted_series (values (series_loop [] ms))) (loaded + length ms)
            ])
        go none = tt
        go (some ms) = if_elim IsFine (ltb max_samples (loaded + length ms)) (λ _. tt) (λ _. tt)

    rate-IsFine :
        (args : Args V) (start stop : Time) (loaded : ℕ)
        → IsFine (execute_rate ops max_samples s args start stop loaded)
    unfolding execute_rate rate_of_arg execute_range_selector
    rate-IsFine args start stop loaded =
        if_elim IsFine (not (args_length args == 1)) (λ _. tt) (λ one. go args (ground arith))
      where
        go :
            (args : Args V)
            → args_length args ≡ 1
            → IsFine (rate_of_arg ops max_samples s (first_arg args) start stop loaded)
        go end one = absurd (omega (arith, one))
        go (arg (range_selector vec d) es) one =
            and_then-IsFine _ _ (vector_selector-IsFine vec (sub_duration start d) stop loaded)
              (λ ss n. tt)
        go (arg _ es) one = tt

    -- `executeIncrease` does not test the number of arguments itself.
    increase-IsFine :
        (args : Args V) (start stop : Time) (loaded : ℕ)
        → IsFine (execute_increase ops max_samples s args start stop loaded)
    unfolding execute_increase execute_rate increase_of_arg and_then
    increase-IsFine end start stop loaded = tt
    increase-IsFine (arg e es) start stop loaded =
        and_then-IsFine (execute_rate ops max_samples s (arg e es) start stop loaded) _
          (rate-IsFine (arg e es) start stop loaded) (λ ss n. go e ss n)
      where
        go :
            (e : Expr V) (ss : List (TimeSeries V)) (n : ℕ)
            → IsFine (increase_of_arg ops max_samples s (some e) ss n)
        go (range_selector vec d) ss n = tt
        go _ ss n = tt

    function_call-IsFine :
        (name : Bytes) (args : Args V) (start stop : Time) (loaded : ℕ)
        → IsFine (execute_function_call ops max_samples s name args start stop loaded)
    unfolding execute_function_call
    function_call-IsFine name args start stop loaded =
        if_elim IsFine (str_eq name (codes "rate")) (λ _. rate-IsFine args start stop loaded)
          (λ _.
            if_elim IsFine (str_eq name (codes "increase"))
              (λ _. increase-IsFine args start stop loaded) (λ _. tt))

    expr-IsFine :
        (fuel : ℕ) (e : Expr V) (start stop : Time) (step loaded : ℕ)
        → IsFine (execute_expr ops max_samples s fuel e start stop step loaded)
    unfolding execute_expr execute_range_selector
    expr-IsFine fuel nil start stop step n = tt
    expr-IsFine fuel (vector_selector vec) start stop step n =
        vector_selector-IsFine vec start stop n
    expr-IsFine fuel (range_selector vec d) start stop step n =
        vector_selector-IsFine vec (sub_duration start d) stop n
    expr-IsFine fuel (function_call name args) start stop step n =
        function_call-IsFine name args start stop n
    expr-IsFine fuel (unary_expr op e) start stop step n =
        and_then-IsFine _ _ (expr-IsFine fuel e start stop step n) (λ ss k. tt)
    expr-IsFine fuel (binary_expr l op r matching) start stop step n =
        and_then-IsFine _ _ (expr-IsFine fuel l start stop step n) (λ ls k.
          and_then-IsFine _ _ (expr-IsFine fuel r start stop step k)
            (λ rs j. apply_binary_op-IsFine ls rs op j))
    expr-IsFine fuel (aggregate_expr op grouping e without) start stop step n =
        and_then-IsFine _ _ (expr-IsFine fuel e start stop step n) (λ ss k. tt)
    expr-IsFine fuel (number_literal v) start stop step n =
        number_literal-IsFine fuel v start stop step n
    expr-IsFine fuel (paren_expr e) start stop step n = expr-IsFine fuel e start stop step n
    expr-IsFine fuel (subquery_expr e range sub_step offset) start stop step n = tt

    -- `Execute` takes no index out of range, whatever the expression: an operand of two is indexed
    -- only if it has one series, and the arguments of a function only if there is one.
    pub execute-ne-panicked :
        (fuel : ℕ) (e : Expr V) (start stop : Time) (step : ℕ)
        → execute ops max_samples s fuel e start stop step ≢ panicked
    unfolding execute
    execute-ne-panicked fuel e start stop step h =
        subst IsFine h (expr-IsFine fuel e start stop step 0)
