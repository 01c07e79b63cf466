-- ===== src/Query/Executor/Evaluation/Limit.antt =====
-- pkg/query/executor.go: the limit on the samples that a query loads.
use tinyobs.Base.{
  ℕ, ◌+◌, ◌≤◌, ◌≡◌, List, Option, none, some, Bytes, codes, str_eq, length, map, ltb, ltb_false→le,
  refl, ◌==◌, ◌&&◌, not, if◌then◌else◌, if_elim, arith, [], ◌∷◌,
}
use tinyobs.Compaction.Compactor.{values}
use tinyobs.Float.{FloatOps}
use tinyobs.Metric.{Time, Metric}
use tinyobs.Query.Executor.Evaluation.{
  Evaluation, equal_labels, answer, failed, panicked, out_of_fuel, and_then, series_loop,
  sorted_series, number_points, first, args_length, first_arg, apply_to_first, apply_binary_op,
  execute_number_literal, execute_vector_selector, execute_range_selector, rate_of_arg,
  execute_rate, increase_of_arg, execute_increase, execute_function_call, execute_expr, execute,
}
use tinyobs.Query.Executor.Rate.{sub_duration}
use tinyobs.Query.Executor.Series.{Point, TimeSeries}
use tinyobs.Query.Tokens.{
  TokenType, VectorSelector, Expr, Args, nil, vector_selector, range_selector, function_call,
  unary_expr, binary_expr, aggregate_expr, number_literal, paren_expr, subquery_expr, end, arg,
}
use tinyobs.Storage.{QueryRequest, StorageOps}

-- What a selector asks the storage for.
abbrev pub selector_request : VectorSelector → Time → Time → QueryRequest
selector_request vec start stop = record {
  start = start;
  end = stop;
  metric_names = vec.name ∷ [];
  labels = equal_labels [] vec.matchers;
  limit = 0;
}

abbrev pub count_found : {V : Type 0} → Option (List (Metric V)) → ℕ
count_found none = 0
count_found (some ms) = length ms

module _ {V S : Type 0} (ops : StorageOps V S) (s : S) where
  -- The samples that the storage gives for a selector.
  abbrev pub selector_samples : VectorSelector → Time → Time → ℕ
  selector_samples vec start stop = count_found (ops.query s (selector_request vec start stop))

  -- The samples that the selectors of an expression stand for, all together, in a range: those of a
  -- range selector from its duration earlier on.
  abbrev pub args_samples : Args V → Time → Time → ℕ
  args_samples (arg (range_selector vec d) end) start stop =
      selector_samples vec (sub_duration start d) stop
  args_samples _ start stop = 0

  pub expr_samples : Expr V → Time → Time → ℕ
  expr_samples (vector_selector vec) start stop = selector_samples vec start stop
  expr_samples (range_selector vec d) start stop = selector_samples vec (sub_duration start d) stop
  expr_samples (binary_expr l op r matching) start stop =
      expr_samples l start stop + expr_samples r start stop
  expr_samples (aggregate_expr op grouping e without) start stop = expr_samples e start stop
  expr_samples (function_call name args) start stop = args_samples args start stop
  expr_samples (unary_expr op e) start stop = expr_samples e start stop
  expr_samples (paren_expr e) start stop = expr_samples e start stop
  expr_samples (number_literal v) start stop = 0
  expr_samples nil start stop = 0
  expr_samples (subquery_expr e range sub_step offset) start stop = 0

module _ {V : Type 0} (max_samples : ℕ) where
  -- An answer has loaded `total` samples, and no more than the limit.
  abbrev Counts : ℕ → Evaluation V → Type 0
  Counts total (answer ss n) = (n ≡ total) × (n ≤ max_samples)
  Counts total failed = Unit
  Counts total panicked = Unit
  Counts total out_of_fuel = Unit

  and_then-Counts :
      (a b : ℕ) (r : Evaluation V) (k : List (TimeSeries V) → ℕ → Evaluation V)
      → Counts a r
      → ((ss : List (TimeSeries V)) (n : ℕ) → n ≡ a → n ≤ max_samples → Counts b (k ss n))
      → Counts b (and_then r k)
  unfolding and_then
  and_then-Counts a b (answer ss n) k h step = step ss n h.0 h.1
  and_then-Counts a b failed k h step = tt
  and_then-Counts a b panicked k h step = tt
  and_then-Counts a b out_of_fuel k h step = tt

module _ {V : Type 0} ⦃F : FloatOps V⦄ (max_samples : ℕ) where
  apply_binary_op-Counts :
      (ls rs : List (TimeSeries V)) (op : TokenType) (n total : ℕ)
      → n ≡ total
      → n ≤ max_samples
      → Counts max_samples total (apply_binary_op ls rs op n)
  unfolding apply_binary_op apply_to_first
  apply_binary_op-Counts ls rs op n total e h =
      if_elim (Counts max_samples total) (length ls == 1 && length rs == 1)
        (λ _. go (first ls) (first rs)) (λ _. tt)
    where
      go : (l r : Option (TimeSeries V)) → Counts max_samples total (apply_to_first l r op n)
      go (some l) (some r) = (e, h)
      go none r = tt
      go (some l) none = tt

  number_literal-Counts :
      (fuel : ℕ) (v : V) (start stop : Time) (step n : ℕ)
      → n ≤ max_samples
      → Counts max_samples (n + 0) (execute_number_literal fuel v start stop step n)
  unfolding execute_number_literal
  number_literal-Counts fuel v start stop step n h = go (number_points fuel start stop step v)
    where
      go :
          (o : Option (List (Point V)))
          → Counts max_samples (n + 0) (elim o [
            | some ps ↦ answer (record { labels = []; points = ps } ∷ []) n
            | none ↦ out_of_fuel
          ])
      go (some ps) = (omega arith, h)
      go none = tt

  module _ {S : Type 0} (ops : StorageOps V S) (s : S) where
    vector_selector-Counts :
        (vec : VectorSelector) (start stop : Time) (loaded : ℕ)
        → Counts max_samples
            (loaded + selector_samples ops s vec start stop)
            (execute_vector_selector ops max_samples s vec start stop loaded)
    unfolding execute_vector_selector
    vector_selector-Counts vec start stop loaded = go (ops.query s _)
      where
        go :
            (o : Option (List (Metric V)))
            → Counts max_samples (loaded + count_found o) (elim o [
              | none ↦ failed
              | some ms ↦
                  if ltb max_samples (loaded + length ms)
                  then failed
                  else answer (map sorted_series (values (series_loop [] ms))) (loaded + length ms)
            ])
        go none = tt
        go (some ms) =
            if_elim (Counts {V = V} max_samples (loaded + length ms))
              (ltb max_samples (loaded + length ms)) (λ _. tt)
              (λ fits. (refl, ltb_false→le max_samples (loaded + length ms) fits))

    rate-Counts :
        (args : Args V) (start stop : Time) (loaded : ℕ)
        → Counts max_samples
            (loaded + args_samples ops s args start stop)
            (execute_rate ops max_samples s args start stop loaded)
    unfolding execute_rate rate_of_arg execute_range_selector
    rate-Counts args start stop loaded =
        if_elim (Counts max_samples (loaded + args_samples ops s args start stop))
          (not (args_length args == 1)) (λ _. tt) (λ one. go args (ground arith))
      where
        go :
            (args : Args V)
            → args_length args ≡ 1
            → Counts max_samples
                (loaded + args_samples ops s args start stop)
                (rate_of_arg ops max_samples s (first_arg args) start stop loaded)
        go end one = tt
        go (arg (range_selector vec d) end) one =
            and_then-Counts max_samples _ _ _ _
              (vector_selector-Counts vec (sub_duration start d) stop loaded) (λ ss n e h. (e, h))
        go (arg (range_selector vec d) (arg e es)) one = absurd (omega (arith, one))
        go (arg _ es) one = tt

    increase-Counts :
        (args : Args V) (start stop : Time) (loaded : ℕ)
        → Counts max_samples
            (loaded + args_samples ops s args start stop)
            (execute_increase ops max_samples s args start stop loaded)
    unfolding execute_increase increase_of_arg
    increase-Counts args start stop loaded =
        and_then-Counts max_samples _ _ _ _ (rate-Counts args start stop loaded)
          (λ ss n e h. go (first_arg args) ss n e h)
      where
        total : ℕ
        total = loaded + args_samples ops s args start stop

        go :
            (o : Option (Expr V)) (ss : List (TimeSeries V)) (n : ℕ)
            → n ≡ total
            → n ≤ max_samples
            → Counts max_samples total (increase_of_arg ops max_samples s o ss n)
        go none ss n e h = tt
        go (some (range_selector vec d)) ss n e h = (e, h)
        go (some _) ss n e h = tt

    function_call-Counts :
        (name : Bytes) (args : Args V) (start stop : Time) (loaded : ℕ)
        → Counts max_samples
            (loaded + args_samples ops s args start stop)
            (execute_function_call ops max_samples s name args start stop loaded)
    unfolding execute_function_call
    function_call-Counts name args start stop loaded =
        if_elim (Counts {V = V} max_samples (loaded + args_samples ops s args start stop))
          (str_eq name (codes "rate")) (λ _. rate-Counts args start stop loaded)
          (λ _.
            if_elim (Counts {V = V} max_samples (loaded + args_samples ops s args start stop))
              (str_eq name (codes "increase")) (λ _. increase-Counts args start stop loaded)
              (λ _. tt))

    expr-Counts :
        (fuel : ℕ) (e : Expr V) (start stop : Time) (step loaded : ℕ)
        → loaded ≤ max_samples
        → Counts max_samples
            (loaded + expr_samples ops s e start stop)
            (execute_expr ops max_samples s fuel e start stop step loaded)
    unfolding execute_expr execute_range_selector expr_samples
    expr-Counts fuel nil start stop step n h = tt
    expr-Counts fuel (vector_selector vec) start stop step n h =
        vector_selector-Counts vec start stop n
    expr-Counts fuel (range_selector vec d) start stop step n h =
        vector_selector-Counts vec (sub_duration start d) stop n
    expr-Counts fuel (function_call name args) start stop step n h =
        function_call-Counts name args start stop n
    expr-Counts fuel (unary_expr op e) start stop step n h =
        and_then-Counts max_samples _ _ _ _ (expr-Counts fuel e start stop step n h)
          (λ ss k same i. (same, i))
    expr-Counts fuel (binary_expr l op r matching) start stop step n h =
        and_then-Counts max_samples _ _ _ _ (expr-Counts fuel l start stop step n h) (λ ls k same i.
          and_then-Counts max_samples _ _ _ _ (expr-Counts fuel r start stop step k i)
            (λ rs j both g. apply_binary_op-Counts ls rs op j _ (omega (arith, same, both)) g))
    expr-Counts fuel (aggregate_expr op grouping e without) start stop step n h =
        and_then-Counts max_samples _ _ _ _ (expr-Counts fuel e start stop step n h)
          (λ ss k same i. (same, i))
    expr-Counts fuel (number_literal v) start stop step n h =
        number_literal-Counts fuel v start stop step n h
    expr-Counts fuel (paren_expr e) start stop step n h = expr-Counts fuel e start stop step n h
    expr-Counts fuel (subquery_expr e range sub_step offset) start stop step n h = tt

    -- A query that is answered has loaded just the samples that the storage gives for the selectors
    -- of its expression, each selector in its own range, and these are at most `MaxSamples` over all
    -- selectors together.
    pub execute-limit :
        (fuel : ℕ) (e : Expr V) (start stop : Time) (step : ℕ) (ss : List (TimeSeries V)) (n : ℕ)
        → execute ops max_samples s fuel e start stop step ≡ answer ss n
        → (n ≡ expr_samples ops s e start stop) × (expr_samples ops s e start stop ≤ max_samples)
    unfolding execute
    execute-limit fuel e start stop step ss n h =
        go (execute_expr ops max_samples s fuel e start stop step 0)
          (expr-Counts fuel e start stop step 0 (omega arith)) h
      where
        go :
            (r : Evaluation V)
            → Counts max_samples (0 + expr_samples ops s e start stop) r
            → r ≡ answer ss n
            → (n ≡ expr_samples ops s e start stop)
              × (expr_samples ops s e start stop ≤ max_samples)
        go (answer xs k) i e = (let same : k ≡ n = cc in omega (arith, same, i))
        go failed i e = absurd (cc)
        go panicked i e = absurd (cc)
        go out_of_fuel i e = absurd (cc)
