-- ===== src/Query/Parser/Operands.antt =====
-- pkg/query/parser.go: what an expression is built from. `rec` is `parseExpression`, and `fuel`
-- bounds the rounds of a loop.
use tinyobs.Base.{ℕ, zero, suc, ◌||◌, Bool, false, List, [], Bytes, if◌then◌else◌}
use tinyobs.Float.{FloatOps}
use tinyobs.Query.Parser.Selectors.{parse_vector_selector, parse_grouping_labels, skip}
use tinyobs.Query.Parser.State.{M, ◌>>=◌, ◌>>◌, pure, fault, current, advance, is}
use tinyobs.Query.Tokens.{
  TokenType, type_eq, Expr, Args, nil, function_call, aggregate_expr, number_literal, paren_expr,
  end, arg,
}

-- `append(args, e)`
unfoldable pub append_arg : {V : Type 0} → Args V → Expr V → Args V
append_arg end e = arg e end
append_arg (arg a args) e = arg a (append_arg args e)

unfoldable pub is_aggregation : TokenType → Bool
is_aggregation t =
    type_eq t TokenType.sum
    || type_eq t TokenType.avg
    || type_eq t TokenType.max
    || type_eq t TokenType.min
    || type_eq t TokenType.count
    || type_eq t TokenType.stddev
    || type_eq t TokenType.stdvar
    || type_eq t TokenType.topk
    || type_eq t TokenType.bottomk
    || type_eq t TokenType.quantile
    || type_eq t TokenType.count_values

-- `by (…)` or `without (…)`: the labels, and whether it is `without`.
unfoldable pub parse_grouping : ℕ → M (List Bytes × Bool)
parse_grouping fuel = do
  t ← current
  let labels = do
    advance
    c ← current
    ls ← if is TokenType.left_paren c then parse_grouping_labels fuel else pure []
    pure (ls, is TokenType.without t)
  if is TokenType.by t || is TokenType.without t then labels else pure ([], false)

module _ {V : Type 0} (rec : M (Expr V)) where
  unfoldable pub parse_paren_expression : M (Expr V)
  parse_paren_expression = do
    advance
    e ← rec
    t ← current
    if is TokenType.right_paren t then advance >> pure (paren_expr e) else pure e

  -- The loop over the arguments of a call.
  unfoldable pub args_loop : ℕ → Args V → M (Args V)
  args_loop zero args = fault
  args_loop (suc f) args = do
    t ← current
    let more = do
      a ← rec
      c ← current
      let args' = append_arg args a
      if is TokenType.comma c then advance >> args_loop f args' else pure args'
    if is TokenType.right_paren t || is TokenType.eof t then pure args else more

  unfoldable pub parse_function_call : ℕ → Bytes → M (Expr V)
  parse_function_call fuel name = do
    advance
    args ← args_loop fuel end
    skip TokenType.right_paren
    pure (function_call name args)

  unfoldable pub parse_vector_or_function : ℕ → M (Expr V)
  parse_vector_or_function fuel = do
    t ← current
    advance
    c ← current
    if is TokenType.left_paren c
        then parse_function_call fuel t.literal
        else parse_vector_selector fuel t.literal

  unfoldable pub parse_aggregation : ℕ → M (Expr V)
  parse_aggregation fuel = do
    op ← current
    advance
    (grouping, without) ← parse_grouping fuel
    t ← current
    let argument = do
      advance
      e ← rec
      skip TokenType.right_paren
      pure (aggregate_expr op.literal grouping e without)
    if is TokenType.left_paren t
        then argument
        else pure (aggregate_expr op.literal grouping nil without)

  module _ ⦃F : FloatOps V⦄ where
    unfoldable pub parse_number : M (Expr V)
    parse_number = do t ← current; advance; pure (number_literal (F.parse_float t.literal))

    -- An unexpected token is not consumed, and a dummy 0 is returned.
    unfoldable pub parse_primary_expression : ℕ → M (Expr V)
    parse_primary_expression fuel = do
      t ← current
      if is TokenType.number t
          then parse_number
          else if is TokenType.left_paren t
          then parse_paren_expression
          else if is TokenType.identifier t
          then parse_vector_or_function fuel
          else if is_aggregation t.type
          then parse_aggregation fuel
          else pure (number_literal F.zero_value)
