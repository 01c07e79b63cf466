-- ===== src/Query/Parser.antt =====
-- pkg/query/parser.go: the levels of precedence, and `Parse`. `parse_expression` takes fuel for its
-- nesting, and gives as much to each loop below it.
pub mod State
pub mod Selectors
pub mod Operands
use tinyobs.Base.{ℕ, zero, suc, ◌+◌, ◌||◌, Bool, Bytes, none, length, if◌then◌else◌}
use tinyobs.Float.{FloatOps}
use tinyobs.Query.Outcome.{Outcome}
use Operands.{parse_primary_expression}
use State.{Parser, M, ◌>>=◌, ◌>>◌, pure, fault, current, advance, is, new_parser}
use tinyobs.Query.Tokens.{TokenType, type_eq, Expr, unary_expr, binary_expr}

unfoldable pub is_comparison_op : TokenType → Bool
is_comparison_op t =
    type_eq t TokenType.equal_equal
    || type_eq t TokenType.not_equal
    || type_eq t TokenType.less
    || type_eq t TokenType.less_equal
    || type_eq t TokenType.greater
    || type_eq t TokenType.greater_equal

unfoldable pub is_multiplicative_op : TokenType → Bool
is_multiplicative_op t =
    type_eq t TokenType.multiply || type_eq t TokenType.divide || type_eq t TokenType.modulo

unfoldable pub is_additive_op : TokenType → Bool
is_additive_op t = type_eq t TokenType.plus || type_eq t TokenType.minus

module _ {V : Type 0} where
  -- The loop of a left-associative level: `for isOp(current) { … }`.
  unfoldable pub binary_loop : (TokenType → Bool) → M (Expr V) → ℕ → Expr V → M (Expr V)
  binary_loop is_op operand zero left = fault
  binary_loop is_op operand (suc f) left = do
    t ← current
    let again = do
      advance
      right ← operand
      binary_loop is_op operand f (binary_expr left t.type right none)
    if is_op t.type then again else pure left

  unfoldable pub left_associative : (TokenType → Bool) → M (Expr V) → ℕ → M (Expr V)
  left_associative is_op operand fuel = do left ← operand; binary_loop is_op operand fuel left

module _ {V : Type 0} ⦃F : FloatOps V⦄ (rec : M (Expr V)) where
  unfoldable pub parse_unary_expression : ℕ → ℕ → M (Expr V)
  parse_unary_expression fuel zero = fault
  parse_unary_expression fuel (suc f) = do
    t ← current
    let signed = do advance; e ← parse_unary_expression fuel f; pure (unary_expr t.type e)
    if is_additive_op t.type then signed else parse_primary_expression rec fuel

  -- `^` is right associative.
  unfoldable pub parse_power_expression : ℕ → ℕ → M (Expr V)
  parse_power_expression fuel zero = fault
  parse_power_expression fuel (suc f) = do
    left ← parse_unary_expression fuel fuel
    t ← current
    let power = do
      advance
      right ← parse_power_expression fuel f
      pure (binary_expr left t.type right none)
    if is TokenType.power t then power else pure left

  unfoldable pub parse_multiplicative_expression : ℕ → M (Expr V)
  parse_multiplicative_expression fuel =
      left_associative is_multiplicative_op (parse_power_expression fuel fuel) fuel

  unfoldable pub parse_additive_expression : ℕ → M (Expr V)
  parse_additive_expression fuel =
      left_associative is_additive_op (parse_multiplicative_expression fuel) fuel

  -- One comparison at most: `a < b < c` stops behind `b`.
  unfoldable pub parse_comparison_expression : ℕ → M (Expr V)
  parse_comparison_expression fuel = do
    left ← parse_additive_expression fuel
    t ← current
    let comparison = do
      advance
      right ← parse_additive_expression fuel
      pure (binary_expr left t.type right none)
    if is_comparison_op t.type then comparison else pure left

  unfoldable pub parse_unless_expression : ℕ → M (Expr V)
  parse_unless_expression fuel =
      left_associative (λ t. type_eq t TokenType.unless) (parse_comparison_expression fuel) fuel

  unfoldable pub parse_and_expression : ℕ → M (Expr V)
  parse_and_expression fuel =
      left_associative (λ t. type_eq t TokenType.and) (parse_unless_expression fuel) fuel

  unfoldable pub parse_or_expression : ℕ → M (Expr V)
  parse_or_expression fuel =
      left_associative (λ t. type_eq t TokenType.or) (parse_and_expression fuel) fuel

module _ {V : Type 0} ⦃F : FloatOps V⦄ where
  unfoldable pub parse_expression : ℕ → M (Expr V)
  parse_expression zero = fault
  parse_expression (suc f) = parse_or_expression (parse_expression f) (suc f)

-- What `Parse` returns: an expression, or the error with the token that is left over.
pub data ParseResult (V : Type 0) : Type 0 where
  parsed : Expr V → ParseResult V
  unexpected_token : Bytes → ParseResult V

-- Each token stands for at least one byte.
abbrev pub parse_fuel : Bytes → ℕ
parse_fuel input = suc (suc (suc (length input)))

unfoldable pub parse : {V : Type 0} ⦃F : FloatOps V⦄ → Bytes → Outcome (ParseResult V)
parse {V} input = elim (new_parser input) [
  | Outcome.ok (_, p) ↦ elim (parse_expression {V = V} (parse_fuel input) p) [
    | Outcome.ok (e, p') ↦
        Outcome.ok
          (if is TokenType.eof p'.current then parsed e else unexpected_token p'.current.literal)
    | Outcome.panic ↦ Outcome.panic
    | Outcome.out_of_fuel ↦ Outcome.out_of_fuel
  ]
  | Outcome.panic ↦ Outcome.panic
  | Outcome.out_of_fuel ↦ Outcome.out_of_fuel
]
