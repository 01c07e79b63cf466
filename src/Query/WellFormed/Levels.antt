-- ===== src/Query/WellFormed/Levels.antt =====
-- pkg/query/parser.go: every level of precedence makes expressions of the language.
use mathlib.Core.Path.{subst}
use tinyobs.Base.{ℕ, zero, suc, ◌≡◌, Bool, true, false, Bytes, if◌then◌else◌, arith}
use tinyobs.Float.{FloatOps}
use tinyobs.Query.Outcome.{Outcome, ok, panic, out_of_fuel}
use tinyobs.Query.Parser.State.{Parser, M, pure, advance, is, new_parser}
use tinyobs.Query.Parser.{
  is_comparison_op, is_multiplicative_op, is_additive_op, binary_loop, left_associative,
  parse_unary_expression, parse_power_expression, parse_multiplicative_expression,
  parse_additive_expression, parse_comparison_expression, parse_unless_expression,
  parse_and_expression, parse_or_expression, parse_expression, ParseResult, parsed,
  unexpected_token, parse_fuel, parse,
}
use tinyobs.Query.Tokens.{TokenType, Expr}
use tinyobs.Query.WellFormed.Operands.{Makes-parse_primary_expression}
use tinyobs.Query.WellFormed.{
  is_binary_op, is_sign-is_additive_op, is_binary_op-is_additive_op,
  is_binary_op-is_multiplicative_op, is_binary_op-is_comparison_op, is_binary_op-is_single_op,
  IsExpr, sign, binary, Yields, Makes, Yields-bind, Yields-if, Yields-then,
}

abbrev AreBinary : (TokenType → Bool) → Type 0
AreBinary is_op = (t : TokenType) → is_op t ≡ true → is_binary_op t ≡ true

module _ {V : Type 0} where
  Makes-binary_loop :
      (is_op : TokenType → Bool) (operand : M (Expr V)) (f : ℕ) (e : Expr V)
      → AreBinary is_op
      → Makes IsExpr operand
      → IsExpr e
      → Makes IsExpr (binary_loop is_op operand f e)
  unfolding binary_loop
  Makes-binary_loop is_op operand zero e op ih h p = tt
  Makes-binary_loop is_op operand (suc f) e op ih h p =
      Yields-if IsExpr (is_op p.current.type) _ (pure e) p
        (λ hit. Yields-then IsExpr advance _ p (λ _ p1.
          Yields-bind IsExpr IsExpr operand _ p1 (ih p1)
            (λ right g. Makes-binary_loop is_op operand f _ op ih (binary (op _ hit) h g))))
        (λ _. h)

  Makes-left_associative :
      (is_op : TokenType → Bool) (operand : M (Expr V)) (f : ℕ)
      → AreBinary is_op
      → Makes IsExpr operand
      → Makes IsExpr (left_associative is_op operand f)
  unfolding left_associative
  Makes-left_associative is_op operand f op ih p =
      Yields-bind IsExpr IsExpr operand _ p (ih p)
        (λ e h. Makes-binary_loop is_op operand f e op ih h)

module _ {V : Type 0} ⦃F : FloatOps V⦄ (rec : M (Expr V)) (ih : Makes IsExpr rec) where
  Makes-parse_unary_expression : (n f : ℕ) → Makes IsExpr (parse_unary_expression rec n f)
  unfolding parse_unary_expression
  Makes-parse_unary_expression n zero p = tt
  Makes-parse_unary_expression n (suc f) p =
      Yields-if IsExpr (is_additive_op p.current.type) _ _ p
        (λ signed. Yields-then IsExpr advance _ p (λ _ p1.
          Yields-bind IsExpr IsExpr (parse_unary_expression rec n f) _ p1
            (Makes-parse_unary_expression n f p1)
            (λ e h _. sign (is_sign-is_additive_op _ signed) h)))
        (λ _. Makes-parse_primary_expression rec ih n p)

  Makes-parse_power_expression : (n f : ℕ) → Makes IsExpr (parse_power_expression rec n f)
  unfolding parse_power_expression
  Makes-parse_power_expression n zero p = tt
  Makes-parse_power_expression n (suc f) p =
      Yields-bind IsExpr IsExpr (parse_unary_expression rec n n) _ p
        (Makes-parse_unary_expression n n p)
        (λ l h p1.
          Yields-if IsExpr (is TokenType.power p1.current) _ _ p1
            (λ hit. Yields-then IsExpr advance _ p1 (λ _ p2.
              Yields-bind IsExpr IsExpr (parse_power_expression rec n f) _ p2
                (Makes-parse_power_expression n f p2)
                (λ r g _. binary (is_binary_op-is_single_op _ (ground arith)) h g)))
            (λ _. h))

  Makes-parse_additive_expression : (n : ℕ) → Makes IsExpr (parse_additive_expression rec n)
  unfolding parse_additive_expression parse_multiplicative_expression
  Makes-parse_additive_expression n =
      Makes-left_associative is_additive_op _ n is_binary_op-is_additive_op (
        Makes-left_associative is_multiplicative_op _ n is_binary_op-is_multiplicative_op
          (Makes-parse_power_expression n n))

  Makes-parse_comparison_expression : (n : ℕ) → Makes IsExpr (parse_comparison_expression rec n)
  unfolding parse_comparison_expression
  Makes-parse_comparison_expression n p =
      Yields-bind IsExpr IsExpr (parse_additive_expression rec n) _ p
        (Makes-parse_additive_expression n p)
        (λ l h p1.
          Yields-if IsExpr (is_comparison_op p1.current.type) _ _ p1
            (λ op. Yields-then IsExpr advance _ p1 (λ _ p2.
              Yields-bind IsExpr IsExpr (parse_additive_expression rec n) _ p2
                (Makes-parse_additive_expression n p2)
                (λ r g _. binary (is_binary_op-is_comparison_op _ op) h g)))
            (λ _. h))

  Makes-parse_or_expression : (n : ℕ) → Makes IsExpr (parse_or_expression rec n)
  unfolding parse_or_expression parse_and_expression parse_unless_expression
  Makes-parse_or_expression n =
      Makes-left_associative _ _ n (λ t h. is_binary_op-is_single_op t (ground arith))
        (Makes-left_associative _ _ n (λ t h. is_binary_op-is_single_op t (ground arith))
          (Makes-left_associative _ _ n (λ t h. is_binary_op-is_single_op t (ground arith))
            (Makes-parse_comparison_expression n)))

module _ (V : Type 0) ⦃F : FloatOps V⦄ where
  Makes-parse_expression : (n : ℕ) → Makes IsExpr (parse_expression {V = V} n)
  unfolding parse_expression
  Makes-parse_expression zero p = tt
  Makes-parse_expression (suc n) p =
      Makes-parse_or_expression (parse_expression n) (Makes-parse_expression n) (suc n) p

  -- What `Parse` returns is an expression of the language, or else an error that is not about it.
  abbrev IsWellParsed : Outcome (ParseResult V) → Type 0
  IsWellParsed (ok (parsed e)) = IsExpr e
  IsWellParsed _ = Unit

  IsWellParsed-if :
      (test : Bool) (e : Expr V) (t : Bytes)
      → IsExpr e
      → IsWellParsed (ok (if test then parsed e else unexpected_token t))
  IsWellParsed-if true e t h = h
  IsWellParsed-if false e t h = tt

  IsWellParsed-finish :
      (r : Outcome (Expr V × Parser))
      → Yields IsExpr r
      → IsWellParsed (elim r [
        | ok (e, p') ↦
            ok (
              if is TokenType.eof p'.current then parsed e else unexpected_token p'.current.literal)
        | panic ↦ panic
        | out_of_fuel ↦ out_of_fuel
      ])
  IsWellParsed-finish (ok (e, p)) h =
      IsWellParsed-if (is TokenType.eof p.current) e p.current.literal h
  IsWellParsed-finish panic h = tt
  IsWellParsed-finish out_of_fuel h = tt

  IsWellParsed-start :
      (s : Bytes) (r : Outcome (Unit {0} × Parser))
      → IsWellParsed (elim r [
        | ok (_, p) ↦ elim (parse_expression {V = V} (parse_fuel s) p) [
          | ok (e, p') ↦ ok (
              if is TokenType.eof p'.current then parsed e else unexpected_token p'.current.literal)
          | panic ↦ panic
          | out_of_fuel ↦ out_of_fuel
        ]
        | panic ↦ panic
        | out_of_fuel ↦ out_of_fuel
      ])
  IsWellParsed-start s (ok (_, p)) =
      IsWellParsed-finish (parse_expression {V = V} (parse_fuel s) p)
        (Makes-parse_expression (parse_fuel s) p)
  IsWellParsed-start s panic = tt
  IsWellParsed-start s out_of_fuel = tt

  parse-IsWellParsed : (s : Bytes) → IsWellParsed (parse {V = V} s)
  unfolding parse
  parse-IsWellParsed s = IsWellParsed-start s (new_parser s)

  -- Every expression that `Parse` returns is one of the language: a sign is `+` or `-`, the operator
  -- of two operands is one of the fifteen, every matcher has one of the four matching operators,
  -- no part is missing but the argument of an aggregation, and there is no subquery.
  pub parse-IsExpr : (s : Bytes) (e : Expr V) → parse {V = V} s ≡ ok (parsed e) → IsExpr e
  parse-IsExpr s e h = subst IsWellParsed h (parse-IsWellParsed s)
