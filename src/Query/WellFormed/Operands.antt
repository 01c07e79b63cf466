-- ===== src/Query/WellFormed/Operands.antt =====
-- pkg/query/parser.go: the operands are expressions of the language if the inner ones are.
use tinyobs.Base.{ℕ, zero, suc, ◌||◌, Bytes}
use tinyobs.Float.{FloatOps}
use tinyobs.Query.Parser.Operands.{
  append_arg, is_aggregation, parse_paren_expression, args_loop, parse_function_call,
  parse_vector_or_function, parse_grouping, parse_aggregation, parse_number,
  parse_primary_expression,
}
use tinyobs.Query.Parser.Selectors.{skip}
use tinyobs.Query.Parser.State.{M, pure, advance, is}
use tinyobs.Query.Tokens.{TokenType, Expr, Args}
use tinyobs.Query.WellFormed.Selectors.{Makes-parse_vector_selector}
use tinyobs.Query.WellFormed.{
  IsExpr, AreExprs, no_argument, argument, call, aggregate, aggregate_nothing, literal, paren,
  Makes, Yields-bind, Yields-if, Yields-then,
}

AreExprs-append_arg :
    {V : Type 0} {args : Args V} {e : Expr V}
    → AreExprs args
    → IsExpr e
    → AreExprs (append_arg args e)
unfolding append_arg
AreExprs-append_arg no_argument h = argument h no_argument
AreExprs-append_arg (argument g gs) h = argument g (AreExprs-append_arg gs h)

module _ {V : Type 0} (rec : M (Expr V)) (ih : Makes IsExpr rec) where
  Makes-parse_paren_expression : Makes IsExpr (parse_paren_expression rec)
  unfolding parse_paren_expression
  Makes-parse_paren_expression p = Yields-then IsExpr advance _ p (λ _ p1.
      Yields-bind IsExpr IsExpr rec _ p1 (ih p1) (λ e h p2.
        Yields-if IsExpr (is TokenType.right_paren p2.current) _ _ p2
          (λ _. Yields-then IsExpr advance _ p2 (λ _ _. paren h)) (λ _. h)))

  Makes-args_loop : (f : ℕ) (args : Args V) → AreExprs args → Makes AreExprs (args_loop rec f args)
  unfolding args_loop
  Makes-args_loop zero args h p = tt
  Makes-args_loop (suc f) args h p =
      Yields-if AreExprs (is TokenType.right_paren p.current || is TokenType.eof p.current)
        (pure args) _ p (λ _. h)
        (λ _. Yields-bind IsExpr AreExprs rec _ p (ih p) (λ a g p1.
          Yields-if AreExprs (is TokenType.comma p1.current) _ _ p1
            (λ _.
              Yields-then AreExprs advance _ p1
                (λ _. Makes-args_loop f (append_arg args a) (AreExprs-append_arg h g)))
            (λ _. AreExprs-append_arg h g)))

  Makes-parse_function_call : (f : ℕ) (name : Bytes) → Makes IsExpr (parse_function_call rec f name)
  unfolding parse_function_call
  Makes-parse_function_call f name p = Yields-then IsExpr advance _ p (λ _ p1.
      Yields-bind AreExprs IsExpr (args_loop rec f Args.end) _ p1
        (Makes-args_loop f Args.end no_argument p1)
        (λ args h p2. Yields-then IsExpr (skip TokenType.right_paren) _ p2 (λ _ _. call name h)))

  Makes-parse_vector_or_function : (f : ℕ) → Makes IsExpr (parse_vector_or_function rec f)
  unfolding parse_vector_or_function
  Makes-parse_vector_or_function f p = Yields-then IsExpr advance _ p (λ _ p1.
      Yields-if IsExpr (is TokenType.left_paren p1.current) _ _ p1
        (λ _. Makes-parse_function_call f p.current.literal p1)
        (λ _. Makes-parse_vector_selector V f p.current.literal p1))

  Makes-parse_aggregation : (f : ℕ) → Makes IsExpr (parse_aggregation rec f)
  unfolding parse_aggregation
  Makes-parse_aggregation f p = Yields-then IsExpr advance _ p (λ _ p1.
      Yields-then IsExpr (parse_grouping f) _ p1 (λ g p2.
        Yields-if IsExpr (is TokenType.left_paren p2.current) _ _ p2
          (λ _. Yields-then IsExpr advance _ p2 (λ _ p3.
            Yields-bind IsExpr IsExpr rec _ p3 (ih p3) (λ e h p4.
              Yields-then IsExpr (skip TokenType.right_paren) _ p4 (λ _ _. aggregate _ _ _ h))))
          (λ _. aggregate_nothing _ _ _)))

  module _ ⦃F : FloatOps V⦄ where
    pub Makes-parse_primary_expression : (f : ℕ) → Makes IsExpr (parse_primary_expression rec f)
    unfolding parse_primary_expression parse_number
    Makes-parse_primary_expression f p =
        Yields-if IsExpr (is TokenType.number p.current) _ _ p
          (λ _. Yields-then IsExpr advance _ p (λ _ _. literal _))
          (λ _.
            Yields-if IsExpr (is TokenType.left_paren p.current) _ _ p
              (λ _. Makes-parse_paren_expression p)
              (λ _.
                Yields-if IsExpr (is TokenType.identifier p.current) _ _ p
                  (λ _. Makes-parse_vector_or_function f p)
                  (λ _.
                    Yields-if IsExpr (is_aggregation p.current.type) _ _ p
                      (λ _. Makes-parse_aggregation f p) (λ _. literal _))))
