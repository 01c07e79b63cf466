-- ===== src/Query/Termination/Operands.antt =====
-- Operands: an inner expression is parsed behind a token, with fewer tokens to come.
use tinyobs.Base.{ℕ, zero, suc, ◌<◌, ◌≡◌, ◌||◌, [], Bytes, if◌then◌else◌, arith}
use tinyobs.Float.{FloatOps}
use tinyobs.Query.Lexer.Progress.{weight}
use tinyobs.Query.Parser.Operands.{
  append_arg, is_aggregation, parse_paren_expression, args_loop, parse_function_call,
  parse_vector_or_function, parse_grouping, parse_aggregation, parse_number,
  parse_primary_expression,
}
use tinyobs.Query.Parser.Selectors.{parse_grouping_labels, skip}
use tinyobs.Query.Parser.State.{Parser, M, pure, advance, is}
use tinyobs.Query.Termination.Rules.{
  Ready, Good, Ready-mono, Good-advance, Good-bind, Good-step, Good-if, Good-mono,
}
use tinyobs.Query.Termination.Selectors.{
  Good-skip, Good-parse_grouping_labels, Good-parse_vector_selector,
}
use tinyobs.Query.Tokens.{TokenType, Expr, Args, end}

-- `m` ends with fuel `f` from every state with fewer than `f` tokens to come.
abbrev pub Ends : {A : Type 0} → Bytes → ℕ → M A → Type 0
Ends s f m = (b : ℕ) (p : Parser) → b < f → Ready s b p → Good s b (m p)

Good-parse_grouping :
    (s : Bytes) (f b : ℕ) (p : Parser) → b < f → Ready s b p → Good s b (parse_grouping f p)
unfolding parse_grouping
Good-parse_grouping s f b p h r =
    Good-if s b (is TokenType.by p.current || is TokenType.without p.current) _ _ p
      (λ _. Good-bind s b b advance _ p (Good-advance s b b p r (omega arith)) (λ _ p1 r1.
        Good-bind s b b
          (if is TokenType.left_paren p1.current then parse_grouping_labels f else pure []) _ p1
          (Good-if s b (is TokenType.left_paren p1.current) _ _ p1
            (λ _. Good-parse_grouping_labels s f b p1 h r1) (λ _. r1))
          (λ _ _ r2. r2)))
      (λ _. r)

module _ {V : Type 0} (s : Bytes) (n : ℕ) (rec : M (Expr V)) (ih : Ends s n rec) where
  Good-parse_paren_expression :
      (b : ℕ) (p : Parser)
      → weight p.current.type ≡ 1
      → b < suc n
      → Ready s b p
      → Good s b (parse_paren_expression rec p)
  unfolding parse_paren_expression
  Good-parse_paren_expression b p w h r = Good-step s n b _ p r w h (λ c1 p1 h1 k1 r1.
      Good-bind s c1 b rec _ p1 (ih c1 p1 h1 r1) (λ e p2 r2.
        Good-if s b (is TokenType.right_paren p2.current) _ _ p2
          (λ _.
            Good-bind s c1 b advance _ p2 (Good-advance s c1 c1 p2 r2 (omega arith))
              (λ _ _ r3. Ready-mono r3 k1))
          (λ _. Ready-mono r2 k1)))

  Good-args_loop :
      (f b : ℕ) (args : Args V) (p : Parser)
      → b < f
      → b < n
      → Ready s b p
      → Good s b (args_loop rec f args p)
  unfolding args_loop
  Good-args_loop zero b args p h k r = absurd (omega arith)
  Good-args_loop (suc f) b args p h k r =
      Good-if s b (is TokenType.right_paren p.current || is TokenType.eof p.current) (pure args) _ p
        (λ _. r)
        (λ _. Good-bind s b b rec _ p (ih b p k r) (λ a p1 r1.
          Good-if s b (is TokenType.comma p1.current) _ (pure (append_arg args a)) p1
            (λ comma. Good-step s f b _ p1 r1 (ground arith) h (λ c p2 h2 k2 r2.
              Good-mono s c b _ k2 (Good-args_loop f c (append_arg args a) p2 h2 (omega arith) r2)))
            (λ _. r1)))

  Good-parse_function_call :
      (b : ℕ) (name : Bytes) (p : Parser)
      → weight p.current.type ≡ 1
      → b < suc n
      → Ready s b p
      → Good s b (parse_function_call rec (suc n) name p)
  unfolding parse_function_call
  Good-parse_function_call b name p w h r = Good-step s n b _ p r w h (λ c1 p1 h1 k1 r1.
      Good-bind s c1 b (args_loop rec (suc n) end) _ p1
        (Good-args_loop (suc n) c1 end p1 (omega arith) h1 r1)
        (λ args p2 r2.
          Good-bind s c1 b (skip TokenType.right_paren) _ p2 (Good-skip s c1 _ p2 r2)
            (λ _ _ r3. Ready-mono r3 k1)))

  Good-parse_vector_or_function :
      (b : ℕ) (p : Parser)
      → b < suc n
      → Ready s b p
      → Good s b (parse_vector_or_function rec (suc n) p)
  unfolding parse_vector_or_function
  Good-parse_vector_or_function b p h r =
      Good-bind s b b advance _ p (Good-advance s b b p r (omega arith)) (λ _ p1 r1.
        Good-if s b (is TokenType.left_paren p1.current) _ _ p1
          (λ paren. Good-parse_function_call b p.current.literal p1 (ground arith) h r1)
          (λ _. Good-parse_vector_selector V s (suc n) b p.current.literal p1 h r1))

  Good-parse_aggregation :
      (b : ℕ) (p : Parser) → b < suc n → Ready s b p → Good s b (parse_aggregation rec (suc n) p)
  unfolding parse_aggregation
  Good-parse_aggregation b p h r =
      Good-bind s b b advance _ p (Good-advance s b b p r (omega arith)) (λ _ p1 r1.
        Good-bind s b b (parse_grouping (suc n)) _ p1 (Good-parse_grouping s (suc n) b p1 h r1)
          (λ g p2 r2.
            Good-if s b (is TokenType.left_paren p2.current) _ _ p2
              (λ paren. Good-step s n b _ p2 r2 (ground arith) h (λ c p3 h3 k3 r3.
                Good-bind s c b rec _ p3 (ih c p3 h3 r3) (λ e p4 r4.
                  Good-bind s c b (skip TokenType.right_paren) _ p4 (Good-skip s c _ p4 r4)
                    (λ _ _ r5. Ready-mono r5 k3))))
              (λ _. r2)))

  module _ ⦃F : FloatOps V⦄ where
    pub Ends-parse_primary_expression : Ends s (suc n) (parse_primary_expression rec (suc n))
    unfolding parse_primary_expression parse_number
    Ends-parse_primary_expression b p h r =
        Good-if s b (is TokenType.number p.current) _ _ p
          (λ _. Good-bind s b b advance _ p (Good-advance s b b p r (omega arith)) (λ _ _ r1. r1))
          (λ _.
            Good-if s b (is TokenType.left_paren p.current) _ _ p
              (λ paren. Good-parse_paren_expression b p (ground arith) h r)
              (λ _.
                Good-if s b (is TokenType.identifier p.current) _ _ p
                  (λ _. Good-parse_vector_or_function b p h r)
                  (λ _.
                    Good-if s b (is_aggregation p.current.type) _ _ p
                      (λ _. Good-parse_aggregation b p h r) (λ _. r))))
