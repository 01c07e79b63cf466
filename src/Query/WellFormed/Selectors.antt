-- ===== src/Query/WellFormed/Selectors.antt =====
-- pkg/query/parser.go: every matcher of a selector has one of the four matching operators.
use tinyobs.Base.{ℕ, zero, suc, ◌||◌, List, [], Bytes, All, All-append, if◌then◌else◌}
use tinyobs.Query.Parser.Selectors.{
  is_label_match_op, matchers_loop, skip, parse_label_matchers, parse_range_selector,
  parse_vector_selector,
}
use tinyobs.Query.Parser.State.{pure, advance, when, is}
use tinyobs.Query.Tokens.{TokenType, LabelMatcher, VectorSelector}
use tinyobs.Query.WellFormed.{
  IsMatcher, is_matching-is_label_match_op, IsExpr, selector, range, Makes, Yields-bind, Yields-if,
  Yields-then,
}

Makes-matchers_loop :
    (f : ℕ) (ms : List LabelMatcher) → All IsMatcher ms → Makes (All IsMatcher) (matchers_loop f ms)
unfolding matchers_loop
Makes-matchers_loop zero ms h p = tt
Makes-matchers_loop (suc f) ms h p =
    Yields-if (All IsMatcher) (is TokenType.right_brace p.current || is TokenType.eof p.current)
      (pure ms) _ p (λ _. h)
      (λ _.
        Yields-if (All IsMatcher) (is TokenType.identifier p.current) _ (pure ms) p
          (λ _. Yields-then (All IsMatcher) advance _ p (λ _ p1.
            Yields-if (All IsMatcher) (is_label_match_op p1.current.type) _ (pure ms) p1
              (λ op. Yields-then (All IsMatcher) advance _ p1 (λ _ p2.
                Yields-if (All IsMatcher) (is TokenType.string p2.current) _ (pure ms) p2
                  (λ _. Yields-then (All IsMatcher) advance _ p2 (λ _ p3.
                    Yields-then (All IsMatcher) (when (is TokenType.comma p3.current) advance) _ p3
                      (λ _.
                        Makes-matchers_loop f _
                          (All-append IsMatcher ms _ h (is_matching-is_label_match_op _ op, tt)))))
                  (λ _. h)))
              (λ _. h)))
          (λ _. h))

Makes-parse_label_matchers : (f : ℕ) → Makes (All IsMatcher) (parse_label_matchers f)
unfolding parse_label_matchers
Makes-parse_label_matchers f p = Yields-then (All IsMatcher) advance _ p (λ _ p1.
    Yields-bind (All IsMatcher) (All IsMatcher) (matchers_loop f []) _ p1
      (Makes-matchers_loop f [] tt p1)
      (λ ms h p2. Yields-then (All IsMatcher) (skip TokenType.right_brace) _ p2 (λ _ _. h)))

module _ (V : Type 0) where
  Makes-parse_range_selector :
      (v : VectorSelector)
      → All IsMatcher v.matchers
      → Makes IsExpr (parse_range_selector {V = V} v)
  unfolding parse_range_selector
  Makes-parse_range_selector v h p = Yields-then IsExpr advance _ p (λ _ p1.
      Yields-if IsExpr (is TokenType.duration p1.current) _ _ p1
        (λ _.
          Yields-then IsExpr advance _ p1
            (λ _ p2. Yields-then IsExpr (skip TokenType.right_bracket) _ p2 (λ _ _. range v _ h)))
        (λ _. selector v h))

  pub Makes-parse_vector_selector :
      (f : ℕ) (name : Bytes) → Makes IsExpr (parse_vector_selector {V = V} f name)
  unfolding parse_vector_selector
  Makes-parse_vector_selector f name p =
      Yields-bind (All IsMatcher) IsExpr
        (if is TokenType.left_brace p.current then parse_label_matchers f else pure []) _ p
        (Yields-if (All IsMatcher) (is TokenType.left_brace p.current) (parse_label_matchers f)
          (pure []) p (λ _. Makes-parse_label_matchers f p) (λ _. tt))
        (λ ms h p1.
          Yields-if IsExpr (is TokenType.left_bracket p1.current) _ _ p1
            (λ _. Makes-parse_range_selector _ h p1) (λ _. selector _ h))
