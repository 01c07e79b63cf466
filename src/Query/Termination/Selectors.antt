-- ===== src/Query/Termination/Selectors.antt =====
-- The loops of selectors and label lists take each token once.
use tinyobs.Base.{ℕ, zero, suc, ◌<◌, ◌||◌, List, [], ◌∷◌, ◌++◌, Bytes, if◌then◌else◌, arith}
use tinyobs.Query.Parser.Selectors.{
  is_label_match_op, matchers_loop, skip, parse_label_matchers, labels_loop, parse_grouping_labels,
  parse_range_selector, parse_vector_selector,
}
use tinyobs.Query.Parser.State.{Parser, pure, advance, when, is}
use tinyobs.Query.Termination.Rules.{
  Ready, Good, Ready-mono, Good-advance, Good-bind, Good-step, Good-if, Good-mono,
}
use tinyobs.Query.Tokens.{TokenType, LabelMatcher, VectorSelector}

pub Good-skip : (s : Bytes) (b : ℕ) (t : TokenType) (p : Parser) → Ready s b p → Good s b (skip t p)
unfolding skip
Good-skip s b t p r =
    Good-if s b (is t p.current) advance (pure tt) p (λ _. Good-advance s b b p r (omega arith))
      (λ _. r)

-- A `break` of a loop, or what follows a token that is passed.
Good-matchers_loop :
    (s : Bytes) (f b : ℕ) (ms : List LabelMatcher) (p : Parser)
    → b < f
    → Ready s b p
    → Good s b (matchers_loop f ms p)
unfolding matchers_loop
Good-matchers_loop s zero b ms p h r = absurd (omega arith)
Good-matchers_loop s (suc f) b ms p h r =
    Good-if s b (is TokenType.right_brace p.current || is TokenType.eof p.current) (pure ms) _ p
      (λ _. r)
      (λ _.
        Good-if s b (is TokenType.identifier p.current) _ (pure ms) p
          (λ name. Good-step s f b _ p r (ground arith) h (λ c1 p1 h1 k1 r1.
            Good-if s b (is_label_match_op p1.current.type) _ (pure ms) p1
              (λ _.
                Good-bind s c1 b advance _ p1 (Good-advance s c1 c1 p1 r1 (omega arith)) (λ _ p2 r2.
                  Good-if s b (is TokenType.string p2.current) _ (pure ms) p2
                    (λ _.
                      Good-bind s c1 b advance _ p2 (Good-advance s c1 c1 p2 r2 (omega arith))
                        (λ _ p3 r3.
                          Good-bind s c1 b (when (is TokenType.comma p3.current) advance) _ p3
                            (Good-if s c1 (is TokenType.comma p3.current) advance (pure tt) p3
                              (λ _. Good-advance s c1 c1 p3 r3 (omega arith)) (λ _. r3))
                            (λ _ p4 r4.
                              Good-mono s c1 b _ k1 (Good-matchers_loop s f c1 _ p4 h1 r4))))
                    (λ _. Ready-mono r2 k1)))
              (λ _. Ready-mono r1 k1)))
          (λ _. r))

pub Good-parse_label_matchers :
    (s : Bytes) (f b : ℕ) (p : Parser) → b < f → Ready s b p → Good s b (parse_label_matchers f p)
unfolding parse_label_matchers
Good-parse_label_matchers s f b p h r =
    Good-bind s b b advance _ p (Good-advance s b b p r (omega arith)) (λ _ p1 r1.
      Good-bind s b b (matchers_loop f []) _ p1 (Good-matchers_loop s f b [] p1 h r1) (λ ms p2 r2.
        Good-bind s b b (skip TokenType.right_brace) _ p2 (Good-skip s b _ p2 r2) (λ _ _ r3. r3)))

Good-labels_loop :
    (s : Bytes) (f b : ℕ) (ls : List Bytes) (p : Parser)
    → b < f
    → Ready s b p
    → Good s b (labels_loop f ls p)
unfolding labels_loop
Good-labels_loop s zero b ls p h r = absurd (omega arith)
Good-labels_loop s (suc f) b ls p h r =
    Good-if s b (is TokenType.identifier p.current) _ (pure ls) p
      (λ name. Good-step s f b _ p r (ground arith) h (λ c1 p1 h1 k1 r1.
        Good-if s b (is TokenType.comma p1.current) _ (pure (ls ++ p.current.literal ∷ [])) p1
          (λ _.
            Good-bind s c1 b advance _ p1 (Good-advance s c1 c1 p1 r1 (omega arith))
              (λ _ p2 r2. Good-mono s c1 b _ k1 (Good-labels_loop s f c1 _ p2 h1 r2)))
          (λ _. Ready-mono r1 k1)))
      (λ _. r)

pub Good-parse_grouping_labels :
    (s : Bytes) (f b : ℕ) (p : Parser) → b < f → Ready s b p → Good s b (parse_grouping_labels f p)
unfolding parse_grouping_labels
Good-parse_grouping_labels s f b p h r =
    Good-bind s b b advance _ p (Good-advance s b b p r (omega arith)) (λ _ p1 r1.
      Good-bind s b b (labels_loop f []) _ p1 (Good-labels_loop s f b [] p1 h r1) (λ ls p2 r2.
        Good-bind s b b (skip TokenType.right_paren) _ p2 (Good-skip s b _ p2 r2) (λ _ _ r3. r3)))

module _ (V : Type 0) where
  Good-parse_range_selector :
      (s : Bytes) (b : ℕ) (v : VectorSelector) (p : Parser)
      → Ready s b p
      → Good s b (parse_range_selector {V = V} v p)
  unfolding parse_range_selector
  Good-parse_range_selector s b v p r =
      Good-bind s b b advance _ p (Good-advance s b b p r (omega arith)) (λ _ p1 r1.
        Good-if s b (is TokenType.duration p1.current) _ _ p1
          (λ _. Good-bind s b b advance _ p1 (Good-advance s b b p1 r1 (omega arith)) (λ _ p2 r2.
            Good-bind s b b (skip TokenType.right_bracket) _ p2 (Good-skip s b _ p2 r2)
              (λ _ _ r3. r3)))
          (λ _. r1))

  pub Good-parse_vector_selector :
      (s : Bytes) (f b : ℕ) (name : Bytes) (p : Parser)
      → b < f
      → Ready s b p
      → Good s b (parse_vector_selector {V = V} f name p)
  unfolding parse_vector_selector
  Good-parse_vector_selector s f b name p h r =
      Good-bind s b b
        (if is TokenType.left_brace p.current then parse_label_matchers f else pure []) _ p
        (Good-if s b (is TokenType.left_brace p.current) (parse_label_matchers f) (pure []) p
          (λ _. Good-parse_label_matchers s f b p h r) (λ _. r))
        (λ ms p1 r1.
          Good-if s b (is TokenType.left_bracket p1.current) _ _ p1
            (λ _. Good-parse_range_selector s b _ p1 r1) (λ _. r1))
