-- ===== src/Query/Parser/Selectors.antt =====
-- pkg/query/parser.go: label matchers, grouping labels, vector and range selectors.
use tinyobs.Base.{ℕ, zero, suc, ◌||◌, Bool, List, [], ◌∷◌, ◌++◌, Bytes, if◌then◌else◌}
use tinyobs.Query.Duration.{parse_duration}
use tinyobs.Query.Parser.State.{M, ◌>>=◌, ◌>>◌, pure, fault, current, advance, when, is}
use tinyobs.Query.Tokens.{
  TokenType, Token, type_eq, LabelMatcher, VectorSelector, Expr, vector_selector, range_selector,
}

unfoldable pub is_label_match_op : TokenType → Bool
is_label_match_op t =
    type_eq t TokenType.equal
    || type_eq t TokenType.not_equal
    || type_eq t TokenType.match
    || type_eq t TokenType.not_match

-- The loop of `parseLabelMatchers`; each `break` returns what is read so far.
unfoldable pub matchers_loop : ℕ → List LabelMatcher → M (List LabelMatcher)
matchers_loop zero ms = fault
matchers_loop (suc f) ms = do
  t ← current
  let value = λ (op : Token). do
    v ← current
    let keep = do
      advance
      c ← current
      when (is TokenType.comma c) advance
      matchers_loop f (ms ++ record { name = t.literal; op = op.type; value = v.literal } ∷ [])
    if is TokenType.string v then keep else pure ms
  let operator = do
    advance
    op ← current
    if is_label_match_op op.type then advance >> value op else pure ms
  if is TokenType.right_brace t || is TokenType.eof t
      then pure ms
      else if is TokenType.identifier t
      then operator
      else pure ms

-- Consume the token of type `t`, if it is at hand.
unfoldable pub skip : TokenType → M (Unit {0})
skip t = do c ← current; when (is t c) advance

unfoldable pub parse_label_matchers : ℕ → M (List LabelMatcher)
parse_label_matchers fuel = do
  advance
  ms ← matchers_loop fuel []
  skip TokenType.right_brace
  pure ms

-- The loop of `parseGroupingLabels`.
unfoldable pub labels_loop : ℕ → List Bytes → M (List Bytes)
labels_loop zero labels = fault
labels_loop (suc f) labels = do
  t ← current
  let keep = do
    advance
    c ← current
    let ls = labels ++ t.literal ∷ []
    if is TokenType.comma c then advance >> labels_loop f ls else pure ls
  if is TokenType.identifier t then keep else pure labels

unfoldable pub parse_grouping_labels : ℕ → M (List Bytes)
parse_grouping_labels fuel = do
  advance
  ls ← labels_loop fuel []
  skip TokenType.right_paren
  pure ls

module _ {V : Type 0} where
  unfoldable pub parse_range_selector : VectorSelector → M (Expr V)
  parse_range_selector v = do
    advance
    t ← current
    let range = do
      advance
      skip TokenType.right_bracket
      pure (range_selector v (parse_duration t.literal))
    if is TokenType.duration t then range else pure (vector_selector v)

  unfoldable pub parse_vector_selector : ℕ → Bytes → M (Expr V)
  parse_vector_selector fuel name = do
    t ← current
    ms ← if is TokenType.left_brace t then parse_label_matchers fuel else pure []
    let v : VectorSelector = record { name = name; matchers = ms }
    c ← current
    if is TokenType.left_bracket c then parse_range_selector v else pure (vector_selector v)
