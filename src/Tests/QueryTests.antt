-- ===== src/Tests/QueryTests.antt =====
-- Queries read and parsed.
use tinyobs.Query.Parser.{
  is_comparison_op, is_multiplicative_op, is_additive_op, binary_loop, left_associative,
  parse_unary_expression, parse_power_expression, parse_multiplicative_expression,
  parse_additive_expression, parse_comparison_expression, parse_unless_expression,
  parse_and_expression, parse_or_expression, parse_expression, ParseResult, parse,
}
use tinyobs.Query.Parser.State.{advance, new_parser}
use tinyobs.Query.Parser.Selectors.{parse_vector_selector}
use tinyobs.Query.Parser.Operands.{
  is_aggregation, parse_vector_or_function, parse_number, parse_primary_expression,
}
use tinyobs.Query.Lexer.{
  punctuation, one, two, operator, string_token, word_token, number_token, other_token, dispatch,
  next_token,
}
use tinyobs.Query.Reader.{
  read_char, peek_char, is_letter, is_digit, string_of_byte, slice, skip_while, skip_whitespace,
  read_identifier, read_number, read_duration_unit, Lexer, new_lexer,
}
use tinyobs.Query.Keywords.{lookup_keyword}
use tinyobs.Base.{str_eq, none, ℕ, Bytes, codes, ◌≡◌, ◌≢◌, refl, [], ◌∷◌, inl}
use tinyobs.Query.Tokens.{TokenType, Expr, number_literal, vector_selector, binary_expr, unary_expr}
use tinyobs.Query.WellFormed.Levels.{parse-IsExpr}
use tinyobs.Query.WellFormed.{IsExpr}
use tinyobs.Query.Escapes.{parse_trailing_backslash}
use tinyobs.Query.Outcome.{ok, panic, out_of_fuel}
use tinyobs.Query.Reader.Strings.{IsPlain}
use tinyobs.Query.Termination.Levels.{parse_ends}
use tinyobs.Tests.Data.{ℕ_ops}

abbrev text : Bytes
text = codes "sum by (host) (rate(hits{code=\"200\"}[5m])) + 2"

parse_ends_example :
    (parse {V = ℕ} text ≢ out_of_fuel)
    × (IsPlain text → (r : ParseResult ℕ) × (parse {V = ℕ} text ≡ ok r))
parse_ends_example = parse_ends ℕ text

abbrev lexer : Lexer
lexer = new_lexer (codes " >= 5m ")

parse_trailing_backslash_example : parse {V = ℕ} (b'"' ∷ b'a' ∷ b'\\' ∷ []) ≡ panic
parse_trailing_backslash_example =
    parse_trailing_backslash ℕ b'"' (b'a' ∷ []) (inl refl) ((refl, refl), tt)

abbrev sum_text : Bytes
sum_text = codes "-hits+2"

abbrev sum_expr : Expr ℕ
sum_expr =
    binary_expr
      (unary_expr TokenType.minus (vector_selector (record { name = codes "hits"; matchers = [] })))
      TokenType.plus (number_literal 2) none

parse-IsExpr_example : IsExpr sum_expr
unfolding parse is_comparison_op is_multiplicative_op is_additive_op binary_loop left_associative
    parse_unary_expression parse_power_expression parse_multiplicative_expression
    parse_additive_expression parse_comparison_expression parse_unless_expression
    parse_and_expression parse_or_expression parse_expression advance new_parser
    parse_vector_selector is_aggregation parse_vector_or_function parse_number
    parse_primary_expression punctuation one two operator string_token word_token number_token
    other_token dispatch next_token read_char new_lexer peek_char is_letter is_digit string_of_byte
    slice skip_while skip_whitespace read_identifier read_number read_duration_unit lookup_keyword
    str_eq
parse-IsExpr_example = parse-IsExpr ℕ sum_text sum_expr refl
