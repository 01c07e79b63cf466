-- ===== src/Query/Lexer.antt =====
-- pkg/query/lexer.go, `NextToken`.
pub mod Progress
pub mod Spans
use tinyobs.Base.{ℕ, ◌||◌, Option, none, some, [], ◌++◌, ◌==◌, if◌then◌else◌}
use tinyobs.Query.Keywords.{lookup_keyword}
use tinyobs.Query.Outcome.{Outcome, ok, ◌>>=◌}
use tinyobs.Query.Reader.{
  Lexer, read_char, peek_char, is_letter, is_digit, string_of_byte, loop_fuel, skip_whitespace,
  read_identifier, read_number, read_duration_unit, read_string,
}
use tinyobs.Query.Tokens.{TokenType, Token}

-- The cases of `NextToken` that look at one character.
unfoldable pub punctuation : ℕ → Option TokenType
punctuation c =
    if c == b'('
    then some TokenType.left_paren
    else if c == b')'
    then some TokenType.right_paren
    else if c == b'{'
    then some TokenType.left_brace
    else if c == b'}'
    then some TokenType.right_brace
    else if c == b'['
    then some TokenType.left_bracket
    else if c == b']'
    then some TokenType.right_bracket
    else if c == b','
    then some TokenType.comma
    else if c == b':'
    then some TokenType.colon
    else if c == b'+'
    then some TokenType.plus
    else if c == b'-'
    then some TokenType.minus
    else if c == b'*'
    then some TokenType.multiply
    else if c == b'/'
    then some TokenType.divide
    else if c == b'^'
    then some TokenType.power
    else if c == b'%'
    then some TokenType.modulo
    else none

-- A token of the one character at hand; `Token{Type, Literal}` leaves `Pos` at 0.
unfoldable pub one : TokenType → Lexer → Outcome (Token × Lexer)
one t l = ok (record { type = t; literal = string_of_byte l.ch; pos = 0 }, read_char l)

-- A token of this character and the next one.
unfoldable pub two : TokenType → Lexer → Outcome (Token × Lexer)
two t l =
    let l1 = read_char l in
    ok (
      record { type = t; literal = string_of_byte l.ch ++ string_of_byte l1.ch; pos = 0 },
      read_char l1,
    )

-- The cases `=`, `!`, `<` and `>`, which look one character ahead.
unfoldable pub operator : Lexer → Option (Outcome (Token × Lexer))
unfolding one two peek_char
operator l =
    if l.ch == b'='
    then (if peek_char l == b'~'
        then some (two TokenType.match l)
        else if peek_char l == b'='
        then some (two TokenType.equal_equal l)
        else some (one TokenType.equal l))
    else if l.ch == b'!'
    then (if peek_char l == b'='
        then some (two TokenType.not_equal l)
        else if peek_char l == b'~'
        then some (two TokenType.not_match l)
        else some (one TokenType.illegal l))
    else if l.ch == b'<'
    then (if peek_char l == b'='
        then some (two TokenType.less_equal l)
        else some (one TokenType.less l))
    else if l.ch == b'>'
    then (if peek_char l == b'='
        then some (two TokenType.greater_equal l)
        else some (one TokenType.greater l))
    else none

unfoldable pub string_token : Lexer → Outcome (Token × Lexer)
string_token l = do
  (s, l1) ← read_string l.ch l
  ok (record { type = TokenType.string; literal = s; pos = l.pos }, read_char l1)

unfoldable pub word_token : Lexer → Outcome (Token × Lexer)
word_token l = do
  (s, l1) ← read_identifier l
  ok (record { type = lookup_keyword s; literal = s; pos = l.pos }, l1)

-- A number, or a duration if a letter follows.
unfoldable pub number_token : Lexer → Outcome (Token × Lexer)
number_token l = do
  (s, l1) ← read_number l
  let duration = do
    (u, l2) ← read_duration_unit l1
    ok (record { type = TokenType.duration; literal = s ++ u; pos = l.pos }, l2)
  if is_letter l1.ch
      then duration
      else ok (record { type = TokenType.number; literal = s; pos = l.pos }, l1)

-- The cases that are left: quotes, the end of the input, words, numbers, and the rest.
unfoldable pub other_token : Lexer → Outcome (Token × Lexer)
unfolding one
other_token l =
    if l.ch == b'"' || l.ch == b'\''
    then string_token l
    else if l.ch == 0
    then ok (record { type = TokenType.eof; literal = []; pos = 0 }, read_char l)
    else if is_letter l.ch
    then word_token l
    else if is_digit l.ch
    then number_token l
    else one TokenType.illegal l

-- The `switch` of `NextToken`.
unfoldable pub dispatch : Lexer → Outcome (Token × Lexer)
dispatch l = elim (punctuation l.ch) [
  | some t ↦ one t l
  | none ↦ elim (operator l) [ some r ↦ r | none ↦ other_token l ]
]

unfoldable pub next_token : Lexer → Outcome (Token × Lexer)
next_token l = skip_whitespace (loop_fuel l) l >>= dispatch
