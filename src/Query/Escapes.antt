-- ===== src/Query/Escapes.antt =====
-- pkg/query/lexer.go, `readString`: a backslash at the end of a query.
use native.Mathlib.Numerals.{add-one}
use tinyobs.Base.{
  ℕ, zero, suc, ◌+◌, ◌≤◌, ◌<◌, ◌≡◌, refl, ◌∙◌, ap, ◌⊎◌, inl, inr, false, ◌||◌, [], ◌∷◌, ◌++◌, Bytes,
  All, length, length-append, get_or, drop, ◌==◌, arith,
}
use tinyobs.Float.{FloatOps}
use tinyobs.Query.Lexer.{next_token, dispatch, punctuation, operator, other_token, string_token}
use tinyobs.Query.Outcome.{ok, panic}
use tinyobs.Query.Parser.State.{Parser, new_parser, advance, zero_token}
use tinyobs.Query.Parser.{parse}
use tinyobs.Query.Reader.{
  Lexer, new_lexer, read_char, skip_while, skip_whitespace, loop_fuel, slice, after_escape,
  string_loop, read_string,
}

drop_cons :
    (n : ℕ) (s : Bytes) (c : ℕ) (r : Bytes)
    → drop n s ≡ c ∷ r
    → (get_or s n 0 ≡ c) × (n < length s) × (drop (suc n) s ≡ r)
drop_cons zero [] c r h = cc
drop_cons zero (x ∷ s) c r h = ground arith
drop_cons (suc n) [] c r h = cc
drop_cons (suc n) (x ∷ s) c r h = let (a, b, d) = drop_cons n s c r h in (a, omega (arith, b), d)

drop_nil : (n : ℕ) (s : Bytes) → drop n s ≡ [] → length s ≤ n
drop_nil zero [] h = omega arith
drop_nil zero (x ∷ s) h = cc
drop_nil (suc n) [] h = omega arith
drop_nil (suc n) (x ∷ s) h = omega (arith, drop_nil n s h)

-- What `readChar` does where `c ∷ r` is still to be read, and at the end.
read_char_cons :
    (l : Lexer) (c : ℕ) (r : Bytes)
    → drop l.read_pos l.input ≡ c ∷ r
    → ((read_char l).ch ≡ c) × (drop (read_char l).read_pos (read_char l).input ≡ r)
unfolding read_char
read_char_cons l c r h =
    let (a, b, d) = drop_cons l.read_pos l.input c r h in (ground (arith, a, b), rw add-one d)

read_char_end :
    (l : Lexer)
    → length l.input ≤ l.read_pos
    → ((read_char l).ch ≡ 0) × (length (read_char l).input < (read_char l).read_pos)
unfolding read_char
read_char_end l h = (ground arith, omega arith)

read_char_past :
    (l : Lexer)
    → length l.input < l.read_pos
    → ((read_char l).ch ≡ 0) × (length (read_char l).input < (read_char l).pos)
unfolding read_char
read_char_past l h = (ground arith, h)

-- A byte that neither ends a string nor escapes.
abbrev pub IsPlainByte : ℕ → ℕ → Type 0
IsPlainByte quote c = ((c == quote || c == 0) ≡ false) × ((c == b'\\') ≡ false)

-- A plain byte is passed.
string_loop_pass :
    (f quote c : ℕ) (l : Lexer)
    → (read_char l).ch ≡ c
    → IsPlainByte quote c
    → string_loop (suc f) quote l ≡ string_loop f quote (read_char l)
unfolding string_loop after_escape
string_loop_pass f quote c l e plain = ground arith

-- The loop ends one place behind the end of the input.
string_loop_overrun :
    (f quote : ℕ) (body : Bytes) (l : Lexer)
    → quote == b'\\' ≡ false
    → drop l.read_pos l.input ≡ body ++ b'\\' ∷ []
    → All (IsPlainByte quote) body
    → suc (length body) < f
    → (l' : Lexer) × (string_loop f quote l ≡ ok l') × (length l'.input < l'.pos)
unfolding string_loop after_escape
string_loop_overrun zero quote body l q h plain enough = absurd (omega arith)
string_loop_overrun (suc zero) quote body l q h plain enough = absurd (omega arith)
string_loop_overrun (suc (suc f)) quote [] l q h plain enough =
    let (c1, d1) = read_char_cons l b'\\' [] h in
    let (c2, far) = read_char_end (read_char l) (drop_nil _ _ d1) in
    let (c3, past) = read_char_past (read_char (read_char l)) far in
    (read_char (read_char (read_char l)), ground (arith, c1, c3, q), past)
string_loop_overrun (suc (suc f)) quote (c ∷ body) l q h plain enough =
    let (c1, d1) = read_char_cons l c (body ++ b'\\' ∷ []) h in
    rw (string_loop_pass (suc f) quote c l c1 plain.0)
      (string_loop_overrun (suc f) quote body (read_char l) q d1 plain.1 (omega arith))

slice_overrun : (s : Bytes) (lo hi : ℕ) → length s < hi → slice s lo hi ≡ panic
unfolding slice
slice_overrun s lo hi h = ground arith

read_string_overrun :
    (quote : ℕ) (body : Bytes) (l : Lexer)
    → quote == b'\\' ≡ false
    → drop l.read_pos l.input ≡ body ++ b'\\' ∷ []
    → All (IsPlainByte quote) body
    → suc (length body) < loop_fuel l
    → read_string quote l ≡ panic
unfolding read_string
read_string_overrun quote body l q h plain enough =
    let (l', e, past) = string_loop_overrun (loop_fuel l) quote body l q h plain enough in
    rw (e, slice_overrun l'.input (l.pos + 1) l'.pos past)

abbrev IsQuote : ℕ → Type 0
IsQuote c = (c ≡ b'"') ⊎ (c ≡ b'\'')

-- At a quote nothing is skipped, and a string is read.
skip_whitespace-quote : (l : Lexer) → IsQuote l.ch → skip_whitespace (loop_fuel l) l ≡ ok l
unfolding skip_whitespace skip_while
skip_whitespace-quote l (inl e) = ground arith
skip_whitespace-quote l (inr e) = ground arith

dispatch-quote : (l : Lexer) → IsQuote l.ch → dispatch l ≡ string_token l
unfolding dispatch punctuation operator other_token
dispatch-quote l (inl e) = ground arith
dispatch-quote l (inr e) = ground arith

string_token-panic : (l : Lexer) → read_string l.ch l ≡ panic → string_token l ≡ panic
unfolding string_token
string_token-panic l e = ground (arith, e)

next_token-panic : (l : Lexer) → IsQuote l.ch → read_string l.ch l ≡ panic → next_token l ≡ panic
unfolding next_token
next_token-panic l q e =
    rw (skip_whitespace-quote l q) (dispatch-quote l q ∙ string_token-panic l e)

module _ (quote : ℕ) (body : Bytes) (q : IsQuote quote) where
  abbrev text : Bytes
  text = quote ∷ (body ++ b'\\' ∷ [])

  start : (new_lexer text).ch ≡ quote
  unfolding new_lexer read_char
  start = ground arith

  next : drop (new_lexer text).read_pos (new_lexer text).input ≡ body ++ b'\\' ∷ []
  unfolding new_lexer read_char
  next = refl

  enough : suc (length body) < loop_fuel (new_lexer text)
  unfolding new_lexer read_char
  enough = omega (arith, length-append body (b'\\' ∷ []))

  read_string-panic :
      All (IsPlainByte quote) body → read_string (new_lexer text).ch (new_lexer text) ≡ panic
  read_string-panic plain =
      ap (λ c. read_string c (new_lexer text)) start
      ∙ read_string_overrun quote body (new_lexer text) (ground arith) next plain enough

  first_token-panic : All (IsPlainByte quote) body → next_token (new_lexer text) ≡ panic
  first_token-panic plain = next_token-panic (new_lexer text) (rw start q) (read_string-panic plain)

advance-panic : (p : Parser) → next_token p.lexer ≡ panic → advance p ≡ panic
unfolding advance
advance-panic p e = ground (arith, e)

new_parser-panic : (s : Bytes) → next_token (new_lexer s) ≡ panic → new_parser s ≡ panic
unfolding new_parser
new_parser-panic s e = ground (
  arith,
  advance-panic (record { lexer = new_lexer s; current = zero_token; peek = zero_token }) e,
)

-- A query that is one string, whose last byte is a backslash, makes the lexer slice behind the end
-- of the input, and `NewParser` panics: the query is a quote, bytes that are no such quote, NUL or
-- backslash, and a backslash.
pub parse_trailing_backslash :
    (V : Type 0) ⦃F : FloatOps V⦄ (quote : ℕ) (body : Bytes)
    → IsQuote quote
    → All (IsPlainByte quote) body
    → parse {V = V} (quote ∷ (body ++ b'\\' ∷ [])) ≡ panic
unfolding parse
parse_trailing_backslash V quote body q plain =
    ground (
      arith,
      new_parser-panic (quote ∷ (body ++ b'\\' ∷ [])) (first_token-panic quote body q plain),
    )
