-- ===== src/Query/Reader.antt =====
-- pkg/query/lexer.go, the lexer's state and the methods that read on. A method that mutates
-- `*Lexer` returns the new record. Loops take fuel; a slice out of bounds is `panic`.
pub mod Loops
pub mod Words
pub mod Strings
pub mod Slices
use tinyobs.Base.{
  ℕ, zero, suc, ◌+◌, ◌-◌, ◌/◌, ◌%◌, Bool, not, ◌&&◌, ◌||◌, [], ◌∷◌, Bytes, length, get_or, take,
  drop, leb, ltb, ◌==◌, if◌then◌else◌,
}
use tinyobs.Query.Outcome.{Outcome, ok, panic, out_of_fuel, ◌>>=◌}

pub record Lexer : Type 0 where
  pub input : Bytes
  pub pos : ℕ
  pub read_pos : ℕ
  pub ch : ℕ

unfoldable pub read_char : Lexer → Lexer
read_char l = record l {
  ch = if leb (length l.input) l.read_pos then 0 else get_or l.input l.read_pos 0;
  pos = l.read_pos;
  read_pos = l.read_pos + 1;
}

unfoldable pub new_lexer : Bytes → Lexer
new_lexer input = read_char (record { input = input; pos = 0; read_pos = 0; ch = 0 })

unfoldable pub peek_char : Lexer → ℕ
peek_char l = if leb (length l.input) l.read_pos then 0 else get_or l.input l.read_pos 0

abbrev within : ℕ → ℕ → ℕ → Bool
within lo hi c = leb lo c && leb c hi

-- `unicode.IsLetter(rune(ch))`: the letters among the first 256 code points.
unfoldable pub is_letter : ℕ → Bool
is_letter c =
    within b'a' b'z' c
    || within b'A' b'Z' c
    || c == 0xaa
    || c == 0xb5
    || c == 0xba
    || within 0xc0 0xd6 c
    || within 0xd8 0xf6 c
    || within 0xf8 0xff c

unfoldable pub is_digit : ℕ → Bool
is_digit c = leb b'0' c && leb c b'9'

-- `string(ch)` of a byte: the UTF-8 encoding of that code point.
unfoldable pub string_of_byte : ℕ → Bytes
string_of_byte c = if ltb c 128 then c ∷ [] else (192 + c / 64) ∷ (128 + c % 64) ∷ []

-- `input[lo:hi]`
unfoldable pub slice : Bytes → ℕ → ℕ → Outcome Bytes
slice s lo hi = if leb lo hi && leb hi (length s) then ok (take (hi - lo) (drop lo s)) else panic

-- The loop `for test(l.ch) { l.readChar() }`.
unfoldable pub skip_while : ℕ → (ℕ → Bool) → Lexer → Outcome Lexer
skip_while zero test l = out_of_fuel
skip_while (suc f) test l =
    let rest = skip_while f test (read_char l) in if test l.ch then rest else ok l

-- Rounds enough for any loop over the rest of the input.
abbrev pub loop_fuel : Lexer → ℕ
loop_fuel l = suc (suc (length l.input))

abbrev pub is_blank : ℕ → Bool
is_blank c = c == b' ' || c == b'\t' || c == b'\n' || c == b'\r'

abbrev pub in_comment : ℕ → Bool
in_comment c = not (c == b'\n') && not (c == 0)

unfoldable pub skip_whitespace : ℕ → Lexer → Outcome Lexer
skip_whitespace zero l = out_of_fuel
skip_whitespace (suc f) l = do
  l1 ← skip_while (loop_fuel l) is_blank l
  let again = skip_while (loop_fuel l1) in_comment l1 >>= skip_whitespace f
  if l1.ch == b'#' then again else ok l1

abbrev pub in_identifier : ℕ → Bool
in_identifier c = is_letter c || is_digit c || c == b'_' || c == b':'

abbrev pub in_number : ℕ → Bool
in_number c = is_digit c || c == b'_'

unfoldable pub read_identifier : Lexer → Outcome (Bytes × Lexer)
read_identifier l = do
  l1 ← skip_while (loop_fuel l) in_identifier l
  s ← slice l1.input l.pos l1.pos
  ok (s, l1)

read_fraction : Lexer → Outcome Lexer
read_fraction l =
    if l.ch == b'.' && is_digit (peek_char l)
    then skip_while (loop_fuel l) in_number (read_char l)
    else ok l

read_exponent : Lexer → Outcome Lexer
read_exponent l =
    if l.ch == b'e' || l.ch == b'E'
    then (let l1 = read_char l in
        skip_while (loop_fuel l) in_number
          (if l1.ch == b'+' || l1.ch == b'-' then read_char l1 else l1))
    else ok l

unfoldable pub read_number : Lexer → Outcome (Bytes × Lexer)
unfolding read_fraction read_exponent
read_number l = do
  l1 ← skip_while (loop_fuel l) in_number l
  l2 ← read_fraction l1
  l3 ← read_exponent l2
  s ← slice l3.input l.pos l3.pos
  ok (s, l3)

unfoldable pub read_duration_unit : Lexer → Outcome (Bytes × Lexer)
read_duration_unit l = do
  l1 ← skip_while (loop_fuel l) is_letter l
  s ← slice l1.input l.pos l1.pos
  ok (s, l1)

-- A backslash takes one more character with it.
unfoldable pub after_escape : Lexer → Lexer
after_escape l = if l.ch == b'\\' then read_char l else l

unfoldable pub string_loop : ℕ → ℕ → Lexer → Outcome Lexer
string_loop zero quote l = out_of_fuel
string_loop (suc f) quote l =
    let l1 = read_char l in
    let rest = string_loop f quote (after_escape l1) in
    if l1.ch == quote || l1.ch == 0 then ok l1 else rest

unfoldable pub read_string : ℕ → Lexer → Outcome (Bytes × Lexer)
read_string quote l = do
  l1 ← string_loop (loop_fuel l) quote l
  s ← slice l1.input (l.pos + 1) l1.pos
  ok (s, l1)
