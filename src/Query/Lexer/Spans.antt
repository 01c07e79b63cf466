-- ===== src/Query/Lexer/Spans.antt =====
-- pkg/query/lexer.go: which bytes of the input the token of `NextToken` stands for.
use tinyobs.Base.{ℕ, ◌+◌, ◌-◌, ◌≤◌, ◌<◌, ◌≡◌, ◌⊎◌, Bytes, Option, none, some, get_or}
use tinyobs.Query.Outcome.{Outcome, ok, panic, out_of_fuel}
use tinyobs.Query.Reader.Loops.{IsValid}
use tinyobs.Query.Reader.Strings.{IsPlain}
use tinyobs.Query.Reader.{Lexer, slice}
use tinyobs.Query.Tokens.{TokenType, Token}

-- The token stands for the bytes from `i` up to `j`: they are its literal; or, for a string, the
-- literal between two bytes, its quotes; or one byte, for a token that is illegal; or it is the end,
-- a zero byte or none.
abbrev pub IsSpan : Bytes → ℕ → ℕ → Token → Type 0
IsSpan input i j t =
    (slice input i j ≡ ok t.literal)
    ⊎ (t.type ≡ TokenType.string) × (i + 2 ≤ j) × (slice input (i + 1) (j - 1) ≡ ok t.literal)
    ⊎ (t.type ≡ TokenType.illegal) × (j ≡ i + 1)
    ⊎ (t.type ≡ TokenType.eof) × (get_or input i 0 ≡ 0)

abbrev Spanned : Lexer → Outcome (Token × Lexer) → Type 0
Spanned l (ok (t, l')) = IsSpan l.input l.pos l'.pos t
Spanned l _ = Unit

-- Characters that are one byte of UTF-8, and not the end.
abbrev IsAscii : ℕ → Type 0
IsAscii c = (0 < c) × (c < 128)

abbrev SpannedIf : Lexer → Option (Outcome (Token × Lexer)) → Type 0
SpannedIf l none = Unit {0}
SpannedIf l (some r) = Spanned l r

-- A token, which stands for bytes at or behind the position of the lexer, and a lexer in order behind
-- them, on the same input; a panic needs a backslash.
abbrev pub Tokenizes : Lexer → Outcome (Token × Lexer) → Type 0
Tokenizes l (ok (t, l')) =
    IsValid l' × (l'.input ≡ l.input) × ((i : ℕ) × (l.pos ≤ i) × IsSpan l.input i l'.pos t)
Tokenizes l panic = ¬ (IsPlain l.input)
Tokenizes l out_of_fuel = ⊥
