-- ===== src/Query/Parser/State.antt =====
-- The parser's state, its two tokens, and the monad of the methods that change it.
use tinyobs.Base.{Bool, [], Bytes, if◌then◌else◌}
use tinyobs.Query.Lexer.{next_token}
use tinyobs.Query.Outcome.{Outcome, ok, panic, out_of_fuel}
use tinyobs.Query.Reader.{Lexer, new_lexer}
use tinyobs.Query.Tokens.{TokenType, Token, type_eq}

pub record Parser : Type 0 where
  pub lexer : Lexer
  pub current : Token
  pub peek : Token

abbrev pub M : Type 0 → Type 0
M A = Parser → Outcome (A × Parser)

infixl 5 ◌>>=◌ ◌>>◌
abbrev pub ◌>>=◌ : {A B : Type 0} → M A → (A → M B) → M B
◌>>=◌ m f p = elim (m p) [ ok (a, p') ↦ f a p' | panic ↦ panic | out_of_fuel ↦ out_of_fuel ]

abbrev pub ◌>>◌ : {B : Type 0} → M (Unit {0}) → M B → M B
m >> k = m >>= λ _. k

abbrev pub pure : {A : Type 0} → A → M A
pure a p = ok (a, p)

-- The fuel of a loop has run out.
abbrev pub fault : {A : Type 0} → M A
fault p = out_of_fuel

-- `p.current`
abbrev pub current : M Token
current p = ok (p.current, p)

-- `nextToken`
unfoldable pub advance : M (Unit {0})
advance p = elim (next_token p.lexer) [
  | ok (t, l) ↦ ok (tt, record { lexer = l; current = p.peek; peek = t })
  | panic ↦ panic
  | out_of_fuel ↦ out_of_fuel
]

abbrev pub when : Bool → M (Unit {0}) → M (Unit {0})
when b m = if b then m else pure tt

abbrev pub is : TokenType → Token → Bool
is t token = type_eq token.type t

-- The zero value of `Token`.
abbrev pub zero_token : Token
zero_token = record { type = TokenType.identifier; literal = []; pos = 0 }

unfoldable pub new_parser : Bytes → Outcome (Unit {0} × Parser)
new_parser input =
    (advance >> advance)
      (record { lexer = new_lexer input; current = zero_token; peek = zero_token })
