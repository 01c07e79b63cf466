-- ===== src/Query/Termination/Levels.antt =====
-- The levels of precedence, and `Parse` as a whole.
use tinyobs.Base.{
  ℕ, zero, suc, ◌<◌, ◌≡◌, ◌≢◌, refl, Bool, true, Bytes, if◌then◌else◌, length, arith,
}
use tinyobs.Float.{FloatOps}
use tinyobs.Query.Lexer.Progress.{weight}
use tinyobs.Query.Outcome.{Outcome, ok, panic, out_of_fuel}
use tinyobs.Query.Parser.State.{Parser, M, pure, advance, is, new_parser, zero_token}
use tinyobs.Query.Parser.{
  is_comparison_op, is_multiplicative_op, is_additive_op, binary_loop, left_associative,
  parse_unary_expression, parse_power_expression, parse_multiplicative_expression,
  parse_additive_expression, parse_comparison_expression, parse_unless_expression,
  parse_and_expression, parse_or_expression, parse_expression, ParseResult, parsed,
  unexpected_token, parse_fuel, parse,
}
use tinyobs.Query.Reader.Loops.{read_char-IsValid, input-read_char}
use tinyobs.Query.Reader.Strings.{IsPlain}
use tinyobs.Query.Reader.{new_lexer}
use tinyobs.Query.Termination.Operands.{Ends, Ends-parse_primary_expression}
use tinyobs.Query.Termination.Rules.{
  Ready, Good, Ready-mono, Good-advance, Good-bind, Good-step, Good-if, Good-mono,
}
use tinyobs.Query.Tokens.{TokenType, type_eq, Expr}

-- A test of operators that EOF does not pass.
abbrev IsOperatorTest : (TokenType → Bool) → Type 0
IsOperatorTest is_op = (t : TokenType) → is_op t ≡ true → weight t ≡ 1

one_test : (x : TokenType) → weight x ≡ 1 → IsOperatorTest (λ t. type_eq t x)
one_test x w t h = ground arith

module _ {V : Type 0} (s : Bytes) where
  Good-binary_loop :
      (is_op : TokenType → Bool) (operand : M (Expr V)) (fuel f b : ℕ) (e : Expr V) (p : Parser)
      → IsOperatorTest is_op
      → Ends s fuel operand
      → b < f
      → b < fuel
      → Ready s b p
      → Good s b (binary_loop is_op operand f e p)
  unfolding binary_loop
  Good-binary_loop is_op operand fuel zero b e p op ih h k r = absurd (omega arith)
  Good-binary_loop is_op operand fuel (suc f) b e p op ih h k r =
      Good-if s b (is_op p.current.type) _ (pure e) p
        (λ hit. Good-step s f b _ p r (op p.current.type hit) h (λ c p1 h1 k1 r1.
          Good-bind s c b operand _ p1 (ih c p1 (omega arith) r1) (λ right p2 r2.
            Good-mono s c b _ k1
              (Good-binary_loop is_op operand fuel f c _ p2 op ih h1 (omega arith) r2))))
        (λ _. r)

  Ends-left_associative :
      (is_op : TokenType → Bool) (operand : M (Expr V)) (fuel : ℕ)
      → IsOperatorTest is_op
      → Ends s fuel operand
      → Ends s fuel (left_associative is_op operand fuel)
  unfolding left_associative
  Ends-left_associative is_op operand fuel op ih b p h r =
      Good-bind s b b operand _ p (ih b p h r)
        (λ e p1 r1. Good-binary_loop is_op operand fuel fuel b e p1 op ih h h r1)

module _ {V : Type 0} ⦃F : FloatOps V⦄ (s : Bytes) (n : ℕ) (rec : M (Expr V))
    (ih : Ends s n rec) where
  Good-parse_unary_expression :
      (f b : ℕ) (p : Parser)
      → b < f
      → b < suc n
      → Ready s b p
      → Good s b (parse_unary_expression rec (suc n) f p)
  unfolding parse_unary_expression is_additive_op
  Good-parse_unary_expression zero b p h k r = absurd (omega arith)
  Good-parse_unary_expression (suc f) b p h k r =
      Good-if s b (is_additive_op p.current.type) _ _ p
        (λ sign. Good-step s f b _ p r (ground arith) h (λ c p1 h1 k1 r1.
          Good-bind s c b (parse_unary_expression rec (suc n) f) _ p1
            (Good-parse_unary_expression f c p1 h1 (omega arith) r1) (λ _ _ r2. Ready-mono r2 k1)))
        (λ _. Ends-parse_primary_expression s n rec ih b p k r)

  Good-parse_power_expression :
      (f b : ℕ) (p : Parser)
      → b < f
      → b < suc n
      → Ready s b p
      → Good s b (parse_power_expression rec (suc n) f p)
  unfolding parse_power_expression
  Good-parse_power_expression zero b p h k r = absurd (omega arith)
  Good-parse_power_expression (suc f) b p h k r =
      Good-bind s b b (parse_unary_expression rec (suc n) (suc n)) _ p
        (Good-parse_unary_expression (suc n) b p k k r)
        (λ l p1 r1.
          Good-if s b (is TokenType.power p1.current) _ (pure l) p1
            (λ power. Good-step s f b _ p1 r1 (ground arith) h (λ c p2 h2 k2 r2.
              Good-bind s c b (parse_power_expression rec (suc n) f) _ p2
                (Good-parse_power_expression f c p2 h2 (omega arith) r2)
                (λ _ _ r3. Ready-mono r3 k2)))
            (λ _. r1))

  Ends-parse_additive_expression : Ends s (suc n) (parse_additive_expression rec (suc n))
  unfolding parse_additive_expression parse_multiplicative_expression
  Ends-parse_additive_expression = Ends-left_associative s is_additive_op _ (suc n) additive (
      Ends-left_associative s is_multiplicative_op _ (suc n) multiplicative
        (λ b p h r. Good-parse_power_expression (suc n) b p h h r))
    where
      additive : IsOperatorTest is_additive_op
      additive t h = unfold is_additive_op in ground arith

      multiplicative : IsOperatorTest is_multiplicative_op
      multiplicative t h = unfold is_multiplicative_op in ground arith

  Ends-parse_comparison_expression : Ends s (suc n) (parse_comparison_expression rec (suc n))
  unfolding parse_comparison_expression
  Ends-parse_comparison_expression b p h r =
      Good-bind s b b (parse_additive_expression rec (suc n)) _ p
        (Ends-parse_additive_expression b p h r)
        (λ l p1 r1.
          Good-if s b (is_comparison_op p1.current.type) _ (pure l) p1
            (λ _. Good-bind s b b advance _ p1 (Good-advance s b b p1 r1 (omega arith)) (λ _ p2 r2.
              Good-bind s b b (parse_additive_expression rec (suc n)) _ p2
                (Ends-parse_additive_expression b p2 h r2) (λ _ _ r3. r3)))
            (λ _. r1))

  Ends-parse_or_expression : Ends s (suc n) (parse_or_expression rec (suc n))
  unfolding parse_or_expression parse_and_expression parse_unless_expression
  Ends-parse_or_expression = Ends-left_associative s _ _ (suc n) (one_test TokenType.or refl) (
      Ends-left_associative s _ _ (suc n) (one_test TokenType.and refl) (
        Ends-left_associative s _ _ (suc n) (one_test TokenType.unless refl)
          Ends-parse_comparison_expression))

Ready-start :
    (s : Bytes)
    → Ready s
        (suc (suc (length s)))
        (record { lexer = new_lexer s; current = zero_token; peek = zero_token })
unfolding new_lexer
Ready-start s = record {
  valid = read_char-IsValid _;
  reads = input-read_char _;
  bound = rw input-read_char (omega arith);
}

Good-new_parser : (s : Bytes) → Good s (suc (suc (length s))) (new_parser s)
unfolding new_parser
Good-new_parser s =
    let b = suc (suc (length s)) in
    Good-bind s b b advance (λ _. advance) _ (Good-advance s b b _ (Ready-start s) (omega arith))
      (λ _ p r. Good-advance s b b p r (omega arith))

module _ (V : Type 0) ⦃F : FloatOps V⦄ where
  Ends-parse_expression : (s : Bytes) (n : ℕ) → Ends s n (parse_expression {V = V} n)
  unfolding parse_expression
  Ends-parse_expression s zero b p h r = absurd (omega arith)
  Ends-parse_expression s (suc n) b p h r =
      Ends-parse_or_expression s n (parse_expression n) (Ends-parse_expression s n) b p h r

  -- An end of `Parse` that is not for want of fuel, and no panic without a backslash.
  abbrev Settles : Bytes → Outcome (ParseResult V) → Type 0
  Settles s (ok r) = Unit {0}
  Settles s panic = ¬ (IsPlain s)
  Settles s out_of_fuel = ⊥

  Settles-finish :
      (s : Bytes) (b : ℕ) (r : Outcome (Expr V × Parser))
      → Good s b r
      → Settles s (elim r [
        | ok (e, p') ↦
            ok (
              if is TokenType.eof p'.current then parsed e else unexpected_token p'.current.literal)
        | panic ↦ panic
        | out_of_fuel ↦ out_of_fuel
      ])
  Settles-finish s b (ok (e, p)) g = tt
  Settles-finish s b panic g = g
  Settles-finish s b out_of_fuel g = g

  Settles-start :
      (s : Bytes) (b : ℕ) (r : Outcome (Unit {0} × Parser))
      → b < parse_fuel s
      → Good s b r
      → Settles s (elim r [
        | ok (_, p) ↦ elim (parse_expression {V = V} (parse_fuel s) p) [
          | ok (e, p') ↦ ok (
              if is TokenType.eof p'.current then parsed e else unexpected_token p'.current.literal)
          | panic ↦ panic
          | out_of_fuel ↦ out_of_fuel
        ]
        | panic ↦ panic
        | out_of_fuel ↦ out_of_fuel
      ])
  Settles-start s b (ok (_, p)) h g =
      Settles-finish s b (parse_expression {V = V} (parse_fuel s) p)
        (Ends-parse_expression s (parse_fuel s) b p h g)
  Settles-start s b panic h g = g
  Settles-start s b out_of_fuel h g = g

  parse-Settles : (s : Bytes) → Settles s (parse {V = V} s)
  unfolding parse
  parse-Settles s =
      Settles-start s (suc (suc (length s))) (new_parser s) (omega arith) (Good-new_parser s)

  -- `NewParser` and `Parse` end on every input: the fuel, three more than the bytes of the input,
  -- always suffices. On an input without a backslash they return an expression or an error; so a
  -- panic needs a backslash.
  pub parse_ends :
      (s : Bytes)
      → (parse {V = V} s ≢ out_of_fuel)
        × (IsPlain s → (r : ParseResult V) × (parse {V = V} s ≡ ok r))
  parse_ends s = go (parse {V = V} s) (parse-Settles s)
    where
      go :
          (r : Outcome (ParseResult V))
          → Settles s r
          → (r ≢ out_of_fuel) × (IsPlain s → (x : ParseResult V) × (r ≡ ok x))
      go (ok x) h = ((λ e. cc), λ _. (x, refl))
      go panic h = ((λ e. cc), λ plain. absurd (h plain))
      go out_of_fuel h = absurd h
