-- ===== src/Query/WellFormed.antt =====
-- pkg/query/parser.go and types.go: the syntax of the expressions that the parser builds, and rules
-- for what a step of its monad returns.
pub mod Selectors
pub mod Operands
pub mod Levels
use tinyobs.Base.{
  ◌≡◌, refl, arith, ◌||◌, Bool, true, false, List, Bytes, Option, none, All, if◌then◌else◌,
}
use tinyobs.Query.Outcome.{Outcome, ok, panic, out_of_fuel}
use tinyobs.Query.Parser.Selectors.{is_label_match_op}
use tinyobs.Query.Parser.State.{Parser, M, ◌>>=◌}
use tinyobs.Query.Parser.{is_comparison_op, is_multiplicative_op, is_additive_op}
use tinyobs.Query.Tokens.{
  TokenType, type_eq, LabelMatcher, VectorSelector, Expr, Args, nil, vector_selector,
  range_selector, function_call, unary_expr, binary_expr, aggregate_expr, number_literal,
  paren_expr, end, arg,
}

-- The fifteen operators that stand between two operands, listed here and not by the parser's tests.
abbrev pub is_binary_op : TokenType → Bool
is_binary_op TokenType.plus = true
is_binary_op TokenType.minus = true
is_binary_op TokenType.multiply = true
is_binary_op TokenType.divide = true
is_binary_op TokenType.modulo = true
is_binary_op TokenType.power = true
is_binary_op TokenType.equal_equal = true
is_binary_op TokenType.not_equal = true
is_binary_op TokenType.less = true
is_binary_op TokenType.less_equal = true
is_binary_op TokenType.greater = true
is_binary_op TokenType.greater_equal = true
is_binary_op TokenType.and = true
is_binary_op TokenType.or = true
is_binary_op TokenType.unless = true
is_binary_op _ = false

-- The signs.
abbrev pub is_sign : TokenType → Bool
is_sign TokenType.plus = true
is_sign TokenType.minus = true
is_sign _ = false

-- The matching operators: `=`, `!=`, `=~` and `!~`.
abbrev pub is_matching : TokenType → Bool
is_matching TokenType.equal = true
is_matching TokenType.not_equal = true
is_matching TokenType.match = true
is_matching TokenType.not_match = true
is_matching _ = false

-- What the tests of the parser let through.
pub is_matching-is_label_match_op :
    (t : TokenType) → is_label_match_op t ≡ true → is_matching t ≡ true
unfolding is_label_match_op
is_matching-is_label_match_op TokenType.equal h = refl
is_matching-is_label_match_op _ h = ground arith

pub is_sign-is_additive_op : (t : TokenType) → is_additive_op t ≡ true → is_sign t ≡ true
unfolding is_additive_op
is_sign-is_additive_op TokenType.plus h = refl
is_sign-is_additive_op _ h = ground arith

pub is_binary_op-is_additive_op : (t : TokenType) → is_additive_op t ≡ true → is_binary_op t ≡ true
unfolding is_additive_op
is_binary_op-is_additive_op TokenType.plus h = refl
is_binary_op-is_additive_op _ h = ground arith

pub is_binary_op-is_multiplicative_op :
    (t : TokenType) → is_multiplicative_op t ≡ true → is_binary_op t ≡ true
unfolding is_multiplicative_op
is_binary_op-is_multiplicative_op TokenType.multiply h = refl
is_binary_op-is_multiplicative_op _ h = ground arith

pub is_binary_op-is_comparison_op :
    (t : TokenType) → is_comparison_op t ≡ true → is_binary_op t ≡ true
unfolding is_comparison_op
is_binary_op-is_comparison_op TokenType.less h = refl
is_binary_op-is_comparison_op _ h = ground arith

-- The operators that the parser tests for one by one.
abbrev pub is_single_op : TokenType → Bool
is_single_op t =
    type_eq t TokenType.or
    || type_eq t TokenType.and
    || type_eq t TokenType.unless
    || type_eq t TokenType.power

pub is_binary_op-is_single_op : (t : TokenType) → is_single_op t ≡ true → is_binary_op t ≡ true
is_binary_op-is_single_op TokenType.or h = refl
is_binary_op-is_single_op _ h = ground arith

abbrev pub IsMatcher : LabelMatcher → Type 0
IsMatcher m = is_matching m.op ≡ true

-- The expressions of the language: each rule is named after the node that it types. The argument
-- of an aggregation may be missing, and nothing else.
mutual
  pub data IsExpr {V : Type 0} : Expr V → Type 0 where
    selector : (v : VectorSelector) → All IsMatcher v.matchers → IsExpr (vector_selector v)
    range : (v : VectorSelector) (d : _) → All IsMatcher v.matchers → IsExpr (range_selector v d)
    call : (name : Bytes) {args : Args V} → AreExprs args → IsExpr (function_call name args)
    sign : {t : TokenType} {e : Expr V} → is_sign t ≡ true → IsExpr e → IsExpr (unary_expr t e)
    binary :
        {l r : Expr V} {t : TokenType}
        → is_binary_op t ≡ true
        → IsExpr l
        → IsExpr r
        → IsExpr (binary_expr l t r none)
    aggregate :
        (op : Bytes) (ls : List Bytes) (without : Bool) {e : Expr V}
        → IsExpr e
        → IsExpr (aggregate_expr op ls e without)
    aggregate_nothing :
        (op : Bytes) (ls : List Bytes) (without : Bool) → IsExpr (aggregate_expr op ls nil without)
    literal : (v : V) → IsExpr (number_literal v)
    paren : {e : Expr V} → IsExpr e → IsExpr (paren_expr e)

  pub data AreExprs {V : Type 0} : Args V → Type 0 where
    no_argument : AreExprs end
    argument : {e : Expr V} {args : Args V} → IsExpr e → AreExprs args → AreExprs (arg e args)

-- A result, if there is one, with the property `P`.
abbrev pub Yields : {A : Type 0} → (A → Type 0) → Outcome (A × Parser) → Type 0
Yields P (ok (a, p)) = P a
Yields P panic = Unit
Yields P out_of_fuel = Unit

abbrev pub Makes : {A : Type 0} → (A → Type 0) → M A → Type 0
Makes P m = (p : Parser) → Yields P (m p)

abbrev pub Any : {A : Type 0} → A → Type 0
Any a = Unit

pub Yields-Any : {A : Type 0} (r : Outcome (A × Parser)) → Yields Any r
Yields-Any (ok (a, p)) = tt
Yields-Any panic = tt
Yields-Any out_of_fuel = tt

pub Yields-bind :
    {A B : Type 0} (P : A → Type 0) (Q : B → Type 0) (m : M A) (f : A → M B) (p : Parser)
    → Yields P (m p)
    → ((a : A) → P a → Makes Q (f a))
    → Yields Q ((m >>= f) p)
Yields-bind {A} P Q m f p g k = go (m p) g
  where
    go :
        (r : Outcome (A × Parser))
        → Yields P r
        → Yields Q (elim r [ ok (a, p') ↦ f a p' | panic ↦ panic | out_of_fuel ↦ out_of_fuel ])
    go (ok (a, p')) g = k a g p'
    go panic g = tt
    go out_of_fuel g = tt

pub Yields-if :
    {A : Type 0} (P : A → Type 0) (test : Bool) (x y : M A) (p : Parser)
    → (test ≡ true → Yields P (x p))
    → (test ≡ false → Yields P (y p))
    → Yields P ((if test then x else y) p)
Yields-if P true x y p f g = f refl
Yields-if P false x y p f g = g refl

-- What comes before does not matter.
pub Yields-then :
    {A B : Type 0} (Q : B → Type 0) (m : M A) (f : A → M B) (p : Parser)
    → ((a : A) → Makes Q (f a))
    → Yields Q ((m >>= f) p)
Yields-then Q m f p k = Yields-bind Any Q m f p (Yields-Any (m p)) (λ a _. k a)
