-- ===== src/Query/Tokens.antt =====
-- pkg/query/types.go: token types, tokens and expression nodes.
use tinyobs.Base.{ℕ, Bool, List, Bytes, Option, ◌==◌}

pub data TokenType : Type 0 where
  identifier number string duration : TokenType
  plus minus multiply divide power modulo : TokenType
  equal not_equal equal_equal less less_equal greater greater_equal match not_match : TokenType
  and or unless : TokenType
  sum avg max min count stddev stdvar topk bottomk quantile count_values : TokenType
  left_paren right_paren left_brace right_brace left_bracket right_bracket comma colon : TokenType
  by without on ignoring group_left group_right bool offset : TokenType
  eof illegal : TokenType

-- The `iota` value of each constant.
abbrev pub iota : TokenType → ℕ
iota identifier = 0
iota number = 1
iota string = 2
iota duration = 3
iota plus = 4
iota minus = 5
iota multiply = 6
iota divide = 7
iota power = 8
iota modulo = 9
iota equal = 10
iota not_equal = 11
iota equal_equal = 12
iota less = 13
iota less_equal = 14
iota greater = 15
iota greater_equal = 16
iota match = 17
iota not_match = 18
iota and = 19
iota or = 20
iota unless = 21
iota sum = 22
iota avg = 23
iota max = 24
iota min = 25
iota count = 26
iota stddev = 27
iota stdvar = 28
iota topk = 29
iota bottomk = 30
iota quantile = 31
iota count_values = 32
iota left_paren = 33
iota right_paren = 34
iota left_brace = 35
iota right_brace = 36
iota left_bracket = 37
iota right_bracket = 38
iota comma = 39
iota colon = 40
iota by = 41
iota without = 42
iota on = 43
iota ignoring = 44
iota group_left = 45
iota group_right = 46
iota bool = 47
iota offset = 48
iota eof = 49
iota illegal = 50

-- `a == b` on token types.
abbrev pub type_eq : TokenType → TokenType → Bool
type_eq a b = iota a == iota b

pub record Token : Type 0 where
  pub type : TokenType
  pub literal : Bytes
  pub pos : ℕ

pub record LabelMatcher : Type 0 where
  pub name : Bytes
  pub op : TokenType
  pub value : Bytes

pub record VectorSelector : Type 0 where
  pub name : Bytes
  pub matchers : List LabelMatcher

pub record VectorMatching : Type 0 where
  pub on : Bool
  pub labels : List Bytes
  pub group_left : Bool
  pub group_right : Bool

-- The node types that implement `Expr`, over the type `V` of float64 values. `nil` is the nil
-- interface, which an aggregation without an argument holds.
mutual
  pub data Expr (V : Type 0) : Type 0 where
    nil : Expr V
    vector_selector : VectorSelector → Expr V
    range_selector : VectorSelector → ℕ → Expr V
    function_call : Bytes → Args V → Expr V
    unary_expr : TokenType → Expr V → Expr V
    binary_expr : Expr V → TokenType → Expr V → Option VectorMatching → Expr V
    aggregate_expr : Bytes → List Bytes → Expr V → Bool → Expr V
    number_literal : V → Expr V
    paren_expr : Expr V → Expr V
    subquery_expr : Expr V → ℕ → ℕ → ℕ → Expr V

  pub data Args (V : Type 0) : Type 0 where
    end : Args V
    arg : Expr V → Args V → Args V
