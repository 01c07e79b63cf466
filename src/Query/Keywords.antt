-- ===== src/Query/Keywords.antt =====
-- pkg/query/lexer.go, `lookupKeyword`.
use tinyobs.Base.{◌+◌, ◌&&◌, List, [], ◌∷◌, Bytes, codes, str_eq, map, leb, if◌then◌else◌}
use tinyobs.Query.Tokens.{TokenType}

-- `strings.ToLower` as far as the keywords can tell: no identifier of the lexer holds a byte
-- sequence of a non-ASCII rune whose lower case is an ASCII letter.
to_lower : Bytes → Bytes
to_lower = map (λ c. if leb b'A' c && leb c b'Z' then c + 32 else c)

abbrev keywords : List (Bytes × TokenType)
keywords =
    (codes "by", TokenType.by)
    ∷ (codes "without", TokenType.without)
    ∷ (codes "on", TokenType.on)
    ∷ (codes "ignoring", TokenType.ignoring)
    ∷ (codes "group_left", TokenType.group_left)
    ∷ (codes "group_right", TokenType.group_right)
    ∷ (codes "bool", TokenType.bool)
    ∷ (codes "offset", TokenType.offset)
    ∷ (codes "and", TokenType.and)
    ∷ (codes "or", TokenType.or)
    ∷ (codes "unless", TokenType.unless)
    ∷ (codes "sum", TokenType.sum)
    ∷ (codes "avg", TokenType.avg)
    ∷ (codes "max", TokenType.max)
    ∷ (codes "min", TokenType.min)
    ∷ (codes "count", TokenType.count)
    ∷ (codes "stddev", TokenType.stddev)
    ∷ (codes "stdvar", TokenType.stdvar)
    ∷ (codes "topk", TokenType.topk)
    ∷ (codes "bottomk", TokenType.bottomk)
    ∷ (codes "quantile", TokenType.quantile)
    ∷ (codes "count_values", TokenType.count_values)
    ∷ []

find_keyword : Bytes → List (Bytes × TokenType) → TokenType
find_keyword s [] = TokenType.identifier
find_keyword s ((k, t) ∷ rest) = if str_eq k s then t else find_keyword s rest

unfoldable pub lookup_keyword : Bytes → TokenType
unfolding to_lower find_keyword str_eq
lookup_keyword ident = find_keyword (to_lower ident) keywords
