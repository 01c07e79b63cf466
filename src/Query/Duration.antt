-- ===== src/Query/Duration.antt =====
-- pkg/query/parser.go, `parseDuration`. A `time.Duration` is an int64 count of nanoseconds, held
-- here as its bit pattern, a number below 2^64; its arithmetic wraps.
use tinyobs.Base.{
  ℕ, ◌+◌, ◌-◌, ◌*◌, ◌%◌, ◌^◌, ◌&&◌, [], ◌∷◌, Bytes, codes, str_eq, leb, if◌then◌else◌,
}

abbrev pub int64 : ℕ → ℕ
int64 n = n % 2 ^ 64

abbrev pub second : ℕ
second = 1_000_000_000

abbrev pub minute : ℕ
minute = 60 * second

abbrev pub hour : ℕ
hour = 60 * minute

-- The loop over the digits: the value read so far, and the rest of the text.
unfoldable pub read_digits : ℕ → Bytes → ℕ × Bytes
read_digits value [] = (value, [])
read_digits value (c ∷ s) =
    let rest = read_digits (int64 (value * 10 + (c - b'0'))) s in
    if leb b'0' c && leb c b'9' then rest else (value, c ∷ s)

unfoldable pub scale : ℕ → Bytes → ℕ
scale value unit =
    if str_eq unit (codes "s")
    then int64 (value * second)
    else if str_eq unit (codes "m")
    then int64 (value * minute)
    else if str_eq unit (codes "h")
    then int64 (value * hour)
    else if str_eq unit (codes "d")
    then int64 (value * 24 * hour)
    else if str_eq unit (codes "w")
    then int64 (value * 7 * 24 * hour)
    else if str_eq unit (codes "y")
    then int64 (value * 365 * 24 * hour)
    else 0

unfoldable pub parse_duration : Bytes → ℕ
unfolding read_digits scale
parse_duration s = let (value, unit) = read_digits 0 s in scale value unit
