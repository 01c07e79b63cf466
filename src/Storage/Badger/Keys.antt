-- ===== src/Storage/Badger/Keys.antt =====
-- pkg/storage/badger/badger.go, `makeKey` and `parseKey`. `hash` is `xxhash.Sum64String`.
pub mod RoundTrip
use tinyobs.Base.{
  ℕ, zero, suc, ◌+◌, ◌-◌, ◌*◌, ◌/◌, ◌%◌, ◌^◌, [], ◌∷◌, ◌++◌, Bytes, length, take, drop, ltb, leb,
  if◌then◌else◌, ◌==◌, sort_strings, keys, ◌&&◌,
}
use tinyobs.Metric.{Time, Labels, second}
use tinyobs.Query.Outcome.{Outcome, ok, panic, ◌>>=◌}
use tinyobs.Query.Reader.{slice}
use tinyobs.Storage.Memory.{key_suffix}

-- `binary.BigEndian.PutUint16` and `PutUint64`: `n` bytes, the highest first.
unfoldable pub put_uint : ℕ → ℕ → Bytes
put_uint zero v = []
put_uint (suc n) v = (v / 256 ^ n % 256) ∷ put_uint n v

-- `Uint16` and `Uint64`, of all bytes that are given.
unfoldable pub read_uint : ℕ → Bytes → ℕ
read_uint acc [] = acc
read_uint acc (b ∷ bs) = read_uint (acc * 256 + b) bs

-- The nanoseconds from Go's zero Time to 1970.
abbrev pub unix_epoch : Time
unix_epoch = 62_135_596_800 * second

-- `uint64(t.UnixNano())`: the difference to 1970, modulo 2^64.
unfoldable pub unix_nano : Time → ℕ
unix_nano t = (t + (2 ^ 64 - unix_epoch % 2 ^ 64)) % 2 ^ 64

-- `time.Unix(0, int64(n))`
unfoldable pub from_unix_nano : ℕ → Time
from_unix_nano n = if ltb n (2 ^ 63) then unix_epoch + n else unix_epoch + n - 2 ^ 64

abbrev pub uint16 : ℕ → ℕ
uint16 n = n % 2 ^ 16

unfoldable pub series_key_string : Bytes → Labels → Bytes
series_key_string name ls =
    if length ls == 0 then name else name ++ key_suffix ls (sort_strings (keys ls))

unfoldable pub make_key : (Bytes → ℕ) → Bytes → Labels → Time → Bytes
make_key hash name ls t =
    put_uint 2 (uint16 (length name))
    ++ (name ++ (put_uint 8 (hash (series_key_string name ls)) ++ put_uint 8 (unix_nano t)))

-- The offsets into the key are sums of type uint16.
unfoldable pub parse_key : Bytes → Outcome (Bytes × Time)
parse_key key =
    if ltb (length key) 18
    then ok ([], 0)
    else (let name_len = read_uint 0 (take 2 key) in
        slice key 2 (uint16 (2 + name_len)) >>= λ name.
        slice key (uint16 (2 + name_len + 8)) (uint16 (2 + name_len + 16)) >>= λ ts.
        ok (name, from_unix_nano (read_uint 0 ts)))
