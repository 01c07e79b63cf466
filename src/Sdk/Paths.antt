-- ===== src/Sdk/Paths.antt =====
-- pkg/sdk/httpx/middleware.go, `normalizePath`: its two regular expressions as scanners. A match of
-- the first has one length, so the rest of it is a number of bytes to skip.
use tinyobs.Base.{
  ℕ, zero, suc, ◌==◌, ◌&&◌, ◌||◌, ◌≡◌, refl, Bool, true, false, [], ◌∷◌, ◌++◌, Bytes, codes, leb,
  if◌then◌else◌, arith,
}

-- `\d`
abbrev pub is_digit : ℕ → Bool
is_digit c = leb b'0' c && leb c b'9'

-- `[0-9a-f]`, in either case.
unfoldable pub is_hex : ℕ → Bool
is_hex c = is_digit c || leb b'a' c && leb c b'f' || leb b'A' c && leb c b'F'

-- `n` hexadecimal digits, and then what `k` asks for.
unfoldable pub hex_digits : ℕ → (Bytes → Bool) → Bytes → Bool
hex_digits zero k s = k s
hex_digits (suc n) k [] = false
hex_digits (suc n) k (c ∷ s) = let rest = hex_digits n k s in is_hex c && rest

unfoldable pub dash : (Bytes → Bool) → Bytes → Bool
dash k [] = false
dash k (c ∷ s) = c == b'-' && k s

-- The text behind the slash begins with a UUID, which has 36 bytes.
unfoldable pub is_uuid : Bytes → Bool
is_uuid = hex_digits 8 (
    dash
      (hex_digits 4 (dash (hex_digits 4 (dash (hex_digits 4 (dash (hex_digits 12 (λ s. true)))))))))

abbrev pub placeholder : Bytes
placeholder = codes "/{id}"

unfoldable pub replace_uuids : ℕ → Bytes → Bytes
replace_uuids skip [] = []
replace_uuids (suc skip) (c ∷ s) = replace_uuids skip s
replace_uuids zero (c ∷ s) =
    let matched = replace_uuids 36 s in
    let copied = replace_uuids 0 s in
    if c == b'/' && is_uuid s then placeholder ++ matched else c ∷ copied

abbrev pub starts_digit : Bytes → Bool
starts_digit [] = false
starts_digit (c ∷ s) = is_digit c

-- `inside` is whether the digits of a match go on.
unfoldable pub replace_ids : Bool → Bytes → Bytes
replace_ids inside [] = []
replace_ids inside (c ∷ s) =
    let matched = replace_ids true s in
    let copied = replace_ids false s in
    if inside && is_digit c
    then matched
    else if c == b'/' && starts_digit s
    then placeholder ++ matched
    else c ∷ copied

unfoldable pub normalize_path : Bytes → Bytes
normalize_path path = replace_ids false (replace_uuids 0 path)

-- A slash with a digit behind it.
abbrev pub has_id : Bytes → Bool
has_id [] = false
has_id (c ∷ s) = if c == b'/' && starts_digit s then true else has_id s

starts_digit-replace_ids : (s : Bytes) → starts_digit (replace_ids false s) ≡ starts_digit s
unfolding replace_ids
starts_digit-replace_ids [] = refl
starts_digit-replace_ids (c ∷ s) = ground arith

replace_ids-clean : (inside : Bool) (s : Bytes) → has_id (replace_ids inside s) ≡ false
unfolding replace_ids
replace_ids-clean inside [] = refl
replace_ids-clean inside (c ∷ s) =
    ground (arith, replace_ids-clean true s, replace_ids-clean false s, starts_digit-replace_ids s)

-- No path that the middleware counts has a segment that begins with a digit: every numeric segment
-- is replaced, wherever it stands and whatever stands around it.
pub normalize_path-clean : (path : Bytes) → has_id (normalize_path path) ≡ false
unfolding normalize_path
normalize_path-clean path = replace_ids-clean false (replace_uuids 0 path)
