-- ===== src/Compaction/Decimal.antt =====
-- `fmt.Sprintf("%d", n)` and `fmt.Sscanf(s, "%d", &n)` for a uint64, as types.go uses them.
use tinyobs.Base.{
  ℕ, zero, suc, ◌+◌, ◌-◌, ◌*◌, ◌/◌, ◌%◌, ◌^◌, ◌<◌, ◌≡◌, refl, Bool, true, false, ◌&&◌, ◌||◌, [],
  ◌∷◌, Option, none, some, Bytes, ltb, leb, ◌==◌, if◌then◌else◌, if_elim, ltb→lt, ltb_false→le, ap,
  ◌∙◌, arith,
}

abbrev pub uint64 : ℕ → ℕ
uint64 n = n % 2 ^ 64

-- The digits of `n` in front of `rest`; the fuel `n + 1` is enough.
digits_onto : ℕ → ℕ → Bytes → Bytes
digits_onto zero n rest = rest
digits_onto (suc f) n rest =
    let more = digits_onto f (n / 10) ((b'0' + n % 10) ∷ rest) in
    if ltb n 10 then (b'0' + n) ∷ rest else more

unfoldable pub format_uint : ℕ → Bytes
unfolding digits_onto
format_uint n = digits_onto (suc n) n []

unfoldable pub is_digit : ℕ → Bool
is_digit c = leb b'0' c && leb c b'9'

-- The number that the leading digits make.
unfoldable pub value_of : ℕ → Bytes → ℕ
value_of n [] = n
value_of n (c ∷ s) = let rest = value_of (n * 10 + (c - b'0')) s in if is_digit c then rest else n

skip_blanks : Bytes → Bytes
skip_blanks [] = []
skip_blanks (c ∷ s) = if c == b' ' || c == b'\t' || c == b'\r' then skip_blanks s else c ∷ s

scan_digits : Bytes → Option ℕ
scan_digits [] = none
scan_digits (c ∷ s) =
    if is_digit c
    then (let n = value_of 0 (c ∷ s) in if ltb n (2 ^ 64) then some n else none)
    else none

-- Digits are needed, what stands behind them is left, and a number beyond 64 bits is an error.
unfoldable pub scan_uint : Bytes → Option ℕ
unfolding scan_digits skip_blanks
scan_uint s = scan_digits (skip_blanks s)

digit-is_digit : (d : ℕ) → d < 10 → is_digit (b'0' + d) ≡ true
unfolding is_digit
digit-is_digit d h = ground arith

value-digit :
    (a d : ℕ) (rest : Bytes) → d < 10 → value_of a ((b'0' + d) ∷ rest) ≡ value_of (a * 10 + d) rest
unfolding value_of
value-digit a d rest h =
    rw (digit-is_digit d h) (ap (λ k. value_of (a * 10 + k) rest) (omega arith))

value-digits_onto :
    (f n : ℕ) (rest : Bytes) → n < f → value_of 0 (digits_onto f n rest) ≡ value_of n rest
unfolding digits_onto
value-digits_onto zero n rest h = absurd (omega arith)
value-digits_onto (suc f) n rest h =
    if_elim (λ s. value_of 0 s ≡ value_of n rest) (ltb n 10)
      (λ small. value-digit 0 n rest (ltb→lt n 10 small) ∙ ap (λ k. value_of k rest) (omega arith))
      (λ big.
        value-digits_onto f (n / 10) ((b'0' + n % 10) ∷ rest) (omega (arith, ltb_false→le n 10 big))
        ∙ value-digit (n / 10) (n % 10) rest (omega arith)
        ∙ ap (λ k. value_of k rest) (omega arith))

-- A text that begins with a digit.
abbrev StartsWithDigit : Bytes → Type 0
StartsWithDigit [] = ⊥
StartsWithDigit (c ∷ s) = is_digit c ≡ true

digits_onto-StartsWithDigit :
    (f n : ℕ) (rest : Bytes) → n < f → StartsWithDigit (digits_onto f n rest)
unfolding digits_onto
digits_onto-StartsWithDigit zero n rest h = absurd (omega arith)
digits_onto-StartsWithDigit (suc f) n rest h =
    if_elim StartsWithDigit (ltb n 10) (λ small. digit-is_digit n (ltb→lt n 10 small))
      (λ big.
        digits_onto-StartsWithDigit f (n / 10) ((b'0' + n % 10) ∷ rest)
          (omega (arith, ltb_false→le n 10 big)))

digit_no_blank : (c : ℕ) → is_digit c ≡ true → (c == b' ' || c == b'\t' || c == b'\r') ≡ false
unfolding is_digit
digit_no_blank c h = ground arith

lt→ltb : (a b : ℕ) → a < b → ltb a b ≡ true
lt→ltb a b h = ground arith

scan-value :
    (s : Bytes) → StartsWithDigit s → value_of 0 s < 2 ^ 64 → scan_uint s ≡ some (value_of 0 s)
unfolding scan_uint
scan-value [] h k = absurd h
scan-value (c ∷ s) h k =
    rw (digit_no_blank c h) (rw h (rw (lt→ltb (value_of 0 (c ∷ s)) (2 ^ 64) k)))

-- A count below 2^64 that is printed in decimal is read back.
pub scan_uint-format_uint : (n : ℕ) → n < 2 ^ 64 → scan_uint (format_uint n) ≡ some n
unfolding format_uint
scan_uint-format_uint n h =
    let e : value_of 0 (digits_onto (suc n) n []) ≡ n =
      value-digits_onto (suc n) n [] (omega arith) ∙ (unfold value_of in refl) in
    scan-value (digits_onto (suc n) n []) (digits_onto-StartsWithDigit (suc n) n [] (omega arith))
      (rw e h)
    ∙ ap some e
