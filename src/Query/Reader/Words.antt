-- ===== src/Query/Reader/Words.antt =====
-- Identifiers, numbers and duration units: the slices that the lexer takes are inside the input.
use tinyobs.Base.{
  ℕ, ◌-◌, ◌≤◌, ◌<◌, take, drop, ◌≡◌, refl, ◌≢◌, inl, inr, Bool, true, false, Bytes, ◌&&◌, ◌||◌,
  length, ◌==◌, if◌then◌else◌, Bool-cases, arith,
}
use tinyobs.Query.Outcome.{Outcome, ok, ◌>>=◌}
use tinyobs.Query.Reader.Loops.{
  IsValid, Forward, Forward-refl, Forward-trans, Forward-read_char, skip_while_lem, lt_of_ch,
  left-lt-loop_fuel,
}
use tinyobs.Query.Reader.{
  Lexer, read_char, peek_char, skip_while, loop_fuel, slice, is_letter, is_digit, in_identifier,
  in_number, read_identifier, read_fraction, read_exponent, read_number, read_duration_unit,
}

-- `r` is a text and a lexer further on.
abbrev pub Reads : Lexer → Outcome (Bytes × Lexer) → Type 0
Reads l r = (s : Bytes) × (l' : Lexer) × (r ≡ ok (s, l')) × Forward l l' × (l.pos < l'.pos)

pub slice_ok :
    (s : Bytes) (lo hi : ℕ) → lo ≤ hi → hi ≤ length s → (t : Bytes) × (slice s lo hi ≡ ok t)
unfolding slice
slice_ok s lo hi h k = (take (hi - lo) (drop lo s), ground arith)

slice-Forward :
    (l l' : Lexer)
    → l.pos < length l.input
    → Forward l l'
    → (t : Bytes) × (slice l'.input l.pos l'.pos ≡ ok t)
slice-Forward l l' h f =
    slice_ok l'.input l.pos l'.pos f.onward (rw f.same_input (omega (arith, f.inside)))

read_while_lem :
    (test : ℕ → Bool) (l : Lexer)
    → test 0 ≡ false
    → IsValid l
    → test l.ch ≡ true
    → Reads l
        (skip_while (loop_fuel l) test l >>= λ l1. slice l1.input l.pos l1.pos >>= λ s. ok (s, l1))
read_while_lem test l t v h =
    let (l1, e, f, _, moved) = skip_while_lem (loop_fuel l) test l t v (omega arith) in
    let (s, e') = slice-Forward l l1 (lt_of_ch l v (λ z. cc)) f in (s, l1, rw (e, e'), f, moved h)

pub read_identifier_lem :
    (l : Lexer) → IsValid l → is_letter l.ch ≡ true → Reads l (read_identifier l)
unfolding read_identifier
read_identifier_lem l v h = read_while_lem in_identifier l zero_stops v (ground arith)
  where
    zero_stops : in_identifier 0 ≡ false
    zero_stops = unfold is_letter is_digit in refl

pub read_duration_unit_lem :
    (l : Lexer) → IsValid l → is_letter l.ch ≡ true → Reads l (read_duration_unit l)
unfolding read_duration_unit
read_duration_unit_lem l v h = read_while_lem is_letter l (unfold is_letter in refl) v h

zero_not_in_number : in_number 0 ≡ false
unfolding is_digit
zero_not_in_number = refl

Moves : Lexer → Outcome Lexer → Type 0
Moves l r = (l' : Lexer) × (r ≡ ok l') × Forward l l'

skip_number : (l l1 : Lexer) → Forward l l1 → Moves l (skip_while (loop_fuel l) in_number l1)
unfolding Moves
skip_number l l1 f =
    let (l2, e, g, _, _) =
      skip_while_lem (loop_fuel l) in_number l1 zero_not_in_number f.valid (left-lt-loop_fuel f) in
    (l2, e, Forward-trans {n = l2} f g)

read_fraction_lem : (l : Lexer) → IsValid l → Moves l (read_fraction l)
unfolding read_fraction Moves
read_fraction_lem l v = elim (Bool-cases (l.ch == b'.' && is_digit (peek_char l))) [
  | inl go ↦ rw go (skip_number l (read_char l) (Forward-read_char l v (λ z. ground arith)))
  | inr stop ↦ (l, rw stop, Forward-refl l v)
]

-- The optional sign behind `e`.
skip_sign :
    (l : Lexer) → IsValid l → Forward l (if l.ch == b'+' || l.ch == b'-' then read_char l else l)
skip_sign l v = elim (Bool-cases (l.ch == b'+' || l.ch == b'-')) [
  | inl sign ↦ rw sign (Forward-read_char l v (λ z. ground arith))
  | inr none ↦ rw none (Forward-refl l v)
]

read_exponent_lem : (l : Lexer) → IsValid l → Moves l (read_exponent l)
unfolding read_exponent Moves
read_exponent_lem l v = elim (Bool-cases (l.ch == b'e' || l.ch == b'E')) [
  | inl go ↦
      let step = Forward-read_char l v (λ z. ground arith) in
      rw go (skip_number l _ (Forward-trans step (skip_sign (read_char l) step.valid)))
  | inr stop ↦ (l, rw stop, Forward-refl l v)
]

pub read_number_lem : (l : Lexer) → IsValid l → is_digit l.ch ≡ true → Reads l (read_number l)
unfolding read_number Moves is_digit
read_number_lem l v h =
    let ne : l.ch ≢ 0 = λ z. ground arith in
    let (l1, e1, f1, _, moved) = skip_while_lem (loop_fuel l) in_number l refl v (omega arith) in
    let (l2, e2, f2) = read_fraction_lem l1 f1.valid in
    let (l3, e3, f3) = read_exponent_lem l2 f2.valid in
    let f = Forward-trans f1 (Forward-trans {n = l3} f2 f3) in
    let (s, e) = slice-Forward l l3 (lt_of_ch l v ne) f in
    (s, l3, rw (e1, e2, e3, e), f, omega (arith, moved (ground arith), f2.onward, f3.onward))
