-- ===== src/Query/Lexer/Progress.antt =====
-- pkg/query/lexer.go: how far `NextToken` reads on.
use tinyobs.Base.{
  ℕ, ◌+◌, ◌≤◌, ◌<◌, ◌≡◌, refl, ◌≢◌, inl, inr, true, Option, none, some, ◌||◌, ◌==◌, if◌then◌else◌,
  length, if_elim, arith, ◌∙◌,
}
use native.Mathlib.Nat.{zero-add}
use tinyobs.Query.Keywords.{lookup_keyword}
use tinyobs.Query.Lexer.{
  next_token, dispatch, punctuation, operator, other_token, one, two, string_token, word_token,
  number_token,
}
use tinyobs.Query.Outcome.{Outcome, ok, panic, out_of_fuel}
use tinyobs.Query.Reader.Loops.{
  IsValid, Forward, left, left-Forward, lt_of_ch, skip_whitespace_lem, read_char-IsValid,
  pos-read_char, input-read_char,
}
use tinyobs.Query.Reader.Strings.{Beyond, Beyond-read_char, Beyond-trans, IsPlain, read_string_lem}
use tinyobs.Query.Reader.Words.{read_identifier_lem, read_number_lem, read_duration_unit_lem}
use tinyobs.Query.Reader.{Lexer, read_char, peek_char, is_letter, is_digit, loop_fuel}
use tinyobs.Query.Tokens.{TokenType, Token, type_eq}

-- 1 for a token that stands for bytes of the input.
abbrev pub weight : TokenType → ℕ
weight t = if type_eq t TokenType.eof then 0 else 1

-- A token and the lexer behind it; a panic needs a backslash.
abbrev pub Lexes : Lexer → Outcome (Token × Lexer) → Type 0
Lexes l (ok (t, l')) = IsValid l' × (l'.input ≡ l.input) × (weight t.type + left l' ≤ left l)
Lexes l panic = ¬ (IsPlain l.input)
Lexes l out_of_fuel = ⊥

weight_le : (t : TokenType) → weight t ≤ 1
weight_le t = ground arith

Lexes-Beyond :
    (t : TokenType) (l l' : Lexer)
    → Beyond l l'
    → l.pos < length l.input
    → IsValid l' × (l'.input ≡ l.input) × (weight t + left l' ≤ left l)
Lexes-Beyond t l l' b h =
    (b.valid, b.same_input, rw b.same_input (omega (arith, b.further, weight_le t)))

Lexes-one : (t : TokenType) (l : Lexer) → IsValid l → l.ch ≢ 0 → Lexes l (one t l)
unfolding one
Lexes-one t l v h = Lexes-Beyond t l (read_char l) (Beyond-read_char l v) (lt_of_ch l v h)

Lexes-two : (t : TokenType) (l : Lexer) → IsValid l → l.ch ≢ 0 → Lexes l (two t l)
unfolding two
Lexes-two t l v h =
    let b = Beyond-read_char l v in
    Lexes-Beyond t l (read_char (read_char l))
      (Beyond-trans b (Beyond-read_char (read_char l) b.valid)) (lt_of_ch l v h)

Lexes-string_token : (l : Lexer) → IsValid l → l.ch ≢ 0 → Lexes l (string_token l)
unfolding string_token
Lexes-string_token l v h =
    let (l', b, cases, plain) = read_string_lem l.ch l v in
    elim cases [
      | inl bad ↦ rw bad (λ p. plain p (lt_of_ch l v h) bad)
      | inr (s, good) ↦ rw good (
          Lexes-Beyond TokenType.string l (read_char l')
            (Beyond-trans b (Beyond-read_char l' b.valid)) (lt_of_ch l v h))
    ]

Beyond-Forward : {l l' : Lexer} → Forward l l' → l.pos < l'.pos → Beyond l l'
Beyond-Forward f h = ground arith

letter_ne_zero : (l : Lexer) → is_letter l.ch ≡ true → l.ch ≢ 0
unfolding is_letter
letter_ne_zero l h z = cc (rw z at h)

digit_ne_zero : (l : Lexer) → is_digit l.ch ≡ true → l.ch ≢ 0
unfolding is_digit
digit_ne_zero l h z = cc (rw z at h)

Lexes-word_token : (l : Lexer) → IsValid l → is_letter l.ch ≡ true → Lexes l (word_token l)
unfolding word_token
Lexes-word_token l v h =
    let (s, l', e, f, moved) = read_identifier_lem l v h in
    rw e (
      Lexes-Beyond (lookup_keyword s) l l' (Beyond-Forward f moved)
        (lt_of_ch l v (letter_ne_zero l h)))

Lexes-number_token : (l : Lexer) → IsValid l → is_digit l.ch ≡ true → Lexes l (number_token l)
unfolding number_token
Lexes-number_token l v h =
    let (s, l1, e, f, moved) = read_number_lem l v h in
    let inside = lt_of_ch l v (digit_ne_zero l h) in
    let b = Beyond-Forward f moved in
    rw e (
      if_elim (Lexes l) (is_letter l1.ch)
        (λ unit.
          let (u, l2, e2, f2, moved2) = read_duration_unit_lem l1 f.valid unit in
          rw e2 (
            Lexes-Beyond TokenType.duration l l2
              (Beyond-trans {n = l2} b (Beyond-Forward f2 moved2)) inside))
        (λ _. Lexes-Beyond TokenType.number l l1 b inside))

Lexes-eof :
    (l : Lexer)
    → IsValid l
    → IsValid (read_char l) × ((read_char l).input ≡ l.input) × (left (read_char l) ≤ left l)
Lexes-eof l v =
    (read_char-IsValid l, input-read_char l, rw input-read_char (omega (arith, pos-read_char l v)))

Lexes-other_token : (l : Lexer) → IsValid l → Lexes l (other_token l)
unfolding other_token
Lexes-other_token l v =
    if_elim (Lexes l) (l.ch == b'"' || l.ch == b'\'')
      (λ quote. Lexes-string_token l v (λ z. ground arith))
      (λ _.
        if_elim (Lexes l) (l.ch == 0) (λ _. rw zero-add (Lexes-eof l v))
          (λ more. if_elim (Lexes l) (is_letter l.ch) (Lexes-word_token l v) (λ _.
            if_elim (Lexes l) (is_digit l.ch) (Lexes-number_token l v)
              (λ _. Lexes-one TokenType.illegal l v (λ z. ground arith)))))

abbrev LexesIf : Lexer → Option (Outcome (Token × Lexer)) → Type 0
LexesIf l none = Unit {0}
LexesIf l (some r) = Lexes l r

-- A case of `operator` whose characters are not 0.
Lexes-operator : (l : Lexer) → IsValid l → LexesIf l (operator l)
unfolding operator
Lexes-operator l v =
    if_elim (LexesIf l) (l.ch == b'=')
      (λ c.
        let nonzero : l.ch ≢ 0 = λ z. ground arith in
        if_elim (LexesIf l) (peek_char l == b'~') (λ _. Lexes-two TokenType.match l v nonzero)
          (λ _.
            if_elim (LexesIf l) (peek_char l == b'=')
              (λ _. Lexes-two TokenType.equal_equal l v nonzero)
              (λ _. Lexes-one TokenType.equal l v nonzero)))
      (λ _.
        if_elim (LexesIf l) (l.ch == b'!')
          (λ c.
            let nonzero : l.ch ≢ 0 = λ z. ground arith in
            if_elim (LexesIf l) (peek_char l == b'=')
              (λ _. Lexes-two TokenType.not_equal l v nonzero)
              (λ _.
                if_elim (LexesIf l) (peek_char l == b'~')
                  (λ _. Lexes-two TokenType.not_match l v nonzero)
                  (λ _. Lexes-one TokenType.illegal l v nonzero)))
          (λ _.
            if_elim (LexesIf l) (l.ch == b'<')
              (λ c.
                let nonzero : l.ch ≢ 0 = λ z. ground arith in
                if_elim (LexesIf l) (peek_char l == b'=')
                  (λ _. Lexes-two TokenType.less_equal l v nonzero)
                  (λ _. Lexes-one TokenType.less l v nonzero))
              (λ _.
                if_elim (LexesIf l) (l.ch == b'>')
                  (λ c.
                    let nonzero : l.ch ≢ 0 = λ z. ground arith in
                    if_elim (LexesIf l) (peek_char l == b'=')
                      (λ _. Lexes-two TokenType.greater_equal l v nonzero)
                      (λ _. Lexes-one TokenType.greater l v nonzero))
                  (λ _. tt))))

punctuation_zero : punctuation 0 ≡ none
unfolding punctuation
punctuation_zero = refl

Lexes-otherwise :
    (l : Lexer) (o : Option (Outcome (Token × Lexer)))
    → IsValid l
    → LexesIf l o
    → Lexes l (elim o [ some r ↦ r | none ↦ other_token l ])
Lexes-otherwise l none v h = Lexes-other_token l v
Lexes-otherwise l (some r) v h = h

Lexes-dispatch : (l : Lexer) → IsValid l → Lexes l (dispatch l)
unfolding dispatch
Lexes-dispatch l v = go (punctuation l.ch) refl
  where
    go :
        (o : Option TokenType)
        → punctuation l.ch ≡ o
        → Lexes l (elim o [
          | some t ↦ one t l
          | none ↦ elim (operator l) [ some r ↦ r | none ↦ other_token l ]
        ])
    go (some t) e = Lexes-one t l v (λ z. cc (rw (z, punctuation_zero) at e))
    go none e = Lexes-otherwise l (operator l) v (Lexes-operator l v)

Lexes-later : (l l' : Lexer) (r : Outcome (Token × Lexer)) → Forward l l' → Lexes l' r → Lexes l r
Lexes-later l l' (ok (t, l'')) f (v, i, h) = (v, i ∙ f.same_input, omega (arith, h, left-Forward f))
Lexes-later l l' panic f h = λ p. h (rw f.same_input p)
Lexes-later l l' out_of_fuel f h = h

-- `NextToken` always ends; it leaves a lexer in order, at least one byte further on unless its token
-- is EOF, and it runs into a slice out of bounds only if the input holds a backslash.
pub next_token-Lexes : (l : Lexer) → IsValid l → Lexes l (next_token l)
unfolding next_token
next_token-Lexes l v =
    let (l', e, f) = skip_whitespace_lem (loop_fuel l) l v (omega arith) in
    rw e (Lexes-later l l' (dispatch l') f (Lexes-dispatch l' f.valid))
