-- ===== src/Query/Reader/Loops.antt =====
-- The loops of the lexer end within their fuel, inside the input.
use tinyobs.Base.{
  ℕ, zero, suc, ◌-◌, ◌≤◌, ◌<◌, ◌≡◌, refl, ◌≢◌, ◌⊎◌, inl, inr, Bool, true, false, Bytes, [], ◌∷◌,
  length, get_or, ◌==◌, Bool-cases, arith,
}
use tinyobs.Query.Outcome.{ok}
use tinyobs.Query.Reader.{
  Lexer, read_char, skip_while, skip_whitespace, loop_fuel, is_blank, in_comment,
}

-- The character at hand is the one at `pos`, or 0 behind the end.
pub record IsValid (l : Lexer) : Type 0 where
  pub at_pos : l.ch ≡ get_or l.input l.pos 0
  pub reads_next : l.read_pos ≡ suc l.pos

-- `l'` stands further on in the same input than `l`, and behind its end only if `l` does.
pub record Forward (l l' : Lexer) : Type 0 where
  pub valid : IsValid l'
  pub same_input : l'.input ≡ l.input
  pub onward : l.pos ≤ l'.pos
  pub inside : (l'.pos ≤ l.pos) ⊎ (l'.pos ≤ length l.input)

-- The bytes not yet passed.
abbrev pub left : Lexer → ℕ
left l = length l.input - l.pos

get_or_past_end : (s : Bytes) (i : ℕ) → length s ≤ i → get_or s i 0 ≡ 0
get_or_past_end [] i h = refl
get_or_past_end (c ∷ s) zero h = absurd (omega arith)
get_or_past_end (c ∷ s) (suc i) h = get_or_past_end s i (omega arith)

pub read_char-IsValid : (l : Lexer) → IsValid (read_char l)
unfolding read_char
read_char-IsValid l = ground (arith, get_or_past_end l.input l.read_pos)

pub pos-read_char : (l : Lexer) → IsValid l → (read_char l).pos ≡ suc l.pos
unfolding read_char
pos-read_char l v = v.reads_next

pub input-read_char : (l : Lexer) → (read_char l).input ≡ l.input
unfolding read_char
input-read_char l = refl

length-read_char : (l : Lexer) → length (read_char l).input ≡ length l.input
length-read_char l = rw input-read_char

-- A character other than 0 lies inside the input.
pub lt_of_ch : (l : Lexer) → IsValid l → l.ch ≢ 0 → l.pos < length l.input
lt_of_ch l v h = ground (arith, get_or_past_end l.input l.pos)

pub Forward-refl : (l : Lexer) → IsValid l → Forward l l
Forward-refl l v = ground arith

pub Forward-trans : {l m n : Lexer} → Forward l m → Forward m n → Forward l n
Forward-trans f g = ground arith

pub Forward-read_char : (l : Lexer) → IsValid l → l.ch ≢ 0 → Forward l (read_char l)
Forward-read_char l v h =
    ground (arith, read_char-IsValid l, pos-read_char l v, input-read_char l, lt_of_ch l v h)

pub skip_while_lem :
    (f : ℕ) (test : ℕ → Bool) (l : Lexer)
    → test 0 ≡ false
    → IsValid l
    → left l < f
    → (l' : Lexer) × (skip_while f test l ≡ ok l')
      × Forward l l'
      × (test l'.ch ≡ false)
      × (test l.ch ≡ true → l.pos < l'.pos)
unfolding skip_while
skip_while_lem zero test l t v h = absurd (omega arith)
skip_while_lem (suc f) test l t v h = elim (Bool-cases (test l.ch)) [
  | inl go ↦
      let ne : l.ch ≢ 0 = λ e. cc in
      let step = Forward-read_char l v ne in
      let moved = pos-read_char l v in
      let inside = lt_of_ch l v ne in
      let (l', e, fwd, done, _) =
        skip_while_lem f test (read_char l) t step.valid
          (omega (arith, step, moved, inside, length-read_char l)) in
      (l', rw go e, Forward-trans step fwd, done, λ _. omega (arith, fwd.onward, moved))
  | inr stop ↦ (l, rw stop, Forward-refl l v, stop, λ go. cc)
]

pub left-Forward : {l l' : Lexer} → Forward l l' → left l' ≤ left l
left-Forward {l} {l'} f = rw f.same_input (omega (arith, f.onward))

pub left_strict :
    {l l' : Lexer} → Forward l l' → l.pos < l'.pos → l.pos < length l.input → left l' < left l
left_strict {l} {l'} f a b = rw f.same_input (omega (arith, a, b))

pub skip_whitespace_lem :
    (f : ℕ) (l : Lexer)
    → IsValid l
    → left l < f
    → (l' : Lexer) × (skip_whitespace f l ≡ ok l') × Forward l l'
unfolding skip_whitespace
skip_whitespace_lem zero l v h = absurd (omega arith)
skip_whitespace_lem (suc f) l v h =
    let (l1, e1, f1, _, _) = skip_while_lem (loop_fuel l) is_blank l refl v (omega arith) in
    rw e1 (elim (Bool-cases (l1.ch == b'#')) [
      | inl hash ↦
          let (l2, e2, f2, _, moved) =
            skip_while_lem (loop_fuel l1) in_comment l1 refl f1.valid (omega arith) in
          let inside = lt_of_ch l1 f1.valid (λ e. ground arith) in
          let shorter = left_strict {l' = l2} f2 (moved (ground arith)) inside in
          let (l3, e3, f3) =
            skip_whitespace_lem f l2 f2.valid (omega (arith, shorter, left-Forward f1)) in
          (l3, rw (hash, e2) e3, Forward-trans {n = l3} f1 (Forward-trans {m = l2} {n = l3} f2 f3))
      | inr no_hash ↦ (l1, rw no_hash, f1)
    ])

-- The fuel of a loop that starts at `l` serves one that starts further on.
pub left-lt-loop_fuel : {l l' : Lexer} → Forward l l' → left l' < loop_fuel l
left-lt-loop_fuel f = omega (arith, left-Forward f)
