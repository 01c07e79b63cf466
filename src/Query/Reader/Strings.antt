-- ===== src/Query/Reader/Strings.antt =====
-- Quoted strings: the loop ends within its fuel, and it passes the end of the input only behind a
-- backslash.
use tinyobs.Base.{
  ℕ, zero, suc, ◌+◌, ◌-◌, take, drop, leb, ◌&&◌, ◌≤◌, ◌<◌, ◌≡◌, ◌≢◌, ◌⊎◌, inl, inr, Bytes, ◌||◌,
  length, get_or, ◌==◌, Bool-cases, arith,
}
use tinyobs.Query.Outcome.{ok, panic}
use tinyobs.Query.Reader.Loops.{
  IsValid, left, pos-read_char, read_char-IsValid, input-read_char, lt_of_ch,
}
use tinyobs.Query.Reader.Words.{slice_ok}
use tinyobs.Query.Reader.{
  Lexer, read_char, loop_fuel, slice, after_escape, string_loop, read_string,
}

-- `l'` stands further on in the same input, perhaps behind its end.
pub record Beyond (l l' : Lexer) : Type 0 where
  pub valid : IsValid l'
  pub same_input : l'.input ≡ l.input
  pub further : l.pos < l'.pos

pub Beyond-read_char : (l : Lexer) → IsValid l → Beyond l (read_char l)
Beyond-read_char l v = record {
  valid = read_char-IsValid l;
  same_input = input-read_char l;
  further = omega (arith, pos-read_char l v);
}

pub Beyond-trans : {l m n : Lexer} → Beyond l m → Beyond m n → Beyond l n
Beyond-trans f g = ground arith

-- No backslash anywhere.
abbrev pub IsPlain : Bytes → Type 0
IsPlain s = (i : ℕ) → get_or s i 0 ≢ b'\\'

Beyond-after_escape : (l l1 : Lexer) → Beyond l l1 → Beyond l (after_escape l1)
unfolding after_escape
Beyond-after_escape l l1 b = elim (Bool-cases (l1.ch == b'\\')) [
  | inl escape ↦ rw escape (Beyond-trans b (Beyond-read_char l1 b.valid))
  | inr plain ↦ rw plain b
]

-- Without a backslash at hand the loop stays where it is.
after_escape_plain : (l : Lexer) → IsValid l → IsPlain l.input → after_escape l ≡ l
unfolding after_escape
after_escape_plain l v plain = ground (arith, plain l.pos)

left-Beyond :
    (l l1 l2 : Lexer) → Beyond l l1 → Beyond l l2 → l1.pos < length l1.input → left l2 < left l
left-Beyond l l1 l2 b c h =
    rw c.same_input (omega (arith, b.further, c.further, rw b.same_input at h))

bound_step :
    (l l1 l' : Lexer)
    → Beyond l l1
    → l1.pos < length l1.input
    → (IsPlain (after_escape l1).input
        → (after_escape l1).pos < length (after_escape l1).input
        → l'.pos ≤ length (after_escape l1).input)
    → IsPlain l.input
    → l'.pos ≤ length l.input
bound_step l l1 l' b inside bound plain =
    let plain1 : IsPlain l1.input = rw b.same_input plain in
    rw (← b.same_input) (rw (after_escape_plain l1 b.valid plain1) at bound plain1 inside)

pub string_loop_lem :
    (f quote : ℕ) (l : Lexer)
    → IsValid l
    → left l < f
    → (l' : Lexer) × (string_loop f quote l ≡ ok l')
      × Beyond l l'
      × (IsPlain l.input → l.pos < length l.input → l'.pos ≤ length l.input)
unfolding string_loop
string_loop_lem zero quote l v h = absurd (omega arith)
string_loop_lem (suc f) quote l v h = elim (Bool-cases (l1.ch == quote || l1.ch == 0)) [
  | inl stop ↦ (l1, rw stop, b, λ _ inside. omega (arith, pos-read_char l v))
  | inr go ↦
      let inside = lt_of_ch l1 b.valid (λ z. ground arith) in
      let (l', e, c, bound) =
        string_loop_lem f quote (after_escape l1) b2.valid
          (omega (arith, left-Beyond l l1 (after_escape l1) b b2 inside)) in
      (l', rw go e, Beyond-trans b2 c, λ plain _. bound_step l l1 l' b inside bound plain)
]
  where
    l1 : Lexer
    l1 = read_char l

    b : Beyond l l1
    b = Beyond-read_char l v

    b2 : Beyond l (after_escape l1)
    b2 = Beyond-after_escape l l1 b

-- What `readString` returns where its loop ends at `l'`.
cut_string :
    (quote : ℕ) (l l' : Lexer)
    → string_loop (loop_fuel l) quote l ≡ ok l'
    → Beyond l l'
    → (read_string quote l ≡ panic) ⊎ ((s : Bytes) × (read_string quote l ≡ ok (s, l')))
unfolding read_string slice
cut_string quote l l' e b =
    elim (Bool-cases (leb (l.pos + 1) l'.pos && leb l'.pos (length l'.input))) [
      | inl good ↦ inr (take (l'.pos - (l.pos + 1)) (drop (l.pos + 1) l'.input), rw (e, good))
      | inr bad ↦ inl (rw (e, bad))
    ]

cut_string_plain :
    (quote : ℕ) (l l' : Lexer)
    → string_loop (loop_fuel l) quote l ≡ ok l'
    → Beyond l l'
    → l'.pos ≤ length l.input
    → read_string quote l ≢ panic
unfolding read_string
cut_string_plain quote l l' e b bound bad =
    let (s, cut) =
      slice_ok l'.input (l.pos + 1) l'.pos (omega (arith, b.further)) (rw b.same_input bound) in
    cc (rw (e, cut) at bad)

pub read_string_lem :
    (quote : ℕ) (l : Lexer)
    → IsValid l
    → (l' : Lexer) × Beyond l l'
      × ((read_string quote l ≡ panic) ⊎ ((s : Bytes) × (read_string quote l ≡ ok (s, l'))))
      × (IsPlain l.input → l.pos < length l.input → read_string quote l ≢ panic)
read_string_lem quote l v =
    let (l', e, b, bound) = string_loop_lem (loop_fuel l) quote l v (omega arith) in
    (
      l',
      b,
      cut_string quote l l' e b,
      λ plain inside. cut_string_plain quote l l' e b (bound plain inside),
    )
