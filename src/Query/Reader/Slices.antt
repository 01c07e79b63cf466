-- ===== src/Query/Reader/Slices.antt =====
-- pkg/query/lexer.go: the texts that the methods of the lexer return are slices of its input.
use mathlib.Core.Path.{subst}
use tinyobs.Base.{
  ℕ, zero, suc, ◌+◌, ◌-◌, ◌≤◌, ◌<◌, ◌≡◌, refl, inl, inr, sym, ap, ◌∙◌, true, Bytes, [], ◌∷◌, ◌++◌,
  ◌&&◌, length, get_or, take, drop, leb, Bool-cases, arith,
}
use tinyobs.Query.Outcome.{Outcome, ok, panic, out_of_fuel, ◌>>=◌}
use tinyobs.Query.Reader.{
  Lexer, loop_fuel, slice, skip_while, in_number, read_fraction, read_exponent, read_identifier,
  read_number, read_duration_unit, read_string,
}

-- Slices of one and of two bytes, and of two slices that meet.
pub take_one : (s : Bytes) (i : ℕ) → i < length s → take 1 (drop i s) ≡ get_or s i 0 ∷ []
take_one [] i h = absurd (omega (arith, h))
take_one (c ∷ s) zero h = refl
take_one (c ∷ s) (suc i) h = take_one s i (omega (arith, h))

pub take_two :
    (s : Bytes) (i : ℕ)
    → suc i < length s
    → take 2 (drop i s) ≡ get_or s i 0 ∷ get_or s (suc i) 0 ∷ []
take_two [] i h = absurd (omega (arith, h))
take_two (c ∷ []) zero h = absurd (omega (arith, h))
take_two (c ∷ d ∷ s) zero h = refl
take_two (c ∷ s) (suc i) h = take_two s i (omega (arith, h))

pub slice_of :
    (s : Bytes) (i j n : ℕ) → j ≡ i + n → j ≤ length s → slice s i j ≡ ok (take n (drop i s))
unfolding slice
slice_of s i j n e h =
    let size : j - i ≡ n = omega (arith, e) in
    let low : leb i j ≡ true = ground (arith, e) in
    let high : leb j (length s) ≡ true = ground (arith, h) in rw (low, high, size) refl

take-add : (n m : ℕ) (s : Bytes) → take n s ++ take m (drop n s) ≡ take (n + m) s
take-add zero m s = ap (λ k. take k s) (omega arith)
take-add (suc n) m [] = go m (suc n + m)
  where
    go : (k j : ℕ) → take k [] ≡ take {A = ℕ} j []
    go zero zero = refl
    go zero (suc j) = refl
    go (suc k) zero = refl
    go (suc k) (suc j) = refl
take-add (suc n) m (c ∷ s) =
    ap (◌∷◌ c) (take-add n m s)
    ∙ ap (λ k. take k (c ∷ s)) (let e : suc (n + m) ≡ suc n + m = omega arith in e)

drop-add : (a n : ℕ) (s : Bytes) → drop n (drop a s) ≡ drop (a + n) s
drop-add zero n s = ap (λ k. drop k s) (omega arith)
drop-add (suc a) n [] = go n (suc a + n)
  where
    go : (k j : ℕ) → drop k [] ≡ drop {A = ℕ} j []
    go zero zero = refl
    go zero (suc j) = refl
    go (suc k) zero = refl
    go (suc k) (suc j) = refl
drop-add (suc a) n (c ∷ s) =
    drop-add a n s ∙ ap (λ k. drop k (c ∷ s)) (let e : suc (a + n) ≡ suc a + n = omega arith in e)

slice_inside :
    (s t : Bytes) (i j : ℕ)
    → slice s i j ≡ ok t
    → (i ≤ j) × (j ≤ length s) × (take (j - i) (drop i s) ≡ t)
unfolding slice
slice_inside s t i j h = elim (Bool-cases (leb i j && leb j (length s))) [
  | inl fits ↦ (ground arith, ground arith, (let e = rw fits at h in cc))
  | inr over ↦ absurd (let e = rw over at h in cc)
]

pub slice-append :
    (s t u : Bytes) (a b c : ℕ)
    → slice s a b ≡ ok t
    → slice s b c ≡ ok u
    → slice s a c ≡ ok (t ++ u)
slice-append s t u a b c h k =
    let (ab, _, left) = slice_inside s t a b h in
    let (bc, inside, right) = slice_inside s u b c k in
    let e : a + (b - a) ≡ b = omega (arith, ab) in
    let same : drop (b - a) (drop a s) ≡ drop b s = drop-add a (b - a) s ∙ ap (λ k. drop k s) e in
    let joined : take ((b - a) + (c - b)) (drop a s) ≡ t ++ u =
      sym (take-add (b - a) (c - b) (drop a s))
      ∙ ap (λ x. take (b - a) (drop a s) ++ take (c - b) x) same
      ∙ ap (λ x. x ++ take (c - b) (drop b s)) left
      ∙ ap (λ x. t ++ x) right in
    slice_of s a c ((b - a) + (c - b)) (omega (arith, ab, bc)) inside ∙ ap ok joined

-- Inversion of a step that has a result.
bind_ok :
    {A B : Type 0} (m : Outcome A) (f : A → Outcome B) {b : B}
    → (m >>= f) ≡ ok b
    → (a : A) × (m ≡ ok a) × (f a ≡ ok b)
bind_ok (ok a) f h = (a, refl, h)
bind_ok panic f h = absurd cc
bind_ok out_of_fuel f h = absurd cc

-- What a method that ends with a slice has read.
abbrev pack : Lexer → Bytes → Outcome (Bytes × Lexer)
pack l1 s = ok (s, l1)

abbrev cut_from : ℕ → Lexer → Outcome (Bytes × Lexer)
cut_from i l1 = slice l1.input i l1.pos >>= pack l1

cut_from-ok :
    (i : ℕ) (l1 : Lexer) {s : Bytes} {l' : Lexer}
    → cut_from i l1 ≡ ok (s, l')
    → slice l'.input i l'.pos ≡ ok s
cut_from-ok i l1 h = go (slice l1.input i l1.pos) refl h
  where
    go :
        {s : Bytes} {l' : Lexer} (o : Outcome Bytes)
        → slice l1.input i l1.pos ≡ o
        → (o >>= pack l1) ≡ ok (s, l')
        → slice l'.input i l'.pos ≡ ok s
    go {s = s} {l' = l'} (ok t) e h =
        let at : l1 ≡ l' = cc in
        let same : t ≡ s = cc in subst (λ l. slice l.input i l.pos ≡ ok s) at (e ∙ ap ok same)
    go panic e h = absurd cc
    go out_of_fuel e h = absurd cc

pub read_identifier-ok :
    (l : Lexer) {s : Bytes} {l' : Lexer}
    → read_identifier l ≡ ok (s, l')
    → slice l'.input l.pos l'.pos ≡ ok s
unfolding read_identifier
read_identifier-ok l h = (let (l1, _, e) = bind_ok _ (cut_from l.pos) h in cut_from-ok l.pos l1 e)

pub read_duration_unit-ok :
    (l : Lexer) {s : Bytes} {l' : Lexer}
    → read_duration_unit l ≡ ok (s, l')
    → slice l'.input l.pos l'.pos ≡ ok s
unfolding read_duration_unit
read_duration_unit-ok l h =
    (let (l1, _, e) = bind_ok _ (cut_from l.pos) h in cut_from-ok l.pos l1 e)

pub read_number-ok :
    (l : Lexer) {s : Bytes} {l' : Lexer}
    → read_number l ≡ ok (s, l')
    → slice l'.input l.pos l'.pos ≡ ok s
unfolding read_number
read_number-ok l h =
    let (l1, _, e1) =
      bind_ok (skip_while (loop_fuel l) in_number l)
        (λ l1. read_fraction l1 >>= λ l2. read_exponent l2 >>= cut_from l.pos) h in
    let (l2, _, e2) = bind_ok (read_fraction l1) (λ l2. read_exponent l2 >>= cut_from l.pos) e1 in
    let (l3, _, e3) = bind_ok (read_exponent l2) (cut_from l.pos) e2 in cut_from-ok l.pos l3 e3

pub read_string-ok :
    (quote : ℕ) (l : Lexer) {s : Bytes} {l' : Lexer}
    → read_string quote l ≡ ok (s, l')
    → slice l'.input (l.pos + 1) l'.pos ≡ ok s
unfolding read_string
read_string-ok quote l h =
    let (l1, _, e) = bind_ok _ (cut_from (l.pos + 1)) h in cut_from-ok (l.pos + 1) l1 e
