-- ===== src/Query/Termination/Rules.antt =====
-- How many tokens the parser can still take, and rules for the steps of its monad.
use tinyobs.Base.{
  ℕ, suc, ◌+◌, ◌-◌, ◌≤◌, ◌<◌, ◌≡◌, refl, ◌∙◌, Bool, true, false, Bytes, if◌then◌else◌, arith,
}
use tinyobs.Query.Lexer.Progress.{weight, Lexes, next_token-Lexes}
use tinyobs.Query.Lexer.{next_token}
use tinyobs.Query.Outcome.{Outcome, ok, panic, out_of_fuel}
use tinyobs.Query.Parser.State.{Parser, M, ◌>>=◌, advance}
use tinyobs.Query.Reader.Loops.{IsValid, left}
use tinyobs.Query.Reader.Strings.{IsPlain}
use tinyobs.Query.Reader.{Lexer}
use tinyobs.Query.Tokens.{Token}

-- The bytes not yet read and the tokens at hand.
abbrev pub measure : Parser → ℕ
measure p = left p.lexer + weight p.peek.type + weight p.current.type

-- A parser of input `s` with at most `b` tokens to come.
pub record Ready (s : Bytes) (b : ℕ) (p : Parser) : Type 0 where
  pub valid : IsValid p.lexer
  pub reads : p.lexer.input ≡ s
  pub bound : measure p ≤ b

-- A result that leaves at most `b` tokens; a panic needs a backslash.
abbrev pub Good : {A : Type 0} → Bytes → ℕ → Outcome (A × Parser) → Type 0
Good s b (ok (a, p)) = Ready s b p
Good s b panic = ¬ (IsPlain s)
Good s b out_of_fuel = ⊥

pub Ready-mono : {s : Bytes} {b c : ℕ} {p : Parser} → Ready s b p → b ≤ c → Ready s c p
Ready-mono r h = record { valid = r.valid; reads = r.reads; bound = omega (arith, r.bound) }

Good-next :
    (s : Bytes) (b c : ℕ) (p : Parser) (r : Outcome (Token × Lexer))
    → Ready s b p
    → b ≤ weight p.current.type + c
    → Lexes p.lexer r
    → Good s c (elim r [
      | ok (t, l) ↦ ok (tt, record { lexer = l; current = p.peek; peek = t })
      | panic ↦ panic
      | out_of_fuel ↦ out_of_fuel
    ])
Good-next s b c p (ok (t, l)) r h (v, i, d) = record {
  valid = v;
  reads = i ∙ r.reads;
  bound = omega (arith, r.bound);
}
Good-next s b c p panic r h d = rw (← r.reads) d
Good-next s b c p out_of_fuel r h d = d

pub Good-advance :
    (s : Bytes) (b c : ℕ) (p : Parser)
    → Ready s b p
    → b ≤ weight p.current.type + c
    → Good s c (advance p)
unfolding advance
Good-advance s b c p r h =
    Good-next s b c p (next_token p.lexer) r h (next_token-Lexes p.lexer r.valid)

pub Good-bind :
    {A B : Type 0} (s : Bytes) (b c : ℕ) (m : M A) (f : A → M B) (p : Parser)
    → Good s b (m p)
    → ((a : A) (p' : Parser) → Ready s b p' → Good s c (f a p'))
    → Good s c ((m >>= f) p)
Good-bind {A} s b c m f p g k = go (m p) g
  where
    go :
        (r : Outcome (A × Parser))
        → Good s b r
        → Good s c (elim r [ ok (a, p') ↦ f a p' | panic ↦ panic | out_of_fuel ↦ out_of_fuel ])
    go (ok (a, p')) g = k a p' g
    go panic g = g
    go out_of_fuel g = g

-- To pass a token that is not EOF leaves fewer.
pub Good-step :
    {B : Type 0} (s : Bytes) (f b : ℕ) (k : M B) (p : Parser)
    → Ready s b p
    → weight p.current.type ≡ 1
    → b < suc f
    → ((c : ℕ) (p' : Parser) → c < f → c ≤ b → Ready s c p' → Good s b (k p'))
    → Good s b ((advance >>= λ _. k) p)
Good-step s f b k p r w h next =
    Good-bind s (b - 1) b advance (λ _. k) p (Good-advance s b (b - 1) p r (omega (arith, r.bound)))
      (λ _ p' r'. next (b - 1) p' (omega (arith, r.bound)) (omega arith) r')

pub Good-if :
    {A : Type 0} (s : Bytes) (b : ℕ) (test : Bool) (x y : M A) (p : Parser)
    → (test ≡ true → Good s b (x p))
    → (test ≡ false → Good s b (y p))
    → Good s b ((if test then x else y) p)
Good-if s b true x y p f g = f refl
Good-if s b false x y p f g = g refl

pub Good-mono :
    {A : Type 0} (s : Bytes) (b c : ℕ) (r : Outcome (A × Parser)) → b ≤ c → Good s b r → Good s c r
Good-mono s b c (ok (a, p)) h g = Ready-mono g h
Good-mono s b c panic h g = g
Good-mono s b c out_of_fuel h g = g
