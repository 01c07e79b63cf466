-- ===== src/Tests/Data.antt =====
-- A concrete float64 for the tests: the natural numbers, with decimal texts.
use tinyobs.Base.{ℕ, ◌+◌, ◌-◌, ◌*◌, ◌/◌, ◌%◌, ◌^◌, [], ◌∷◌, Bytes, some, ltb, ◌==◌}
use tinyobs.Float.{FloatOps}

abbrev pub digits_value : ℕ → Bytes → ℕ
digits_value n [] = n
digits_value n (c ∷ s) = digits_value (n * 10 + (c - b'0')) s

instance abbrev pub ℕ_ops : FloatOps ℕ
ℕ_ops = record {
  zero_value = 0;
  nan = 999;
  add = λ a b. a + b;
  sub = λ a b. a - b;
  mul = λ a b. a * b;
  div = λ a b. a / b;
  neg = λ a. a;
  pow = λ a b. a ^ b;
  fmod = λ a b. a % b;
  lt = λ a b. ltb a b;
  eq = λ a b. a == b;
  of_ℕ = λ a. a;
  seconds = λ d. d / 1_000_000_000;
  parse_float = digits_value 0;
  format_float = λ a. a ∷ [];
  scan_float = λ s. some (digits_value 0 s);
}
