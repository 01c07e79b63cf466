-- ===== src/Float.antt =====
-- Values of type float64. Floating point is not modelled: the type and its operations are a
-- parameter of the model: the operations of Go and of its packages math, strconv and fmt that the
-- code uses.
pub mod Order
use tinyobs.Base.{ℕ, Bool, Bytes, Option}

pub record FloatOps (V : Type 0) : Type 0 where
  pub zero_value : V
  pub nan : V
  pub add : V → V → V
  pub sub : V → V → V
  pub mul : V → V → V
  pub div : V → V → V
  pub neg : V → V
  -- `math.Pow` and `math.Mod`
  pub pow : V → V → V
  pub fmod : V → V → V
  -- `<` and `==`
  pub lt : V → V → Bool
  pub eq : V → V → Bool
  -- `float64(n)`
  pub of_ℕ : ℕ → V
  -- `time.Duration.Seconds`, of the bit pattern
  pub seconds : ℕ → V
  -- the first result of `strconv.ParseFloat(s, 64)`
  pub parse_float : Bytes → V
  -- `fmt.Sprintf("%f", v)` and `fmt.Sscanf(s, "%f", &v)`
  pub format_float : V → Bytes
  pub scan_float : Bytes → Option V
