-- ===== src/Float/Order.antt =====
-- What the proofs use of `<` on float64, and the updates of a minimum and a maximum.
use tinyobs.Base.{◌≡◌, Bool, true, false, if◌then◌else◌, Bool-cases, inl, inr}

-- `<` on float64, NaN included, is irreflexive and transitive.
pub record IsStrictOrder {V : Type 0} (lt : V → V → Bool) : Type 0 where
  pub irrefl : (a : V) → lt a a ≡ false
  pub trans : (a b c : V) → lt a b ≡ true → lt b c ≡ true → lt a c ≡ true

module _ {V : Type 0} {lt : V → V → Bool} (order : IsStrictOrder lt) where
  -- A lower bound stays one when it is lowered to a smaller value.
  pub lt_lowered : (w v b : V) → lt w b ≡ false → lt w (if lt v b then v else b) ≡ false
  lt_lowered w v b h = elim (Bool-cases (lt v b)) [
    | inr keep ↦ rw keep h
    | inl lower ↦ rw lower (elim (Bool-cases (lt w v)) [
      | inr fine ↦ fine
      | inl below ↦ absurd (cc (order.trans w v b below lower))
    ])
  ]

  pub lt_raised : (w v b : V) → lt b w ≡ false → lt (if lt b v then v else b) w ≡ false
  lt_raised w v b h = elim (Bool-cases (lt b v)) [
    | inr keep ↦ rw keep h
    | inl raise ↦ rw raise (elim (Bool-cases (lt v w)) [
      | inr fine ↦ fine
      | inl above ↦ absurd (cc (order.trans b v w raise above))
    ])
  ]

  pub lt_own_min : (v b : V) → lt v (if lt v b then v else b) ≡ false
  lt_own_min v b = elim (Bool-cases (lt v b)) [
    | inl lower ↦ rw lower (order.irrefl v)
    | inr keep ↦ rw keep keep
  ]

  pub lt_own_max : (v b : V) → lt (if lt b v then v else b) v ≡ false
  lt_own_max v b = elim (Bool-cases (lt b v)) [
    | inl raise ↦ rw raise (order.irrefl v)
    | inr keep ↦ rw keep keep
  ]
