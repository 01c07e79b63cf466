-- ===== src/Compaction/Percentile.antt =====
-- pkg/compaction: `CalculatePercentile` of compactor.go and `Percentile` of types.go. The rounding of
-- a float64 to an int is a parameter, `none` where the int is negative; a slice out of bounds panics.
-- The sort is by `<`: that `sort.Float64s` puts NaN first is left out.
use tinyobs.Base.{
  ℕ, zero, suc, ◌-◌, ◌<◌, ◌≡◌, refl, ◌==◌, Bool, false, List, [], ◌∷◌, Option, none, some, length,
  leb, Bool-cases, inl, inr, if◌then◌else◌, arith,
}
use tinyobs.Float.{FloatOps}
use tinyobs.Query.Outcome.{Outcome, ok, panic, ◌>>=◌}

-- `values[i]`
unfoldable pub value_at : {V : Type 0} → List V → Option ℕ → Outcome V
value_at vs none = panic
value_at [] (some i) = panic
value_at (v ∷ vs) (some zero) = ok v
value_at (v ∷ vs) (some (suc i)) = value_at vs (some i)

module _ {V : Type 0} ⦃F : FloatOps V⦄ where
  unfoldable pub insert_value : V → List V → List V
  insert_value v [] = v ∷ []
  insert_value v (w ∷ ws) = if F.lt w v then w ∷ insert_value v ws else v ∷ w ∷ ws

  -- `sort.Float64s`
  unfoldable pub sort_values : List V → List V
  sort_values [] = []
  sort_values (v ∷ vs) = insert_value v (sort_values vs)

  -- `int(_)` behind `math.Floor` and `math.Ceil`
  module _ (floor ceil : V → Option ℕ) where
    same : Option ℕ → Option ℕ → Bool
    same (some a) (some b) = a == b
    same _ _ = false

    abbrev index_of : V → ℕ → V
    index_of p n = F.mul p (F.of_ℕ (n - 1))

    unfoldable pub interpolate : List V → V → Outcome V
    unfolding same
    interpolate sorted index =
        let weight = F.sub index (F.of_ℕ (elim (floor index) [ some i ↦ i | none ↦ 0 ])) in
        if same (floor index) (ceil index)
        then value_at sorted (floor index)
        else (value_at sorted (floor index) >>= λ low. value_at sorted (ceil index) >>= λ high.
            ok (F.add (F.mul low (F.sub (F.of_ℕ 1) weight)) (F.mul high weight)))

    unfoldable pub calculate_percentile : List V → V → Outcome V
    calculate_percentile [] p = ok F.zero_value
    calculate_percentile (v ∷ vs) p =
        interpolate (sort_values (v ∷ vs)) (index_of p (length (v ∷ vs)))

  -- `Percentile`, of `a.Values`; `truncate` is `int(_)`.
  unfoldable pub percentile : (V → Option ℕ) → List V → V → Outcome V
  percentile truncate [] p = ok F.zero_value
  percentile truncate (v ∷ vs) p =
      let n = length (v ∷ vs) in
      value_at (v ∷ vs) (elim (truncate (F.mul p (F.of_ℕ (n - 1)))) [
        | none ↦ none
        | some i ↦ some (if leb n i then n - 1 else i)
      ])

  length-insert_value : (v : V) (vs : List V) → length (insert_value v vs) ≡ suc (length vs)
  unfolding insert_value
  length-insert_value v [] = refl
  length-insert_value v (w ∷ ws) = ground (arith, length-insert_value v ws)

  length-sort_values : (vs : List V) → length (sort_values vs) ≡ length vs
  unfolding sort_values
  length-sort_values [] = refl
  length-sort_values (v ∷ vs) =
      omega (arith, length-insert_value v (sort_values vs), length-sort_values vs)

value_at-some :
    {V : Type 0} (vs : List V) (i : ℕ) → i < length vs → (v : V) × (value_at vs (some i) ≡ ok v)
unfolding value_at
value_at-some [] i h = absurd (omega arith)
value_at-some (v ∷ vs) zero h = (v, refl)
value_at-some (v ∷ vs) (suc i) h = value_at-some vs i (omega arith)

module _ {V : Type 0} ⦃F : FloatOps V⦄ (floor ceil : V → Option ℕ) where
  -- A percentile of some values does not panic if its index is rounded to positions among them.
  pub calculate_percentile_ok :
      (v : V) (vs : List V) (p : V) (low high : ℕ)
      → (let index = F.mul p (F.of_ℕ (length (v ∷ vs) - 1)) in
          (floor index ≡ some low) × (ceil index ≡ some high))
      → low < suc (length vs)
      → high < suc (length vs)
      → (w : V) × (calculate_percentile floor ceil (v ∷ vs) p ≡ ok w)
  unfolding calculate_percentile interpolate same
  calculate_percentile_ok v vs p low high (f, c) l h =
      let index = F.mul p (F.of_ℕ (length (v ∷ vs) - 1)) in
      let weight = F.sub index (F.of_ℕ low) in
      let sorted = sort_values (v ∷ vs) in
      let (a, ea) = value_at-some sorted low (omega (arith, l, length-sort_values (v ∷ vs))) in
      let (b, eb) = value_at-some sorted high (omega (arith, h, length-sort_values (v ∷ vs))) in
      elim (Bool-cases (low == high)) [
        | inl equal ↦ (a, rw (f, c, equal) ea)
        | inr apart ↦ (
          F.add (F.mul a (F.sub (F.of_ℕ 1) weight)) (F.mul b weight),
          rw (f, c, apart, ea, eb) refl,
        )
      ]
