-- ===== src/Query/Executor/Evaluation/Steps.antt =====
-- pkg/query/executor.go: the loop of `executeNumberLiteral`.
use tinyobs.Base.{
  ℕ, zero, suc, ◌+◌, ◌^◌, ◌≤◌, ◌<◌, ◌≡◌, refl, List, [], ◌∷◌, none, some, true, false, ap, ◌∙◌, ltb,
  ltb→lt, ltb_false→le, Bool-cases, inl, inr, arith,
}
use tinyobs.Metric.{Time}
use tinyobs.Query.Executor.Evaluation.{number_points}
use tinyobs.Query.Executor.Rate.{add_duration}
use tinyobs.Query.Executor.Series.{Point}

module _ {V : Type 0} (v : V) where
  -- The points `v` at `t`, `t + step` and so on up to the end of the range.
  abbrev pub IsSteps : Time → Time → ℕ → List (Point V) → Type 0
  IsSteps t stop step [] = stop < t
  IsSteps t stop step (p ∷ ps) =
      (p.time ≡ t) × (p.value ≡ v) × (t ≤ stop) × IsSteps (t + step) stop step ps

  add_step : (t : Time) (step : ℕ) → step < 2 ^ 63 → add_duration t step ≡ t + step
  unfolding add_duration
  add_step t step h = ground arith

  number_points-more :
      (f : ℕ) (t stop : Time) (step : ℕ) (ps : List (Point V))
      → ltb stop t ≡ false
      → number_points f (add_duration t step) stop step v ≡ some ps
      → number_points (suc f) t stop step v ≡ some (record { time = t; value = v } ∷ ps)
  unfolding number_points
  number_points-more f t stop step ps more e = rw (more, e) refl

  -- With a positive step, of less than 2^63, the loop of `executeNumberLiteral` ends: a fuel of
  -- one more than the nanoseconds from the start to behind the end is enough. It has then made a
  -- point with the value at the start and at each further step, up to the end.
  pub number_points_ends :
      (f : ℕ) (t stop : Time) (step : ℕ)
      → 0 < step
      → step < 2 ^ 63
      → stop < t + f
      → (ps : List (Point V)) × (number_points (suc f) t stop step v ≡ some ps)
        × IsSteps t stop step ps
  unfolding number_points
  number_points_ends zero t stop step pos small h =
      let past : ltb stop t ≡ true = ground arith in ([], rw past refl, omega (arith, h))
  number_points_ends (suc f) t stop step pos small h = elim (Bool-cases (ltb stop t)) [
    | inl past ↦ ([], rw past refl, ltb→lt stop t past)
    | inr more ↦
        let (ps, e, steps) = number_points_ends f (t + step) stop step pos small (omega arith) in
        (
          record { time = t; value = v } ∷ ps,
          number_points-more (suc f) t stop step ps more
              (ap (λ u. number_points (suc f) u stop step v) (add_step t step small) ∙ e),
          (refl, refl, ltb_false→le stop t more, steps),
        )
  ]

  -- With a step of zero the loop never ends if the range is not empty: no fuel is enough.
  pub number_points_stuck :
      (fuel : ℕ) (t stop : Time) → t ≤ stop → number_points fuel t stop 0 v ≡ none
  unfolding number_points add_duration
  number_points_stuck zero t stop h = refl
  number_points_stuck (suc f) t stop h = ground (arith, number_points_stuck f t stop h)
