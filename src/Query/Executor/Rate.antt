-- ===== src/Query/Executor/Rate.antt =====
-- pkg/query/executor.go, `executeRate` and `executeIncrease`, behind the evaluation of the range
-- selector: the points of one series in, its rates out.
use tinyobs.Base.{
  ℕ, ◌+◌, ◌-◌, ◌^◌, ◌≤◌, ◌≡◌, refl, ap, true, List, [], ◌∷◌, ◌++◌, map, ltb, leb, if◌then◌else◌,
  Bool-cases, inl, inr, arith,
}
use tinyobs.Float.{FloatOps}
use tinyobs.Metric.{Time}
use tinyobs.Query.Executor.Series.{Point, TimeSeries}

-- `t.Add(d)` and `t.Add(-d)` for the bit pattern of a Duration.
unfoldable pub add_duration : Time → ℕ → Time
add_duration t d = if ltb d (2 ^ 63) then t + d else t - (2 ^ 64 - d)

unfoldable pub sub_duration : Time → ℕ → Time
sub_duration t d = if leb d (2 ^ 63) then t - d else t + (2 ^ 64 - d)

module _ {V : Type 0} where
  -- The loop that advances `startIdx`, on the points from `startIdx` to `i`.
  unfoldable pub slide : Time → List (Point V) → List (Point V)
  slide t [] = []
  slide t (p ∷ []) = p ∷ []
  slide t (p ∷ q ∷ w) = let rest = slide t (q ∷ w) in if ltb q.time t then rest else p ∷ q ∷ w

module _ {V : Type 0} ⦃F : FloatOps V⦄ where
  -- The rate at the last point of the window `p`, if the window reaches back far enough.
  unfoldable pub rate_at : Time → ℕ → Point V → List (Point V) → List (Point V)
  rate_at range_start d p (q ∷ _ ∷ _) =
      let rate = F.div (F.sub p.value q.value) (F.seconds d) in
      if ltb range_start q.time
      then []
      else record { time = p.time; value = if F.lt rate F.zero_value then F.zero_value else rate }
        ∷ []
  rate_at range_start d p _ = []

  -- The loop over the points; `w` has the points from `startIdx` up to the last round.
  unfoldable pub rate_loop : ℕ → List (Point V) → List (Point V) → List (Point V)
  rate_loop d w [] = []
  rate_loop d w (p ∷ ps) =
      let range_start = sub_duration p.time d in
      let w' = slide range_start (w ++ p ∷ []) in rate_at range_start d p w' ++ rate_loop d w' ps

  unfoldable pub rate_series : ℕ → TimeSeries V → TimeSeries V
  rate_series d ts = record ts { points = rate_loop d [] ts.points }

  -- `rate() * duration`
  unfoldable pub increase_series : ℕ → TimeSeries V → TimeSeries V
  increase_series d ts = record ts {
    points = map (λ (p : Point V). record p { value = F.mul p.value (F.seconds d) }) ts.points;
  }

  -- The rates with the window searched from the first point on at each point.
  unfoldable pub rate_reference : ℕ → List (Point V) → List (Point V) → List (Point V)
  rate_reference d before [] = []
  rate_reference d before (p ∷ ps) =
      let range_start = sub_duration p.time d in
      rate_at range_start d p (slide range_start (before ++ p ∷ []))
      ++ rate_reference d (before ++ p ∷ []) ps

  -- Points in the order of time, none before `t`.
  abbrev pub Ascending : Time → List (Point V) → Type 0
  Ascending t [] = Unit
  Ascending t (p ∷ ps) = (t ≤ p.time) × Ascending p.time ps

sub_duration_mono : (t u d : ℕ) → t ≤ u → sub_duration t d ≤ sub_duration u d
unfolding sub_duration
sub_duration_mono t u d h = ground arith

module _ {V : Type 0} ⦃F : FloatOps V⦄ where
  -- A window that has been slid can be slid on.
  slide-slide :
      (t u : Time) (w ys : List (Point V)) → t ≤ u → slide u (slide t w ++ ys) ≡ slide u (w ++ ys)
  unfolding slide
  slide-slide t u [] ys h = refl
  slide-slide t u (p ∷ []) ys h = refl
  slide-slide t u (p ∷ q ∷ w) ys h = elim (Bool-cases (ltb q.time t)) [
    | inl early ↦
        let earlier : ltb q.time u ≡ true = ground arith in
        rw (early, earlier) (slide-slide t u (q ∷ w) ys h)
    | inr late ↦ rw late refl
  ]

  rate_loop-reference :
      (d : ℕ) (t : Time) (before ps : List (Point V))
      → Ascending t ps
      → rate_loop d (slide (sub_duration t d) before) ps ≡ rate_reference d before ps
  unfolding rate_loop rate_reference
  rate_loop-reference d t before [] h = refl
  rate_loop-reference d t before (p ∷ ps) h =
      rw
        (slide-slide (sub_duration t d) (sub_duration p.time d) before (p ∷ [])
          (sub_duration_mono t p.time d h.0))
        (ap
          (λ rest.
            rate_at (sub_duration p.time d) d p (slide (sub_duration p.time d) (before ++ p ∷ []))
            ++ rest)
          (rate_loop-reference d p.time (before ++ p ∷ []) ps h.1))

  -- For points in the order of time, the sliding window of `executeRate` gives the rates that a
  -- search from the first point on gives at each point.
  pub rate_series-reference :
      (d : ℕ) (ts : TimeSeries V)
      → Ascending 0 ts.points
      → (rate_series d ts).points ≡ rate_reference d [] ts.points
  unfolding rate_series slide
  rate_series-reference d ts h = rate_loop-reference d 0 [] ts.points h
