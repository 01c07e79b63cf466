-- ===== src/Query/Executor/Extremes.antt =====
-- pkg/query/executor.go: the bounds of `max`, of `min` and of rates.
use tinyobs.Base.{ℕ, ◌≡◌, false, List, [], ◌∷◌, ◌++◌, All, ltb, if◌then◌else◌, Bool-cases, inl, inr}
use tinyobs.Float.Order.{IsStrictOrder, lt_raised, lt_lowered, lt_own_min, lt_own_max}
use tinyobs.Float.{FloatOps}
use tinyobs.Metric.{Time}
use tinyobs.Query.Executor.Aggregation.{greatest, max_of, least, min_of}
use tinyobs.Query.Executor.Rate.{slide, sub_duration, rate_at, rate_loop, rate_series}
use tinyobs.Query.Executor.Series.{Point, TimeSeries}

module _ {V : Type 0} ⦃F : FloatOps V⦄ (order : IsStrictOrder F.lt) where
  greatest-keeps : (w b : V) (vs : List V) → F.lt b w ≡ false → F.lt (greatest b vs) w ≡ false
  unfolding greatest
  greatest-keeps w b [] h = h
  greatest-keeps w b (v ∷ vs) h =
      greatest-keeps w (if F.lt b v then v else b) vs (lt_raised order w v b h)

  greatest-bounds : (b : V) (vs : List V) → All (λ v. F.lt (greatest b vs) v ≡ false) vs
  unfolding greatest
  greatest-bounds b [] = tt
  greatest-bounds b (v ∷ vs) = (
    greatest-keeps v (if F.lt b v then v else b) vs (lt_own_max order v b),
    greatest-bounds (if F.lt b v then v else b) vs,
  )

  least-keeps : (w b : V) (vs : List V) → F.lt w b ≡ false → F.lt w (least b vs) ≡ false
  unfolding least
  least-keeps w b [] h = h
  least-keeps w b (v ∷ vs) h =
      least-keeps w (if F.lt v b then v else b) vs (lt_lowered order w v b h)

  least-bounds : (b : V) (vs : List V) → All (λ v. F.lt v (least b vs) ≡ false) vs
  unfolding least
  least-bounds b [] = tt
  least-bounds b (v ∷ vs) = (
    least-keeps v (if F.lt v b then v else b) vs (lt_own_min order v b),
    least-bounds (if F.lt v b then v else b) vs,
  )

  -- No value of a group is above the maximum of the group or below its minimum.
  pub max_of-min_of :
      (vs : List V) → All (λ v. (F.lt (max_of vs) v ≡ false) × (F.lt v (min_of vs) ≡ false)) vs
  unfolding max_of min_of
  max_of-min_of [] = tt
  max_of-min_of (b ∷ vs) = (
    (greatest-keeps b b vs (order.irrefl b), least-keeps b b vs (order.irrefl b)),
    both _ _ vs (greatest-bounds b vs) (least-bounds b vs),
  )
    where
      both :
          (x y : V) (ws : List V)
          → All (λ v. F.lt x v ≡ false) ws
          → All (λ v. F.lt v y ≡ false) ws
          → All (λ v. (F.lt x v ≡ false) × (F.lt v y ≡ false)) ws
      both x y [] h k = tt
      both x y (w ∷ ws) h k = ((h.0, k.0), both x y ws h.1 k.1)

  All-append :
      {A : Type 0} (P : A → Type 0) (xs ys : List A) → All P xs → All P ys → All P (xs ++ ys)
  All-append P [] ys h k = k
  All-append P (x ∷ xs) ys h k = (h.0, All-append P xs ys h.1 k)

  -- Not below zero.
  abbrev IsCounterRate : Point V → Type 0
  IsCounterRate p = F.lt p.value F.zero_value ≡ false

  rate_at-IsCounterRate :
      (range_start : Time) (d : ℕ) (p : Point V) (w : List (Point V))
      → All IsCounterRate (rate_at range_start d p w)
  unfolding rate_at
  rate_at-IsCounterRate range_start d p [] = tt
  rate_at-IsCounterRate range_start d p (q ∷ []) = tt
  rate_at-IsCounterRate range_start d p (q ∷ r ∷ w) = elim (Bool-cases (ltb range_start q.time)) [
    | inl short ↦ rw short tt
    | inr long ↦ rw long (clamp (F.div (F.sub p.value q.value) (F.seconds d)), tt)
  ]
    where
      clamp : (x : V) → F.lt (if F.lt x F.zero_value then F.zero_value else x) F.zero_value ≡ false
      clamp x = elim (Bool-cases (F.lt x F.zero_value)) [
        | inl negative ↦ rw negative (order.irrefl F.zero_value)
        | inr fine ↦ rw fine fine
      ]

  rate_loop-IsCounterRate : (d : ℕ) (w ps : List (Point V)) → All IsCounterRate (rate_loop d w ps)
  unfolding rate_loop
  rate_loop-IsCounterRate d w [] = tt
  rate_loop-IsCounterRate d w (p ∷ ps) =
      let w' = slide (sub_duration p.time d) (w ++ p ∷ []) in
      All-append IsCounterRate _ _ (rate_at-IsCounterRate (sub_duration p.time d) d p w')
        (rate_loop-IsCounterRate d w' ps)

  -- No rate that `executeRate` gives is below zero, whatever the values of the series.
  pub rate_series-IsCounterRate :
      (d : ℕ) (ts : TimeSeries V)
      → All (λ (p : Point V). F.lt p.value F.zero_value ≡ false) (rate_series d ts).points
  unfolding rate_series
  rate_series-IsCounterRate d ts = rate_loop-IsCounterRate d [] ts.points
