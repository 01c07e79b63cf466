-- ===== src/Query/Executor/Sorting.antt =====
-- pkg/query/executor.go: rates over the sorted points of a selector.
use tinyobs.Base.{
  ℕ, ◌≤◌, ◌≡◌, List, [], ◌∷◌, ltb, ltb→lt, ltb_false→le, Bool-cases, inl, inr, arith,
}
use tinyobs.Float.{FloatOps}
use tinyobs.Metric.{Time}
use tinyobs.Query.Executor.Aggregation.{insert_point, sort_points}
use tinyobs.Query.Executor.Evaluation.{sorted_series}
use tinyobs.Query.Executor.Rate.{Ascending, rate_series, rate_reference, rate_series-reference}
use tinyobs.Query.Executor.Series.{Point, TimeSeries}

module _ {V : Type 0} ⦃F : FloatOps V⦄ where
  Ascending-insert_point :
      (t : Time) (p : Point V) (qs : List (Point V))
      → t ≤ p.time
      → Ascending t qs
      → Ascending t (insert_point p qs)
  unfolding insert_point
  Ascending-insert_point t p [] below h = (below, tt)
  Ascending-insert_point t p (q ∷ qs) below h = elim (Bool-cases (ltb q.time p.time)) [
    | inl after ↦ rw after (
      h.0,
      Ascending-insert_point q.time p qs (let lt = ltb→lt q.time p.time after in omega (arith, lt))
          h.1,
    )
    | inr before ↦ rw before (below, (ltb_false→le q.time p.time before, h.1))
  ]

  sort_points-Ascending : (ps : List (Point V)) → Ascending 0 (sort_points ps)
  unfolding sort_points
  sort_points-Ascending [] = tt
  sort_points-Ascending (p ∷ ps) =
      Ascending-insert_point 0 p (sort_points ps) (omega arith) (sort_points-Ascending ps)

  -- For a series as a selector returns it, its points sorted by time, the sliding window of
  -- `executeRate` gives the same rates as a search for the start of the window from the first
  -- point on, at each point anew.
  pub rate_series-sorted_series :
      (d : ℕ) (ts : TimeSeries V)
      → (rate_series d (sorted_series ts)).points ≡ rate_reference d [] (sort_points ts.points)
  rate_series-sorted_series d ts =
      rate_series-reference d (sorted_series ts) (sort_points-Ascending ts.points)
