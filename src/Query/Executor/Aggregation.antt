-- ===== src/Query/Executor/Aggregation.antt =====
-- pkg/query/executor.go: what an aggregation makes of the values of a group at one time.
use tinyobs.Base.{List, [], ◌∷◌, ◌++◌, Bytes, codes, str_eq, length, ltb, ◌==◌, if◌then◌else◌}
use tinyobs.Float.{FloatOps}
use tinyobs.Metric.{Time}
use tinyobs.Query.Executor.Series.{Point, TimeSeries}

-- The map from times to values.
abbrev pub TimeMap : Type 0 → Type 0
TimeMap V = List (Time × List V)

module _ {V : Type 0} where
  -- `timeMap[t] = append(timeMap[t], v)`
  unfoldable pub append_at : Time → V → TimeMap V → TimeMap V
  append_at t v [] = (t, v ∷ []) ∷ []
  append_at t v ((u, vs) ∷ m) = if u == t then (u, vs ++ v ∷ []) ∷ m else (u, vs) ∷ append_at t v m

  unfoldable pub collect_points : TimeMap V → List (Point V) → TimeMap V
  collect_points m [] = m
  collect_points m (p ∷ ps) = collect_points (append_at p.time p.value m) ps

  unfoldable pub collect : TimeMap V → List (TimeSeries V) → TimeMap V
  collect m [] = m
  collect m (ts ∷ rest) = collect (collect_points m ts.points) rest

  unfoldable pub insert_point : Point V → List (Point V) → List (Point V)
  insert_point p [] = p ∷ []
  insert_point p (q ∷ qs) = if ltb q.time p.time then q ∷ insert_point p qs else p ∷ q ∷ qs

  -- `sort.Slice` by time; points of the same time keep their order here, which Go leaves open.
  unfoldable pub sort_points : List (Point V) → List (Point V)
  unfolding insert_point
  sort_points [] = []
  sort_points (p ∷ ps) = insert_point p (sort_points ps)

module _ {V : Type 0} ⦃F : FloatOps V⦄ where
  sum_loop : V → List V → V
  sum_loop s [] = s
  sum_loop s (v ∷ vs) = sum_loop (F.add s v) vs

  unfoldable pub sum_of : List V → V
  unfolding sum_loop
  sum_of vs = sum_loop F.zero_value vs

  unfoldable pub avg_of : List V → V
  avg_of [] = F.nan
  avg_of (v ∷ vs) = F.div (sum_of (v ∷ vs)) (F.of_ℕ (length (v ∷ vs)))

  unfoldable pub greatest : V → List V → V
  greatest best [] = best
  greatest best (v ∷ vs) = greatest (if F.lt best v then v else best) vs

  unfoldable pub max_of : List V → V
  max_of [] = F.nan
  max_of (v ∷ vs) = greatest v vs

  unfoldable pub least : V → List V → V
  least best [] = best
  least best (v ∷ vs) = least (if F.lt v best then v else best) vs

  unfoldable pub min_of : List V → V
  min_of [] = F.nan
  min_of (v ∷ vs) = least v vs

  -- The `switch` over the operation.
  unfoldable pub aggregate_values : Bytes → List V → V
  aggregate_values op vs =
      if str_eq op (codes "sum")
      then sum_of vs
      else if str_eq op (codes "avg")
      then avg_of vs
      else if str_eq op (codes "max")
      then max_of vs
      else if str_eq op (codes "min")
      then min_of vs
      else if str_eq op (codes "count")
      then F.of_ℕ (length vs)
      else F.nan

  unfoldable pub points_of : Bytes → TimeMap V → List (Point V)
  points_of op [] = []
  points_of op ((t, vs) ∷ m) = record { time = t; value = aggregate_values op vs } ∷ points_of op m

  unfoldable pub aggregate : List (TimeSeries V) → Bytes → List (Point V)
  aggregate series op = sort_points (points_of op (collect [] series))
