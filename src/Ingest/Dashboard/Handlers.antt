-- ===== src/Ingest/Dashboard/Handlers.antt =====
-- pkg/ingest/dashboard.go: `HandleMetricsList` and `HandleRangeQuery`, with the parameters of the
-- request already parsed.
use tinyobs.Base.{
  ℕ, ◌-◌, ◌==◌, not, Bool, true, List, [], ◌∷◌, Option, none, some, Bytes, Dict, insert, keys,
  length, ltb, if◌then◌else◌, sort_strings,
}
use tinyobs.Float.{FloatOps}
use tinyobs.Ingest.Dashboard.{
  SeriesData, group_metrics, finish_series, ingest_default_max_points, ingest_max_points_limit,
  ingest_metrics_list_limit, ingest_metrics_list_time_window, ingest_max_query_window,
}
use tinyobs.Metric.{Metric, Time}
use tinyobs.Query.Outcome.{Outcome, ok, ◌>>=◌}
use tinyobs.Storage.Memory.{resolution_of}
use tinyobs.Storage.{StorageOps, QueryRequest}

-- What a handler answers: an error with its status, or data with status 200.
pub data Response (A : Type 0) : Type 0 where
  error : ℕ → Response A
  data_of : A → Response A

-- The parameter `maxPoints`; a number that is not positive is 0.
pub data MaxPoints : Type 0 where
  absent : MaxPoints
  malformed : MaxPoints
  given : ℕ → MaxPoints

pub record RangeRequest : Type 0 where
  pub is_get : Bool
  pub metric : Bytes
  pub start : Time
  pub end : Time
  pub max_points : MaxPoints

-- `none` where the request is refused.
unfoldable pub read_max_points : MaxPoints → Option ℕ
read_max_points absent = some ingest_default_max_points
read_max_points malformed = none
read_max_points (given n) =
    if n == 0 then none else if ltb ingest_max_points_limit n then none else some n

module _ {V S : Type 0} (ops : StorageOps V S) where
  -- The loop over the results.
  unfoldable pub collect_names : Dict Bool → List (Metric V) → Dict Bool
  collect_names names [] = names
  collect_names names (m ∷ ms) =
      collect_names (if length (resolution_of m) == 0 then insert m.name true names else names) ms

  unfoldable pub handle_metrics_list : Bool → Time → S → Response (List Bytes)
  handle_metrics_list is_get now s =
      let req : QueryRequest = record {
        start = now - ingest_metrics_list_time_window;
        end = now;
        metric_names = [];
        labels = [];
        limit = ingest_metrics_list_limit;
      } in
      if not is_get then error 405 else (elim (ops.query s req) [
        | none ↦ error 500
        | some results ↦ data_of (sort_strings (keys (collect_names [] results)))
      ])

  module _ ⦃F : FloatOps V⦄ where
    -- The answer to a query with `max_points` points.
    unfoldable pub range_data :
        ℕ → Bytes → Option (List (Metric V)) → Outcome (Response (List (SeriesData V)))
    range_data max_points metric none = ok (error 500)
    range_data max_points metric (some results) = group_metrics metric [] results >>= λ series.
        finish_series max_points series >>= λ answer. ok (data_of answer)

    unfoldable pub handle_range_query : S → RangeRequest → Outcome (Response (List (SeriesData V)))
    handle_range_query s r =
        let req : QueryRequest = record {
          start = r.start;
          end = r.end;
          metric_names = r.metric ∷ [];
          labels = [];
          limit = 0;
        } in
        if not r.is_get
        then ok (error 405)
        else (if length r.metric == 0
            then ok (error 400)
            else (if ltb 256 (length r.metric)
                then ok (error 400)
                else (if ltb r.end r.start
                    then ok (error 400)
                    else (if ltb ingest_max_query_window (r.end - r.start)
                        then ok (error 400)
                        else (elim (read_max_points r.max_points) [
                          | none ↦ ok (error 400)
                          | some max_points ↦ range_data max_points r.metric (ops.query s req)
                        ])))))
