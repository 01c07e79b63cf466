-- ===== src/Query/Handler.antt =====
-- pkg/query/handler.go, with the parameters of the request already decoded. `now` is `time.Now()`;
-- a step is the 64 bits of a time.Duration; `format6` is `fmt.Sprintf("%.6f", _)`. The time of a value
-- is in seconds since Go's zero Time.
pub mod Answers
use tinyobs.Base.{
  ℕ, ◌-◌, ◌*◌, ◌/◌, ◌==◌, not, Bool, true, false, List, [], ◌∷◌, map, Option, none, some, Bytes,
  codes, length, ltb, if◌then◌else◌,
}
use tinyobs.Float.{FloatOps}
use tinyobs.Metric.{Labels, Time, second, minute, hour}
use tinyobs.Query.Executor.Evaluation.{Evaluation, answer, failed, execute}
use tinyobs.Query.Executor.Series.{Point, TimeSeries}
use tinyobs.Query.Outcome.{Outcome, ok, panic, out_of_fuel, ◌>>=◌}
use tinyobs.Query.Parser.{ParseResult, parsed, unexpected_token, parse}
use tinyobs.Query.Tokens.{Expr}
use tinyobs.Storage.{StorageOps}

-- pkg/config/config.go
abbrev pub query_default_step : ℕ
query_default_step = 15 * second

abbrev pub query_default_window : ℕ
query_default_window = 1 * hour

pub record SeriesResult : Type 0 where
  pub metric : Labels
  pub values : List (ℕ × Bytes)

-- An error with its status, or the data with status 200 and its result type.
pub data Reply : Type 0 where
  refused : ℕ → Reply
  success : Bytes → List SeriesResult → Reply

-- The parameter `step`.
pub data StepParam : Type 0 where
  absent : StepParam
  malformed : StepParam
  given : ℕ → StepParam

-- A zero time is one that is not given.
pub record QueryRequest : Type 0 where
  pub query : Bytes
  pub start : Time
  pub end : Time
  pub step : StepParam

-- `none` where the request is refused.
unfoldable pub read_step : StepParam → Option ℕ
read_step absent = some query_default_step
read_step malformed = none
read_step (given d) = some d

-- `parsePrometheusDuration`
unfoldable pub parse_prometheus_duration : StepParam → ℕ → ℕ
parse_prometheus_duration absent default = default
parse_prometheus_duration malformed default = default
parse_prometheus_duration (given d) default = d

-- `parsePrometheusTime`, where `none` is an empty or a malformed text
unfoldable pub parse_prometheus_time : Option Time → Time → Time
parse_prometheus_time none default = default
parse_prometheus_time (some t) default = t

module _ {V : Type 0} (format6 : V → Bytes) where
  abbrev pub value_of : Point V → ℕ × Bytes
  value_of p = (p.time / second, format6 p.value)

  unfoldable pub convert_to_series_results : List (TimeSeries V) → List SeriesResult
  convert_to_series_results [] = []
  convert_to_series_results (ts ∷ rest) =
      record { metric = ts.labels; values = map (λ p. value_of p) ts.points }
      ∷ convert_to_series_results rest

  -- The last point, if there is one.
  unfoldable pub last_value : List (Point V) → List (ℕ × Bytes)
  last_value [] = []
  last_value (p ∷ []) = value_of p ∷ []
  last_value (p ∷ q ∷ ps) = last_value (q ∷ ps)

  unfoldable pub convert_to_instant_results : List (TimeSeries V) → List SeriesResult
  convert_to_instant_results [] = []
  convert_to_instant_results (ts ∷ rest) =
      record { metric = ts.labels; values = last_value ts.points } ∷ convert_to_instant_results rest

  -- What is sent for a result of the executor.
  unfoldable pub reply_to :
      Bytes → (List (TimeSeries V) → List SeriesResult) → Evaluation V → Outcome Reply
  reply_to result_type convert (answer ss n) = ok (success result_type (convert ss))
  reply_to result_type convert Evaluation.failed = ok (refused 500)
  reply_to result_type convert Evaluation.panicked = Outcome.panic
  reply_to result_type convert Evaluation.out_of_fuel = Outcome.out_of_fuel

module _ {V S : Type 0} ⦃F : FloatOps V⦄ (format6 : V → Bytes) (ops : StorageOps V S)
    (max_samples fuel : ℕ) (s : S) where
  -- The query is parsed and executed.
  unfoldable pub evaluate :
      Bytes → Time → Time → ℕ → ParseResult V → (Evaluation V → Outcome Reply) → Outcome Reply
  evaluate query start end step (parsed e) reply =
      reply (execute ops max_samples s fuel e start end step)
  evaluate query start end step (unexpected_token t) reply = ok (refused 400)

  unfoldable pub parse_and_evaluate :
      Bytes → Time → Time → ℕ → (Evaluation V → Outcome Reply) → Outcome Reply
  parse_and_evaluate query start end step reply =
      parse {V = V} query >>= λ r. evaluate query start end step r reply

  unfoldable pub handle_query_execute : Time → Bool → Option QueryRequest → Outcome Reply
  handle_query_execute now is_post none = ok (refused (if is_post then 400 else 405))
  handle_query_execute now is_post (some req) =
      let start = if req.start == 0 then now - query_default_window else req.start in
      let end = if req.end == 0 then now else req.end in
      if not is_post
      then ok (refused 405)
      else (if length req.query == 0 then ok (refused 400) else (elim (read_step req.step) [
        | none ↦ ok (refused 400)
        | some step ↦
            if not (ltb start end)
            then ok (refused 400)
            else parse_and_evaluate req.query start end step
                (reply_to format6 (codes "matrix") (convert_to_series_results format6))
      ]))

  -- `is_method` tells a GET or a POST; `time` is `none` where it is empty or malformed.
  unfoldable pub handle_query_instant : Time → Bool → Bytes → Option Time → Outcome Reply
  handle_query_instant now is_method query time =
      let query_time = parse_prometheus_time time now in
      if not is_method
      then ok (refused 405)
      else (if length query == 0
          then ok (refused 400)
          else parse_and_evaluate query (query_time - 5 * minute) query_time second
              (reply_to format6 (codes "vector") (convert_to_instant_results format6)))

  unfoldable pub handle_prometheus_query : Time → Bool → Bytes → Option Time → Outcome Reply
  handle_prometheus_query now is_method query time = handle_query_instant now is_method query time

  unfoldable pub handle_prometheus_query_range :
      Time → Bool → Bytes → Option Time → Option Time → StepParam → Outcome Reply
  handle_prometheus_query_range now is_method query start_param end_param step_param =
      let start = parse_prometheus_time start_param (now - query_default_window) in
      let end = parse_prometheus_time end_param now in
      let step = parse_prometheus_duration step_param query_default_step in
      if not is_method
      then ok (refused 405)
      else (if length query == 0
          then ok (refused 400)
          else (if not (ltb start end)
              then ok (refused 400)
              else parse_and_evaluate query start end step
                  (reply_to format6 (codes "matrix") (convert_to_series_results format6))))
