-- ===== src/Query/Handler/Answers.antt =====
-- pkg/query/handler.go: that the range query answers.
use tinyobs.Base.{
  ℕ, ◌-◌, ◌==◌, ◌≢◌, refl, not, Bool, List, Option, none, some, Bytes, length, ltb, if◌then◌else◌,
  if_elim, codes,
}
use tinyobs.Float.{FloatOps}
use tinyobs.Metric.{Time}
use tinyobs.Query.Executor.Evaluation.Indices.{execute-ne-panicked}
use tinyobs.Query.Executor.Evaluation.{Evaluation, answer, panicked, execute}
use tinyobs.Query.Executor.Series.{TimeSeries}
use tinyobs.Query.Handler.{
  Reply, refused, QueryRequest, SeriesResult, query_default_window, read_step, reply_to, evaluate,
  parse_and_evaluate, handle_query_execute, convert_to_series_results,
}
use tinyobs.Query.Outcome.{Outcome, ok, panic}
use tinyobs.Query.Parser.{ParseResult, parsed, unexpected_token}
use tinyobs.Query.Termination.Levels.{parse_ends}
use tinyobs.Storage.{StorageOps}
use tinyobs.Query.Reader.Strings.{IsPlain}

module _ {V S : Type 0} ⦃F : FloatOps V⦄ (format6 : V → Bytes) (ops : StorageOps V S)
    (max_samples fuel : ℕ) (s : S) where
  -- A reply, or a loop of the executor that is longer than its fuel.
  abbrev NoPanic : Outcome Reply → Type 0
  NoPanic o = o ≢ panic

  answered : (r : Reply) → NoPanic (ok r)
  answered r e = cc

  reply_to-NoPanic :
      (result_type : Bytes) (convert : List (TimeSeries V) → List SeriesResult) (e : Evaluation V)
      → e ≢ panicked
      → NoPanic (reply_to format6 result_type convert e)
  unfolding reply_to
  reply_to-NoPanic result_type convert (answer ss n) fine h = cc
  reply_to-NoPanic result_type convert Evaluation.failed fine h = cc
  reply_to-NoPanic result_type convert panicked fine h = fine refl
  reply_to-NoPanic result_type convert Evaluation.out_of_fuel fine h = cc

  evaluate-NoPanic :
      (query : Bytes) (start end : Time) (step : ℕ) (r : ParseResult V) (result_type : Bytes)
      (convert : List (TimeSeries V) → List SeriesResult)
      → NoPanic (
          evaluate format6 ops max_samples fuel s query start end step r
            (reply_to format6 result_type convert))
  unfolding evaluate
  evaluate-NoPanic query start end step (parsed e) result_type convert =
      reply_to-NoPanic result_type convert (execute ops max_samples s fuel e start end step)
        (execute-ne-panicked ops max_samples s fuel e start end step)
  evaluate-NoPanic query start end step (unexpected_token t) result_type convert =
      answered (refused 400)

  parse_and_evaluate-NoPanic :
      (query : Bytes) (start end : Time) (step : ℕ) (result_type : Bytes)
      (convert : List (TimeSeries V) → List SeriesResult)
      → IsPlain query
      → NoPanic (
          parse_and_evaluate format6 ops max_samples fuel s query start end step
            (reply_to format6 result_type convert))
  unfolding parse_and_evaluate
  parse_and_evaluate-NoPanic query start end step result_type convert plain =
      let (r, e) = (parse_ends V query).1 plain in
      rw e (evaluate-NoPanic query start end step r result_type convert)

  -- A range query whose text has no backslash never panics, whatever else the request holds: neither
  -- its parser runs into a slice out of bounds, nor its executor into an index out of range among
  -- the series of an operand or the arguments of a function.
  pub handle_query_execute_no_panic :
      (now : Time) (is_post : Bool) (req : QueryRequest)
      → IsPlain req.query
      → handle_query_execute format6 ops max_samples fuel s now is_post (some req) ≢ panic
  unfolding handle_query_execute
  handle_query_execute_no_panic now is_post req plain =
      if_elim NoPanic (not is_post) (λ _. answered (refused 405))
        (λ _.
          if_elim NoPanic (length req.query == 0) (λ _. answered (refused 400))
            (λ _. stepped (read_step req.step)))
    where
      start : Time
      start = if req.start == 0 then now - query_default_window else req.start

      end : Time
      end = if req.end == 0 then now else req.end

      stepped :
          (o : Option ℕ)
          → NoPanic (elim o [
            | none ↦ ok (refused 400)
            | some step ↦
                if not (ltb start end)
                then ok (refused 400)
                else parse_and_evaluate format6 ops max_samples fuel s req.query start end step
                    (reply_to format6 (codes "matrix") (convert_to_series_results format6))
          ])
      stepped none = answered (refused 400)
      stepped (some step) =
          if_elim NoPanic (not (ltb start end)) (λ _. answered (refused 400))
            (λ _. parse_and_evaluate-NoPanic req.query start end step _ _ plain)
