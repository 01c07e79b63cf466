-- ===== src/Export/Handler.antt =====
-- pkg/export/handler.go, with the parameters of the request as texts. The parsers of times and the
-- encoders of the library are parameters; headers and logs are left out.
use tinyobs.Base.{
  ℕ, ◌-◌, ◌*◌, ◌==◌, not, ◌&&◌, Bool, List, [], ◌∷◌, Option, none, some, Bytes, codes, str_eq,
  length, ltb, if◌then◌else◌,
}
use tinyobs.Export.Exporter.{ExportOptions, ExportResult, Document, export_to_json, export_to_csv}
use tinyobs.Export.{ImportResult, import_from_json}
use tinyobs.Metric.{Metric, Time, hour}
use tinyobs.Query.Outcome.{Outcome, ok, panic, out_of_fuel}
use tinyobs.Storage.{StorageOps}

-- pkg/config/config.go
abbrev pub default_export_window : ℕ
default_export_window = 24 * hour

abbrev pub max_export_window : ℕ
max_export_window = 30 * 24 * hour

-- A missing parameter is an empty text.
pub record ExportRequest : Type 0 where
  pub is_get : Bool
  pub format : Bytes
  pub start : Bytes
  pub end : Bytes
  pub metric : Bytes

-- An error with its status, or what is written to the response, with the result, or before an
-- error.
pub data ExportAnswer (W : Type 0) : Type 0 where
  refused : ℕ → ExportAnswer W
  exported : W → ExportResult → ExportAnswer W
  broken : W → ExportAnswer W

-- The answers of a parser of times.
module _ (parse_rfc3339 parse_simple : Bytes → Option Time) where
  unfoldable pub parse_time_param : Bytes → Time → Time
  parse_time_param param default =
      if length param == 0 then default else elim (parse_rfc3339 param) [
        | some t ↦ t
        | none ↦ elim (parse_simple param) [ some t ↦ t | none ↦ default ]
      ]

  -- The two ends of the range.
  abbrev pub export_end : Time → ExportRequest → Time
  export_end now r = parse_time_param r.end now

  abbrev pub export_start : Time → ExportRequest → Time
  export_start now r = parse_time_param r.start (export_end now r - default_export_window)

  abbrev pub export_format : ExportRequest → Bytes
  export_format r = if length r.format == 0 then codes "json" else r.format

  abbrev pub export_options : Time → ExportRequest → ExportOptions
  export_options now r = record {
    start = export_start now r;
    end = export_end now r;
    metric_names = if length r.metric == 0 then [] else r.metric ∷ [];
    labels = [];
    format = export_format r;
  }

  module _ {V S W : Type 0} (ops : StorageOps V S) (encode : W → Document V → W × Bool)
      (format_time : Time → Bytes) (format_value : V → Bytes)
      (write_row : W → List Bytes → W × Bool) where
    abbrev pub answer_of : W × Option ExportResult → ExportAnswer W
    answer_of (w, some result) = exported w result
    answer_of (w, none) = broken w

    -- `w` is the empty response.
    unfoldable pub handle_export : Time → ExportRequest → W → S → ExportAnswer W
    handle_export now r w s =
        let opts = export_options now r in
        if not r.is_get
        then refused 405
        else if not (str_eq opts.format (codes "json")) && not (str_eq opts.format (codes "csv"))
        then refused 400
        else if not (ltb opts.start opts.end)
        then refused 400
        else if ltb max_export_window (opts.end - opts.start)
        then refused 400
        else if str_eq opts.format (codes "json")
        then answer_of (export_to_json ops encode now s opts w)
        else answer_of (export_to_csv format_time format_value write_row ops now s opts w)

pub data ImportAnswer : Type 0 where
  refused : ℕ → ImportAnswer
  imported : ImportResult → ImportAnswer

-- `decode` gives the metrics of a body, or `none` where it is malformed.
module _ {V S W : Type 0} (ops : StorageOps V S) (decode : W → Option (List (Metric V))) where
  abbrev import_answer : Outcome (S × Option ImportResult) → Outcome (S × ImportAnswer)
  import_answer (ok (s, some result)) = ok (s, imported result)
  import_answer (ok (s, none)) = ok (s, refused 500)
  import_answer panic = panic
  import_answer out_of_fuel = out_of_fuel

  unfoldable pub handle_import : Time → Bool → Bytes → W → S → Outcome (S × ImportAnswer)
  handle_import now is_post content_type body s =
      if not is_post
      then ok (s, refused 405)
      else if not (str_eq content_type (codes "application/json"))
      then ok (s, refused 400)
      else elim (decode body) [
        | none ↦ ok (s, refused 500)
        | some ms ↦ import_answer (import_from_json ops now s ms)
      ]
