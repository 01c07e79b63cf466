-- ===== src/Export/Exporter.antt =====
-- pkg/export/export.go. The encoders of the library write to a `W`: `encode` is a JSON encoder's
-- `Encode` of the document, `write_row` a CSV writer's `Write`, each with `err == nil`; `now` is
-- each `time.Now()` of a call. The range of a result is kept as its two times.
pub mod Columns
use tinyobs.Base.{
  ℕ, Bool, true, false, List, [], ◌∷◌, ◌++◌, Option, none, some, Bytes, Dict, codes, lookup, insert,
  keys, map, length, sort_strings, if◌then◌else◌,
}
use tinyobs.Metric.{Metric, Time, Labels, read_labels}
use tinyobs.Storage.{StorageOps, QueryRequest}

pub record ExportOptions : Type 0 where
  pub start : Time
  pub end : Time
  pub metric_names : List Bytes
  pub labels : Labels
  pub format : Bytes

pub record ExportResult : Type 0 where
  pub metrics_exported : ℕ
  pub start : Time
  pub end : Time
  pub format : Bytes
  pub exported_at : Time

-- What is encoded: the metadata, and the metrics.
pub record Document (V : Type 0) : Type 0 where
  pub exported_at : Time
  pub start_time : Time
  pub end_time : Time
  pub metric_count : ℕ
  pub format : Bytes
  pub version : Bytes
  pub metrics : List (Metric V)

-- The limit 0 stands for no limit.
abbrev pub export_request : ExportOptions → QueryRequest
export_request opts = record {
  start = opts.start;
  end = opts.end;
  metric_names = opts.metric_names;
  labels = opts.labels;
  limit = 0;
}

abbrev pub export_result : Bytes → Time → ExportOptions → ℕ → ExportResult
export_result format now opts n = record {
  metrics_exported = n;
  start = opts.start;
  end = opts.end;
  format = format;
  exported_at = now;
}

module _ {V : Type 0} where
  abbrev pub document : Time → ExportOptions → List (Metric V) → Document V
  document now opts ms = record {
    exported_at = now;
    start_time = opts.start;
    end_time = opts.end;
    metric_count = length ms;
    format = codes "json";
    version = codes "1.0";
    metrics = ms;
  }

  module _ {S W : Type 0} (ops : StorageOps V S) (encode : W → Document V → W × Bool) where
    -- What is written, and the result, or `none` for an error.
    unfoldable pub export_to_json : Time → S → ExportOptions → W → W × Option ExportResult
    export_to_json now s opts w = elim (ops.query s (export_request opts)) [
      | none ↦ (w, none)
      | some ms ↦
          let (w', done) = encode w (document now opts ms) in
          (w', if done then some (export_result (codes "json") now opts (length ms)) else none)
    ]

-- The loop over the labels of a metric.
unfoldable pub key_loop : Dict Bool → Labels → Dict Bool
key_loop key_set [] = key_set
key_loop key_set ((k, v) ∷ ls) = key_loop (insert k true key_set) ls

module _ {V : Type 0} where
  unfoldable pub key_set_loop : Dict Bool → List (Metric V) → Dict Bool
  key_set_loop key_set [] = key_set
  key_set_loop key_set (m ∷ ms) = key_set_loop (key_loop key_set (read_labels m.label_map)) ms

  unfoldable pub collect_label_keys : List (Metric V) → List Bytes
  collect_label_keys ms = sort_strings (keys (key_set_loop [] ms))

-- The header of the CSV.
abbrev pub csv_header : List Bytes → List Bytes
csv_header label_keys = codes "timestamp" ∷ codes "name" ∷ codes "type" ∷ codes "value" ∷ label_keys

-- The values of the labels, with an empty text for one that is not there.
unfoldable pub label_fields : Labels → List Bytes → List Bytes
label_fields ls [] = []
label_fields ls (k ∷ ks) = (elim (lookup k ls) [ some v ↦ v | none ↦ [] ]) ∷ label_fields ls ks

-- `format_time` is `Format(time.RFC3339)`, `format_value` is `FormatFloat(_, 'f', -1, 64)`.
module _ {V : Type 0} (format_time : Time → Bytes) (format_value : V → Bytes) where
  abbrev pub csv_row : List Bytes → Metric V → List Bytes
  csv_row label_keys m =
      format_time m.timestamp
      ∷ m.name
      ∷ m.type
      ∷ format_value m.value
      ∷ label_fields (read_labels m.label_map) label_keys

  module _ {W : Type 0} (write_row : W → List Bytes → W × Bool) where
    -- The loop over the rows.
    unfoldable pub write_rows : W → List (List Bytes) → W × Bool
    write_rows w [] = (w, true)
    write_rows w (row ∷ rows) =
        let (w', done) = write_row w row in
        let rest = write_rows w' rows in if done then rest else (w', false)

    unfoldable pub export_to_csv :
        {S : Type 0} → StorageOps V S → Time → S → ExportOptions → W → W × Option ExportResult
    export_to_csv ops now s opts w = elim (ops.query s (export_request opts)) [
      | none ↦ (w, none)
      | some ms ↦
          let label_keys = collect_label_keys ms in
          let (w', done) = write_rows w (csv_header label_keys ∷ map (csv_row label_keys) ms) in
          (w', if done then some (export_result (codes "csv") now opts (length ms)) else none)
    ]
