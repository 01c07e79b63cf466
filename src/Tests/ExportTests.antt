-- ===== src/Tests/ExportTests.antt =====
-- Imports into the storage in memory, and exports of it.
use tinyobs.Base.{
  ◌*◌, ◌%◌, ℕ, ◌+◌, ◌-◌, ◌<◌, ◌≤◌, length, ◌≡◌, arith, refl, sym, ap, Bool, true, List, [], ◌∷◌,
  ◌++◌, Option, none, some, codes, filter, map, All, Bytes, str_eq, str_le, sort_strings, insert,
  lookup,
}
use tinyobs.Export.Exporter.Columns.{keep_row, FitsColumns, export_to_csv-FitsColumns}
use tinyobs.Export.Exporter.{
  ExportOptions, Document, document, export_request, export_result, export_to_json, export_to_csv,
  collect_label_keys, key_set_loop, key_loop, label_fields, write_rows, csv_header, csv_row,
}
use tinyobs.Export.Handler.{
  ExportRequest, default_export_window, max_export_window, parse_time_param, handle_export,
  imported, handle_import,
}
use tinyobs.Export.Restore.{handle_import-export_to_json}
use tinyobs.Export.Windows.{handle_export-exported}
use tinyobs.Export.{
  ImportResult, import_from_json, validate_imported_metric, write_batches, import_result,
  range_loop, time_range,
}
use tinyobs.Metric.{json_form, Metric, Time, Labels, hour, gauge_type}
use tinyobs.Query.Outcome.{ok}
use tinyobs.Storage.Memory.{
  Storage, memory_ops, write, query, query_loop, matches, in_range, name_matches, labels_match,
}
use tinyobs.Tests.Data.{ℕ_ops}

abbrev now : Time
now = 20 * 365 * 24 * hour

abbrev backup : Time → ℕ → Metric ℕ
backup t v = record {
  name = codes "load";
  type = gauge_type;
  value = v;
  label_map = some [];
  timestamp = t;
}

-- The second one has no time.
abbrev backups : List (Metric ℕ)
backups = backup now 1 ∷ backup 0 2 ∷ backup (now + 1) 3 ∷ []

abbrev target : Storage ℕ
target = record { metrics = backup now 9 ∷ []; max_metrics = 4 }

two_imported :
    import_from_json memory_ops now target backups
    ≡ ok (
      record target { metrics = backup now 9 ∷ backup now 1 ∷ backup (now + 1) 3 ∷ [] },
      some (record {
        metrics_imported = 2;
        batches_written = 1;
        min_time = now;
        max_time = now + 1;
        errors = 1;
      }),
    )
unfolding import_from_json validate_imported_metric write_batches import_result time_range
    range_loop write str_eq
two_imported = refl

-- The rows of an export of two metrics with different labels.
abbrev labelled : Labels → Metric ℕ
labelled ls = record (backup now 7) { label_map = some ls }

abbrev fleet : Storage ℕ
fleet = record {
  metrics =
      labelled ((codes "zone", codes "b") ∷ []) ∷ labelled ((codes "host", codes "a") ∷ []) ∷ [];
  max_metrics = 9;
}

abbrev everything : ExportOptions
everything = record { start = 0; end = now; metric_names = []; labels = []; format = codes "csv" }

abbrev digit : ℕ → Bytes
digit n = (n % 10 + b'0') ∷ []

two_rows : export_to_csv digit digit keep_row memory_ops now fleet everything [] ≡ (
  (codes "timestamp"
        ∷ codes "name"
        ∷ codes "type"
        ∷ codes "value"
        ∷ codes "host"
        ∷ codes "zone"
        ∷ [])
      ∷ (codes "0" ∷ codes "load" ∷ codes "gauge" ∷ codes "7" ∷ [] ∷ codes "b" ∷ [])
      ∷ (codes "0" ∷ codes "load" ∷ codes "gauge" ∷ codes "7" ∷ codes "a" ∷ [] ∷ [])
      ∷ [],
  some (export_result (codes "csv") now everything 2),
)
unfolding export_to_csv query matches in_range name_matches labels_match query_loop
    collect_label_keys key_set_loop key_loop label_fields write_rows sort_strings insert lookup
    str_eq str_le
two_rows = refl

export_to_csv-FitsColumns_example :
    (let ks = collect_label_keys fleet.metrics in
      (export_to_csv digit digit keep_row memory_ops now fleet everything [] ≡ (
        csv_header ks ∷ map (csv_row digit digit ks) fleet.metrics,
        some (export_result (codes "csv") now everything 2),
      ))
      × All (FitsColumns digit digit (csv_header ks) ks) fleet.metrics)
unfolding query query_loop matches in_range name_matches labels_match
export_to_csv-FitsColumns_example =
    export_to_csv-FitsColumns digit digit memory_ops now fleet everything fleet.metrics refl

-- A text is the document itself.
abbrev encode_document : Option (Document ℕ) → Document ℕ → Option (Document ℕ) × Bool
encode_document w doc = (some doc, true)

abbrev decode_document : Option (Document ℕ) → Option (List (Metric ℕ))
decode_document none = none
decode_document (some doc) = some (map json_form doc.metrics)

-- A name in ASCII.
abbrev IsAscii : Metric ℕ → Type 0
IsAscii m = All (λ c. c < 128) m.name

decode_encode :
    (doc : Document ℕ) (w : Option (Document ℕ))
    → All IsAscii doc.metrics
    → encode_document none doc ≡ (w, true)
    → decode_document w ≡ some (map json_form doc.metrics)
decode_encode doc none text h = absurd cc
decode_encode doc (some other) text h = ap (λ x. decode_document x.0) (sym h)

handle_import-export_to_json_example :
    (t' : Storage ℕ) × (answer : ImportResult) × (handle_import memory_ops decode_document
        (now + 1)
        true
        (codes "application/json")
        (some (document now everything fleet.metrics))
        target
      ≡ ok (t', imported answer))
    × (t'.metrics
        ≡ target.metrics
          ++ map json_form (filter (matches (export_request everything)) fleet.metrics))
unfolding export_to_json query query_loop matches in_range name_matches labels_match
    validate_imported_metric str_eq
handle_import-export_to_json_example =
    handle_import-export_to_json encode_document decode_document none IsAscii decode_encode now
      (now + 1) fleet target everything (some (document now everything fleet.metrics))
      (export_result (codes "json") now everything 2) refl (omega arith) (refl, (refl, tt))
      (omega arith) (omega arith)

abbrev parse_none : Bytes → Option Time
parse_none text = none

abbrev default_request : ExportRequest
default_request = record { is_get = true; format = []; start = []; end = []; metric = [] }

abbrev last_day : ExportOptions
last_day = record {
  start = now - default_export_window;
  end = now;
  metric_names = [];
  labels = [];
  format = codes "json";
}

handle_export-exported_example :
    (default_request.is_get ≡ true)
    × (now - default_export_window < now)
    × (now ≤ now - default_export_window + max_export_window)
    × (now - default_export_window ≡ now - default_export_window)
    × (now ≡ now)
    × ((ms : List (Metric ℕ)) × (memory_ops.query fleet (export_request last_day) ≡ some ms)
        × (2 ≡ length ms))
unfolding handle_export parse_time_param export_to_json query query_loop matches in_range
    name_matches labels_match str_eq
handle_export-exported_example =
    handle_export-exported parse_none parse_none memory_ops encode_document digit digit
      (λ w row. (w, true)) now default_request none fleet
      (some (document now last_day fleet.metrics)) (export_result (codes "json") now last_day 2)
      refl
