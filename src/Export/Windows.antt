-- ===== src/Export/Windows.antt =====
-- pkg/export/handler.go: the ranges that `HandleExport` exports.
use mathlib.Core.Path.{subst}
use tinyobs.Base.{
  ◌+◌, ◌-◌, ◌≤◌, ◌<◌, ◌≡◌, refl, not, ◌&&◌, Bool, true, false, List, ◌∷◌, Option, none, some, Bytes,
  codes, str_eq, map, length, ltb, if◌then◌else◌, if_elim, Option-cases, inl, inr, arith,
}
use tinyobs.Export.Exporter.{
  ExportOptions, ExportResult, Document, document, export_request, export_result, export_to_json,
  export_to_csv, write_rows, csv_header, csv_row, collect_label_keys,
}
use tinyobs.Export.Handler.{
  ExportRequest, ExportAnswer, exported, handle_export, export_options, max_export_window,
  answer_of,
}
use tinyobs.Metric.{Metric, Time}
use tinyobs.Storage.{StorageOps}

module _ {V S : Type 0} (ops : StorageOps V S) (s : S) (opts : ExportOptions) where
  -- A result for the range of the options, with the count of what the storage gives for them.
  abbrev Counts : ExportResult → Type 0
  Counts result =
      (result.start ≡ opts.start)
      × (result.end ≡ opts.end)
      × ((ms : List (Metric V)) × (ops.query s (export_request opts) ≡ some ms)
          × (result.metrics_exported ≡ length ms))

  -- What is true of a result, if there is one.
  abbrev Ensures : {W : Type 0} → W × Option ExportResult → Type 0
  Ensures (w, some result) = Counts result
  Ensures (w, none) = Unit

  Ensures-done :
      {W : Type 0} (w : W) (done : Bool) (result : ExportResult)
      → Counts result
      → Ensures (w, if done then some result else none)
  Ensures-done w true result h = h
  Ensures-done w false result h = tt

  module _ {W : Type 0} (w : W) (now : Time) where
    Ensures-export_to_json :
        (encode : W → Document V → W × Bool) → Ensures (export_to_json ops encode now s opts w)
    unfolding export_to_json
    Ensures-export_to_json encode = elim (Option-cases (ops.query s (export_request opts))) [
      | inl failed ↦ rw (export_to_json, failed) tt
      | inr (ms, found) ↦
          rw (export_to_json, found)
            (Ensures-done (encode w (document now opts ms)).0 (encode w (document now opts ms)).1
              (export_result (codes "json") now opts (length ms)) (refl, refl, (ms, found, refl)))
    ]

    Ensures-export_to_csv :
        (format_time : Time → Bytes) (format_value : V → Bytes)
        (write_row : W → List Bytes → W × Bool)
        → Ensures (export_to_csv format_time format_value write_row ops now s opts w)
    unfolding export_to_csv
    Ensures-export_to_csv format_time format_value write_row =
        elim (Option-cases (ops.query s (export_request opts))) [
          | inl failed ↦ rw (export_to_csv, failed) tt
          | inr (ms, found) ↦
              let ks = collect_label_keys ms in
              let rows = csv_header ks ∷ map (csv_row format_time format_value ks) ms in
              rw (export_to_csv, found)
                (Ensures-done (write_rows format_time format_value write_row w rows).0
                  (write_rows format_time format_value write_row w rows).1
                  (export_result (codes "csv") now opts (length ms))
                  (refl, refl, (ms, found, refl)))
        ]

module _ (parse_rfc3339 parse_simple : Bytes → Option Time) {V S W : Type 0} (ops : StorageOps V S)
    (encode : W → Document V → W × Bool) (format_time : Time → Bytes) (format_value : V → Bytes)
    (write_row : W → List Bytes → W × Bool) (now : Time) (r : ExportRequest) (w : W) (s : S) where
  abbrev opts : ExportOptions
  opts = export_options parse_rfc3339 parse_simple now r

  -- What is true of an answer with a result.
  abbrev InWindow : ExportAnswer W → Type 0
  InWindow (exported w' result) =
      (r.is_get ≡ true)
      × (result.start < result.end)
      × (result.end ≤ result.start + max_export_window)
      × Counts ops s (export_options parse_rfc3339 parse_simple now r) result
  InWindow _ = Unit

  InWindow-answer_of :
      (out : W × Option ExportResult)
      → r.is_get ≡ true
      → opts.start < opts.end
      → opts.end ≤ opts.start + max_export_window
      → Ensures ops s opts out
      → InWindow
          (answer_of parse_rfc3339 parse_simple ops encode format_time format_value write_row out)
  InWindow-answer_of (w', some result) get order short (start, end, counted) =
      (get, rw (start, end) order, rw (start, end) short, (start, end, counted))
  InWindow-answer_of (w', none) get order short h = tt

  handle_export-InWindow : InWindow (
      handle_export parse_rfc3339 parse_simple ops encode format_time format_value write_row now r w
        s)
  unfolding handle_export
  handle_export-InWindow =
      if_elim InWindow (not r.is_get) (λ _. tt)
        (λ get.
          if_elim InWindow
            (not (str_eq opts.format (codes "json")) && not (str_eq opts.format (codes "csv")))
            (λ _. tt)
            (λ _.
              if_elim InWindow (not (ltb opts.start opts.end)) (λ _. tt)
                (λ order.
                  if_elim InWindow (ltb max_export_window (opts.end - opts.start)) (λ _. tt)
                    (λ short.
                      if_elim InWindow (str_eq opts.format (codes "json"))
                        (λ _.
                          InWindow-answer_of _ (ground arith) (ground arith) (ground arith)
                            (Ensures-export_to_json ops s opts w now encode))
                        (λ _. InWindow-answer_of _ (ground arith) (ground arith) (ground arith) (
                          Ensures-export_to_csv ops s opts w now format_time format_value
                            write_row))))))

  -- `HandleExport` exports only for GET, and only a range that is not empty and not longer than
  -- thirty days, the one of the request or of its defaults; the result counts just the metrics that
  -- the storage gives for it.
  pub handle_export-exported :
      (w' : W) (result : ExportResult)
      → handle_export parse_rfc3339 parse_simple ops encode format_time format_value write_row now r
          w s
        ≡ exported w' result
      → (r.is_get ≡ true)
        × (result.start < result.end)
        × (result.end ≤ result.start + max_export_window)
        × (result.start ≡ opts.start)
        × (result.end ≡ opts.end)
        × ((ms : List (Metric V)) × (ops.query s (export_request opts) ≡ some ms)
            × (result.metrics_exported ≡ length ms))
  handle_export-exported w' result e =
      let (get, order, short, (start, end, counted)) = subst InWindow e handle_export-InWindow in
      (get, order, short, start, end, counted)
