-- ===== src/Export/Restore.antt =====
-- pkg/export: what is exported as JSON from one storage in memory and imported into another.
use mathlib.Core.Path.{subst}
use tinyobs.Base.{
  ◌+◌, ◌≤◌, ◌≡◌, refl, sym, ap, ◌∙◌, Bool, true, false, List, [], ◌∷◌, ◌++◌, Option, none, some,
  codes, str_eq, All, filter, map, length, if◌then◌else◌, inl, inr, arith,
}
use tinyobs.Export.Batches.{Written, is_complete, import_from_json-Written}
use tinyobs.Export.Exporter.{
  ExportOptions, ExportResult, Document, document, export_request, export_result, export_to_json,
}
use tinyobs.Export.Handler.{imported, handle_import}
use tinyobs.Export.{ImportResult, validate_imported_metric, import_from_json}
use tinyobs.Metric.{Metric, Time, json_form}
use tinyobs.Query.Outcome.{ok}
use tinyobs.Storage.Memory.Queries.{query-filter}
use tinyobs.Storage.Memory.Writes.{IsBounded}
use tinyobs.Storage.Memory.{Storage, memory_ops, query, matches, limit_of}

module _ {V : Type 0} where
  abbrev pub AreValid : Time → List (Metric V) → Type 0
  AreValid now = All (λ (m : Metric V). validate_imported_metric now m ≡ true)

  filter-json_form :
      (now : Time) (ms : List (Metric V))
      → AreValid now ms
      → filter (validate_imported_metric now) (map json_form ms) ≡ map json_form ms
  unfolding validate_imported_metric
  filter-json_form now [] h = refl
  filter-json_form now (m ∷ ms) h = rw h.0 (ap (◌∷◌ (json_form m)) (filter-json_form now ms h.1))

  length-json_form : (ms : List (Metric V)) → length (map json_form ms) ≡ length ms
  length-json_form [] = refl
  length-json_form (m ∷ ms) = omega (arith, length-json_form ms)

-- An encoding that has succeeded.
encoded :
    {W : Type 0} (r : W × Bool) (w : W) (answer result : ExportResult)
    → ◌≡◌ {A = W × Option ExportResult} (r.0, if r.1 then some answer else none) (w, some result)
    → (r ≡ (w, true)) × (answer ≡ result)
encoded (v, true) w answer result h = (cc, cc)
encoded (v, false) w answer result h = absurd cc

-- `IsText` holds of the metrics whose texts are valid UTF-8: of those, JSON gives back what it was
-- given; other bytes it replaces.
module _ {V W : Type 0} (encode : W → Document V → W × Bool) (decode : W → Option (List (Metric V)))
    (empty : W) (IsText : Metric V → Type 0)
    (law : (doc : Document V) (w : W)
      → All IsText doc.metrics
      → encode empty doc ≡ (w, true)
      → decode w ≡ some (map json_form doc.metrics)) where
  decode-export_to_json :
      (now : Time) (s : Storage V) (opts : ExportOptions) (w : W) (result : ExportResult)
      → All IsText (query s (export_request opts))
      → export_to_json memory_ops encode now s opts empty ≡ (w, some result)
      → (decode w ≡ some (map json_form (query s (export_request opts))))
        × (result.metrics_exported ≡ length (query s (export_request opts)))
  unfolding export_to_json
  decode-export_to_json now s opts w result text h =
      let ms = query s (export_request opts) in
      let (written, same) =
        encoded (encode empty (document now opts ms)) w
          (export_result (codes "json") now opts (length ms)) result h in
      (
        law (document now opts ms) w text written,
        ap (λ (x : ExportResult). x.metrics_exported) (sym same),
      )

  restored :
      (later : Time) (t t' : Storage V) (ms : List (Metric V)) (r : Option ImportResult) (w : W)
      → decode w ≡ some (map json_form ms)
      → AreValid later ms
      → length t.metrics + length ms ≤ limit_of t
      → import_from_json memory_ops later t (map json_form ms) ≡ ok (t', r)
      → Written t (filter (validate_imported_metric later) (map json_form ms)) t' (is_complete r)
      → (answer : ImportResult) × (handle_import memory_ops decode later true
            (codes "application/json")
            w
            t
          ≡ ok (t', imported answer))
        × (t'.metrics ≡ t.metrics ++ map json_form ms)
  unfolding handle_import str_eq
  restored later t t' ms none w back valid room run written =
      elim (subst (λ xs. Written t xs t' false) (filter-json_form later ms valid) written) [
        | inl (done, all, fits) ↦ absurd cc
        | inr (failed, over, first, rest, parts, grown) ↦
            absurd (omega (arith, over, room, length-json_form ms))
      ]
  restored later t t' ms (some answer) w back valid room run written =
      elim (subst (λ xs. Written t xs t' true) (filter-json_form later ms valid) written) [
        | inl (done, all, fits) ↦ (answer, rw (back, run) refl, all)
        | inr (failed, over, first, rest, parts, grown) ↦ absurd cc
      ]

  -- A backup is restored: what `ExportToJSON` writes of a storage in memory, `HandleImport` adds to
  -- another one. All metrics in the range of the export, with the names and labels it asks for, stand
  -- then behind those of the other storage, in their order, with the same name, type, value, time and
  -- labels; if their texts are valid UTF-8, which JSON keeps, the importer holds them for valid, and
  -- there is room for them.
  pub handle_import-export_to_json :
      (now later : Time) (s t : Storage V) (opts : ExportOptions) (w : W) (result : ExportResult)
      → export_to_json memory_ops encode now s opts empty ≡ (w, some result)
      → All IsText (query s (export_request opts))
      → AreValid later (query s (export_request opts))
      → IsBounded t
      → length t.metrics + result.metrics_exported ≤ limit_of t
      → (t' : Storage V) × (answer : ImportResult) × (handle_import memory_ops decode later true
            (codes "application/json")
            w
            t
          ≡ ok (t', imported answer))
        × (t'.metrics
            ≡ t.metrics ++ map json_form (filter (matches (export_request opts)) s.metrics))
  unfolding handle_import
  handle_import-export_to_json now later s t opts w result e text valid bounded room =
      let ms = query s (export_request opts) in
      let (back, count) = decode-export_to_json now s opts w result text e in
      let (t', r, run, written) = import_from_json-Written later t (map json_form ms) bounded in
      let (answer, answered, all) =
        restored later t t' ms r w back valid (omega (arith, room, count)) run written in
      (
        t',
        answer,
        answered,
        all ∙ ap (λ xs. t.metrics ++ map json_form xs) (query-filter s (export_request opts)),
      )
