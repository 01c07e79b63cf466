-- ===== src/Export/Exporter/Columns.antt =====
-- pkg/export/export.go: the columns of the CSV.
use mathlib.Core.List.{append-nil, append_assoc}
use tinyobs.Base.{
  ◌≡◌, sym, codes, drop, take, All, All-mono, refl, ap, ◌∙◌, Bool, true, false, List, [], ◌∷◌, ◌++◌,
  none, some, Bytes, Dict, str_eq, str_eq_iff, any-sort_strings, lookup, lookup_or, insert, keys,
  map, any, length, Bool-cases, inl, inr, arith, if◌then◌else◌,
}
use tinyobs.Export.Exporter.{
  key_loop, key_set_loop, collect_label_keys, csv_header, label_fields, csv_row, write_rows,
  export_to_csv, export_request, export_result, ExportOptions,
}
use tinyobs.Storage.{StorageOps}
use tinyobs.Metric.{Metric, Time, Labels, read_labels}

-- Whether `k` is in the list.
abbrev pub has : Bytes → List Bytes → Bool
has k ks = any (λ j. str_eq j k) ks

-- The names of the columns with the fields of a row.
abbrev pub zip : List Bytes → List Bytes → Dict Bytes
zip [] vs = []
zip (k ∷ ks) [] = []
zip (k ∷ ks) (v ∷ vs) = (k, v) ∷ zip ks vs

length-label_fields : (ls : Labels) (ks : List Bytes) → length (label_fields ls ks) ≡ length ks
unfolding label_fields
length-label_fields ls [] = refl
length-label_fields ls (k ∷ ks) = omega (arith, length-label_fields ls ks)

field_of :
    (k : Bytes) (ls : Labels) → (elim (lookup k ls) [ some v ↦ v | none ↦ [] ]) ≡ lookup_or k [] ls
unfolding lookup lookup_or
field_of k [] = refl
field_of k ((j, v) ∷ ls) = ground (arith, field_of k ls)

-- What a reader of the row finds.
read_field :
    (k : Bytes) (ls : Labels) (ks : List Bytes)
    → lookup_or k [] (zip ks (label_fields ls ks)) ≡ (if has k ks then lookup_or k [] ls else [])
unfolding label_fields lookup_or
read_field k ls [] = refl
read_field k ls (j ∷ ks) = elim (Bool-cases (str_eq j k)) [
  | inl same ↦ rw same (field_of j ls ∙ ap (λ i. lookup_or i [] ls) ((str_eq_iff j k).0 same))
  | inr other ↦ rw other (read_field k ls ks)
]

lookup_or-none : (k : Bytes) (ls : Labels) → has k (keys ls) ≡ false → lookup_or k [] ls ≡ []
unfolding lookup_or
lookup_or-none k [] h = refl
lookup_or-none k ((j, v) ∷ ls) h = ground (arith, lookup_or-none k ls)

has-insert :
    (k j : Bytes) (m : Dict Bool)
    → has k (keys (insert j true m)) ≡ (if str_eq j k then true else has k (keys m))
unfolding insert
has-insert k j [] = refl
has-insert k j ((i, b) ∷ m) =
    ground (arith, str_eq_iff j k, str_eq_iff i k, str_eq_iff i j, has-insert k j m)

-- No key is lost.
has-key_loop :
    (k : Bytes) (set : Dict Bool) (ls : Labels)
    → has k (keys set) ≡ true
    → has k (keys (key_loop set ls)) ≡ true
unfolding key_loop
has-key_loop k set [] h = h
has-key_loop k set ((j, v) ∷ ls) h =
    has-key_loop k (insert j true set) ls (ground (arith, has-insert k j set))

has-key_loop_new :
    (k : Bytes) (set : Dict Bool) (ls : Labels)
    → has k (keys ls) ≡ true
    → has k (keys (key_loop set ls)) ≡ true
unfolding key_loop
has-key_loop_new k set [] h = cc
has-key_loop_new k set ((j, v) ∷ ls) h = elim (Bool-cases (str_eq j k)) [
  | inl same ↦ has-key_loop k (insert j true set) ls (ground (arith, has-insert k j set))
  | inr other ↦ has-key_loop_new k (insert j true set) ls (ground arith)
]

module _ {V : Type 0} where
  has-key_set_loop :
      (k : Bytes) (set : Dict Bool) (ms : List (Metric V))
      → has k (keys set) ≡ true
      → has k (keys (key_set_loop set ms)) ≡ true
  unfolding key_set_loop
  has-key_set_loop k set [] h = h
  has-key_set_loop k set (m ∷ ms) h =
      has-key_set_loop k (key_loop set (read_labels m.label_map)) ms
        (has-key_loop k set (read_labels m.label_map) h)

  -- The labels of `m` are among the columns `ks`.
  abbrev HasColumns : List Bytes → Metric V → Type 0
  HasColumns ks m = (k : Bytes) → has k (keys (read_labels m.label_map)) ≡ true → has k ks ≡ true

  HasColumns-key_set_loop :
      (set : Dict Bool) (ms : List (Metric V)) → All (HasColumns (keys (key_set_loop set ms))) ms
  unfolding key_set_loop
  HasColumns-key_set_loop set [] = tt
  HasColumns-key_set_loop set (m ∷ ms) = (
    λ k h.
        has-key_set_loop k (key_loop set (read_labels m.label_map)) ms
          (has-key_loop_new k set (read_labels m.label_map) h),
    HasColumns-key_set_loop (key_loop set (read_labels m.label_map)) ms,
  )

  HasColumns-collect_label_keys :
      (ms : List (Metric V)) → All (HasColumns (collect_label_keys ms)) ms
  unfolding collect_label_keys
  HasColumns-collect_label_keys ms =
      All-mono _ _ ms (λ m h k there. any-sort_strings (λ j. str_eq j k) _ ∙ h k there)
        (HasColumns-key_set_loop [] ms)

  read_labels_field :
      (ks : List Bytes) (m : Metric V)
      → HasColumns ks m
      → (k : Bytes)
      → lookup_or k [] (zip ks (label_fields (read_labels m.label_map) ks))
        ≡ lookup_or k [] (read_labels m.label_map)
  read_labels_field ks m columns k = elim (Bool-cases (has k (keys (read_labels m.label_map)))) [
    | inl there ↦
        read_field k (read_labels m.label_map) ks
        ∙ ap (λ b. if b then lookup_or k [] (read_labels m.label_map) else []) (columns k there)
    | inr missing ↦
        read_field k (read_labels m.label_map) ks ∙ absent ks (lookup_or-none k _ missing)
  ]
    where
      absent :
          (ks : List Bytes)
          → lookup_or k [] (read_labels m.label_map) ≡ []
          → (if has k ks then lookup_or k [] (read_labels m.label_map) else [])
            ≡ lookup_or k [] (read_labels m.label_map)
      absent ks e = rw e (same (has k ks))
        where
          same : (b : Bool) → ◌≡◌ {A = Bytes} (if b then [] else []) []
          same true = refl
          same false = refl

-- A writer that keeps the rows.
abbrev pub keep_row : List (List Bytes) → List Bytes → List (List Bytes) × Bool
keep_row rows row = (rows ++ row ∷ [], true)

module _ {V : Type 0} (format_time : Time → Bytes) (format_value : V → Bytes) where
  write_rows-keep_row :
      (out rows : List (List Bytes))
      → write_rows format_time format_value keep_row out rows ≡ (out ++ rows, true)
  unfolding write_rows
  write_rows-keep_row out [] = ap (λ o. (o, true)) (sym (append-nil out))
  write_rows-keep_row out (row ∷ rows) =
      write_rows-keep_row (out ++ row ∷ []) rows
      ∙ ap (λ o. (o, true)) (append_assoc out (row ∷ []) rows)

  -- A row that fits under the header `header`. Read by the names there, the first four columns are
  -- the fields of the metric, and the others tell each of its labels, with an empty text for those
  -- it does not have.
  abbrev pub FitsColumns : List Bytes → List Bytes → Metric V → Type 0
  FitsColumns header ks m =
      let row = csv_row format_time format_value ks m in
      (length row ≡ length header)
      × (zip (take 4 header) (take 4 row)
          ≡ (codes "timestamp", format_time m.timestamp)
            ∷ (codes "name", m.name)
            ∷ (codes "type", m.type)
            ∷ (codes "value", format_value m.value)
            ∷ [])
      × ((k : Bytes)
          → lookup_or k [] (zip (drop 4 header) (drop 4 row))
            ≡ lookup_or k [] (read_labels m.label_map))

  module _ {S : Type 0} (ops : StorageOps V S) where
    -- A CSV export of the metrics that the storage gives writes the header and a row for each metric,
    -- in their order. Each row has as many fields as the header. Read by the names in the header, its
    -- first four fields are the time, the name, the type and the value of the metric, and those
    -- behind them give the value of each label of the metric, and an empty text for any other label.
    pub export_to_csv-FitsColumns :
        (now : Time) (s : S) (opts : ExportOptions) (ms : List (Metric V))
        → ops.query s (export_request opts) ≡ some ms
        → (let ks = collect_label_keys ms in
            (export_to_csv format_time format_value keep_row ops now s opts [] ≡ (
              csv_header ks ∷ map (csv_row format_time format_value ks) ms,
              some (export_result (codes "csv") now opts (length ms)),
            ))
            × All (FitsColumns (csv_header ks) ks) ms)
    unfolding export_to_csv
    export_to_csv-FitsColumns now s opts ms found = (
      rw (export_to_csv, found)
          (let ks = collect_label_keys ms in
            ap
              (λ o. (
                o.0,
                if o.1 then some (export_result (codes "csv") now opts (length ms)) else none,
              ))
              (write_rows-keep_row []
                (csv_header ks ∷ map (csv_row format_time format_value ks) ms))),
      All-mono _ _ ms
          (λ m columns. (
            omega (arith, length-label_fields (read_labels m.label_map) (collect_label_keys ms)),
            refl,
            read_labels_field _ m columns,
          ))
          (HasColumns-collect_label_keys ms),
    )
