-- ===== src/Ingest/Limits.antt =====
-- pkg/ingest/limits.go. An error keeps which limit it is about, without its message.
use tinyobs.Base.{
  ℕ, ◌≤◌, ◌≡◌, ◌≢◌, ◌↔◌, refl, [], ◌∷◌, Option, none, some, All, length, ltb, if◌then◌else◌, arith,
}
use tinyobs.Metric.{Metric, Labels, read_labels}

abbrev pub max_labels_per_metric : ℕ
max_labels_per_metric = 20

abbrev pub max_label_key_length : ℕ
max_label_key_length = 256

abbrev pub max_label_value_length : ℕ
max_label_value_length = 1024

abbrev pub max_metric_name_length : ℕ
max_metric_name_length = 256

abbrev pub max_unique_series : ℕ
max_unique_series = 100000

abbrev pub max_series_per_metric : ℕ
max_series_per_metric = 10000

abbrev pub max_metrics_per_request : ℕ
max_metrics_per_request = 1000

pub data LimitError : Type 0 where
  too_many_labels label_key_too_long label_value_too_long : LimitError
  metric_name_too_long metric_name_empty : LimitError
  cardinality_limit metric_cardinality_limit too_many_metrics : LimitError

-- The loop over the labels.
validate_labels : Labels → Option LimitError
validate_labels [] = none
validate_labels ((k, v) ∷ ls) =
    let rest = validate_labels ls in
    if ltb max_label_key_length (length k)
    then some LimitError.label_key_too_long
    else if ltb max_label_value_length (length v)
    then some LimitError.label_value_too_long
    else rest

unfoldable pub validate_metric : {V : Type 0} → Metric V → Option LimitError
unfolding validate_labels
validate_metric m =
    let n = length m.name in
    let ls = read_labels m.label_map in
    if ltb n 1
    then some LimitError.metric_name_empty
    else if ltb max_metric_name_length n
    then some LimitError.metric_name_too_long
    else if ltb max_labels_per_metric (length ls)
    then some LimitError.too_many_labels
    else validate_labels ls

-- What the limits ask of a sample.
pub record IsValid {V : Type 0} (m : Metric V) : Type 0 where
  pub name_given : m.name ≢ []
  pub name_short : length m.name ≤ max_metric_name_length
  pub few_labels : length (read_labels m.label_map) ≤ max_labels_per_metric
  pub short_labels :
      All
        (λ kv. (length kv.0 ≤ max_label_key_length) × (length kv.1 ≤ max_label_value_length))
        (read_labels m.label_map)

abbrev ShortLabels : Labels → Type 0
ShortLabels =
    All (λ kv. (length kv.0 ≤ max_label_key_length) × (length kv.1 ≤ max_label_value_length))

validate_labels_iff : (ls : Labels) → (validate_labels ls ≡ none) ↔ ShortLabels ls
unfolding validate_labels
validate_labels_iff [] = ((λ _. tt), λ _. refl)
validate_labels_iff ((k, v) ∷ ls) =
    ((λ h. ground (arith, validate_labels_iff ls)), λ h. ground (arith, validate_labels_iff ls))

-- `ValidateMetric` accepts a sample exactly if its name is given and it keeps the limits on the
-- name's length, the number of labels, and the length of every key and value.
pub validate_metric_iff : {V : Type 0} (m : Metric V) → (validate_metric m ≡ none) ↔ IsValid m
unfolding validate_metric
validate_metric_iff m = (accepted, rejected)
  where
    ls : Labels
    ls = read_labels m.label_map

    accepted : validate_metric m ≡ none → IsValid m
    accepted h = record {
      name_given = λ e. ground arith;
      name_short = ground arith;
      few_labels = ground arith;
      short_labels = (validate_labels_iff ls).0 (ground arith);
    }

    rejected : IsValid m → validate_metric m ≡ none
    rejected v = ground (arith, (validate_labels_iff ls).1 v.short_labels, v)
