-- ===== src/Compaction/RoundTrip.antt =====
-- pkg/compaction/types.go: an aggregate written as a sample and read.
use tinyobs.Base.{
  ℕ, ◌^◌, ◌<◌, ◌≡◌, refl, ◌∙◌, ap, false, [], ◌∷◌, Option, none, some, Bytes, All, str_eq, lookup,
  lookup_or, insert, lookup-insert, lookup_or-insert, ◌==◌, arith,
}
use tinyobs.Compaction.Aggregate.{
  Aggregate, resolution_label, sum_label, count_label, min_label, max_label, user_labels,
  stored_labels, to_metric, scan_aggregate, from_metric,
}
use tinyobs.Compaction.Decimal.{format_uint, scan_uint, scan_uint-format_uint}
use tinyobs.Float.{FloatOps}
use tinyobs.Metric.{Labels, Metric}

-- A label of a user: its key is not empty, and does not begin with `_`.
abbrev IsUserKey : Bytes → Type 0
IsUserKey [] = ⊥
IsUserKey (c ∷ k) = (c == b'_') ≡ false

abbrev pub AreUserLabels : Labels → Type 0
AreUserLabels = All (λ kv. IsUserKey kv.0)

user_labels_same : (ls : Labels) → AreUserLabels ls → user_labels ls ≡ ls
unfolding user_labels
user_labels_same [] h = refl
user_labels_same (([], v) ∷ ls) h = absurd h.0
user_labels_same ((c ∷ k, v) ∷ ls) h = rw h.0 (ap (◌∷◌ (c ∷ k, v)) (user_labels_same ls h.1))

-- A special label leaves no trace among those of the user.
user_labels-insert :
    (k v : Bytes) (ls : Labels) → user_labels (insert (b'_' ∷ k) v ls) ≡ user_labels ls
unfolding user_labels insert str_eq
user_labels-insert k v [] = refl
user_labels-insert k v (([], w) ∷ ls) = user_labels-insert k v ls
user_labels-insert k v ((c ∷ j, w) ∷ ls) = ground (arith, user_labels-insert k v ls)

module _ {V : Type 0} ⦃F : FloatOps V⦄ where
  labels-stored :
      (a : Aggregate V) → AreUserLabels a.labels → user_labels (stored_labels a) ≡ a.labels
  unfolding stored_labels
  labels-stored a h = simp user_labels-insert (user_labels_same a.labels h)

  resolution-stored :
      (a : Aggregate V) → lookup resolution_label (stored_labels a) ≡ some a.resolution
  unfolding stored_labels
  resolution-stored a = simp lookup-insert (unfold str_eq in refl)

  sum-stored : (a : Aggregate V) → lookup_or sum_label [] (stored_labels a) ≡ F.format_float a.sum
  unfolding stored_labels
  sum-stored a = simp lookup_or-insert (unfold str_eq in refl)

  count-stored :
      (a : Aggregate V) → lookup_or count_label [] (stored_labels a) ≡ format_uint a.count
  unfolding stored_labels
  count-stored a = simp lookup_or-insert (unfold str_eq in refl)

  min-stored : (a : Aggregate V) → lookup_or min_label [] (stored_labels a) ≡ F.format_float a.min
  unfolding stored_labels
  min-stored a = simp lookup_or-insert (unfold str_eq in refl)

  max-stored : (a : Aggregate V) → lookup_or max_label [] (stored_labels a) ≡ F.format_float a.max
  unfolding stored_labels
  max-stored a = simp lookup_or-insert (unfold str_eq in refl)

  -- What the four scans give.
  scan_aggregate-some :
      (resolution : Bytes) (ls : Labels) (m : Metric V) (sum : V) (count : ℕ) (min max : V)
      → F.scan_float (lookup_or sum_label [] ls) ≡ some sum
      → scan_uint (lookup_or count_label [] ls) ≡ some count
      → F.scan_float (lookup_or min_label [] ls) ≡ some min
      → F.scan_float (lookup_or max_label [] ls) ≡ some max
      → scan_aggregate resolution ls m
        ≡ some (record {
          name = m.name;
          labels = user_labels ls;
          timestamp = m.timestamp;
          resolution = resolution;
          sum = sum;
          count = count;
          min = min;
          max = max;
        })
  unfolding scan_aggregate
  scan_aggregate-some resolution ls m sum count min max a b c d = ground arith

  -- `printed v` is the value that is read back from the six decimals of `v`.
  module _ (printed : V → V)
      (scan_format : (v : V) → F.scan_float (F.format_float v) ≡ some (printed v)) where
    scan_aggregate-stored :
        (a : Aggregate V)
        → AreUserLabels a.labels
        → a.count < 2 ^ 64
        → scan_aggregate a.resolution (stored_labels a) (to_metric a)
          ≡ some (record a { sum = printed a.sum; min = printed a.min; max = printed a.max })
    unfolding to_metric
    scan_aggregate-stored a h k =
        scan_aggregate-some a.resolution (stored_labels a) (to_metric a) (printed a.sum) a.count
          (printed a.min) (printed a.max) (rw sum-stored (scan_format a.sum))
          (rw count-stored (scan_uint-format_uint a.count k)) (rw min-stored (scan_format a.min))
          (rw max-stored (scan_format a.max))
        ∙ rw (labels-stored a h)

    -- An aggregate that is stored as a sample is read back with its name, user labels, time,
    -- resolution and count, and with the sum, minimum and maximum as the six decimals of their
    -- texts keep them, if no label of the user is empty or begins with an underscore.
    pub from_metric-to_metric :
        (a : Aggregate V)
        → AreUserLabels a.labels
        → a.count < 2 ^ 64
        → from_metric (to_metric a)
          ≡ some (record a { sum = printed a.sum; min = printed a.min; max = printed a.max })
    unfolding from_metric to_metric
    from_metric-to_metric a h k =
        go (lookup resolution_label (stored_labels a)) (resolution-stored a)
      where
        go :
            (o : Option Bytes)
            → o ≡ some a.resolution
            → elim o [ none ↦ none | some r ↦ scan_aggregate r (stored_labels a) (to_metric a) ]
              ≡ some (record a { sum = printed a.sum; min = printed a.min; max = printed a.max })
        go none e = cc
        go (some r) e = let same : r ≡ a.resolution = cc in rw same (scan_aggregate-stored a h k)
