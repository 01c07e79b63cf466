-- ===== src/Compaction/Extremes.antt =====
-- pkg/compaction/compactor.go: the minimum and the maximum of a bucket.
use tinyobs.Base.{
  ℕ, ◌≡◌, false, List, [], ◌∷◌, some, Bytes, str_eq, str_eq_iff, Dict, lookup, lookup-insert,
  lookup-insert_self, All, filter, Bool-cases, inl, inr,
}
use tinyobs.Compaction.Aggregate.{Aggregate, resolution_5m}
use tinyobs.Compaction.Compactor.{aggregate_key, absorb, fresh, or_else, is_raw, add_raw, group_raw}
use tinyobs.Compaction.Rounding.{round_to_5_minutes}
use tinyobs.Float.Order.{IsStrictOrder, lt_lowered, lt_raised, lt_own_min, lt_own_max}
use tinyobs.Float.{FloatOps}
use tinyobs.Metric.{Time, Metric, read_labels}

module _ (rfc3339 : Time → Bytes) {V : Type 0} ⦃F : FloatOps V⦄ (order : IsStrictOrder F.lt) where
  -- The key of the bucket that a raw sample belongs to.
  abbrev bucket_key : Metric V → Bytes
  bucket_key m =
      aggregate_key rfc3339 m.name (read_labels m.label_map) (round_to_5_minutes m.timestamp)

  -- The value is neither below the minimum nor above the maximum.
  abbrev Bounds : V → Aggregate V → Type 0
  Bounds v a = (F.lt v a.min ≡ false) × (F.lt a.max v ≡ false)

  Bounds-absorb_own : (v sum : V) (n : ℕ) (a : Aggregate V) → Bounds v (absorb sum n v v a)
  unfolding absorb
  Bounds-absorb_own v sum n a = (lt_own_min order v a.min, lt_own_max order v a.max)

  Bounds-absorb :
      (w v sum : V) (n : ℕ) (a : Aggregate V) → Bounds w a → Bounds w (absorb sum n v v a)
  unfolding absorb
  Bounds-absorb w v sum n a h = (lt_lowered order w v a.min h.0, lt_raised order w v a.max h.1)

  -- The bucket of a sample is there, and bounds its value.
  abbrev IsCovered : Dict (Aggregate V) → Metric V → Type 0
  IsCovered buckets m =
      (a : Aggregate V) × (lookup (bucket_key m) buckets ≡ some a) × Bounds m.value a

  IsCovered-add_raw_own :
      (m : Metric V) (buckets : Dict (Aggregate V)) → IsCovered (add_raw rfc3339 m buckets) m
  unfolding add_raw
  IsCovered-add_raw_own m buckets =
      let old = or_else (lookup (bucket_key m) buckets) (
        fresh m.name (read_labels m.label_map) (round_to_5_minutes m.timestamp) resolution_5m
          m.value m.value) in
      (
        absorb m.value 1 m.value m.value old,
        lookup-insert_self (bucket_key m) _ buckets,
        Bounds-absorb_own m.value m.value 1 old,
      )

  IsCovered-add_raw :
      (m x : Metric V) (buckets : Dict (Aggregate V))
      → IsCovered buckets x
      → IsCovered (add_raw rfc3339 m buckets) x
  unfolding add_raw
  IsCovered-add_raw m x buckets (a, e, h) =
      elim (Bool-cases (str_eq (bucket_key m) (bucket_key x))) [
        | inl same ↦
            let key : bucket_key m ≡ bucket_key x =
              (str_eq_iff (bucket_key m) (bucket_key x)).0 same in
            let old : lookup (bucket_key m) buckets ≡ some a = rw key e in
            (
              absorb m.value 1 m.value m.value a,
              rw (lookup-insert, same, old),
              Bounds-absorb x.value m.value m.value 1 a h,
            )
        | inr other ↦ (a, rw (lookup-insert, other) e, h)
      ]

  IsCovered-group_raw :
      (x : Metric V) (buckets : Dict (Aggregate V)) (ms : List (Metric V))
      → IsCovered buckets x
      → IsCovered (group_raw rfc3339 buckets ms) x
  unfolding group_raw
  IsCovered-group_raw x buckets [] h = h
  IsCovered-group_raw x buckets (m ∷ ms) h = elim (Bool-cases (is_raw m)) [
    | inl raw ↦
        rw raw
          (IsCovered-group_raw x (add_raw rfc3339 m buckets) ms (IsCovered-add_raw m x buckets h))
    | inr other ↦ rw other (IsCovered-group_raw x buckets ms h)
  ]

  -- Every raw sample that is grouped finds the bucket of its name, labels and five minutes, whose
  -- minimum is not above its value and whose maximum is not below it.
  pub group_raw-IsCovered :
      (buckets : Dict (Aggregate V)) (ms : List (Metric V))
      → All
          (λ m.
            (a : Aggregate V) × (lookup
                (aggregate_key rfc3339 m.name
                  (read_labels m.label_map)
                  (round_to_5_minutes m.timestamp))
                (group_raw rfc3339 buckets ms)
              ≡ some a)
            × (F.lt m.value a.min ≡ false)
            × (F.lt a.max m.value ≡ false))
          (filter is_raw ms)
  unfolding group_raw
  group_raw-IsCovered buckets [] = tt
  group_raw-IsCovered buckets (m ∷ ms) = elim (Bool-cases (is_raw m)) [
    | inl raw ↦
        let (a, e, h) =
          IsCovered-group_raw m (add_raw rfc3339 m buckets) ms (IsCovered-add_raw_own m buckets) in
        rw raw ((a, e, h.0, h.1), group_raw-IsCovered (add_raw rfc3339 m buckets) ms)
    | inr other ↦ rw other (group_raw-IsCovered buckets ms)
  ]
