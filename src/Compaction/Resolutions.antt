-- ===== src/Compaction/Resolutions.antt =====
-- pkg/compaction/compactor.go: the resolutions of what a compaction writes.
use tinyobs.Base.{
  ℕ, ◌≡◌, refl, Bool, false, List, [], ◌∷◌, Option, none, some, Bytes, Dict, map, str_eq, lookup,
  lookup_or-insert, insert, All, filter, filter-append, Bool-cases, inl, inr, ap, ◌∙◌,
}
use mathlib.Core.List.{append-nil}
use tinyobs.Compaction.Aggregate.{
  Aggregate, Resolution, resolution_5m, resolution_1h, stored_labels, to_metric, from_metric,
}
use tinyobs.Compaction.Compactor.{
  values, or_else, is_raw, absorb, add_raw, group_raw, add_5m, group_step, group_5m, write_all,
}
use tinyobs.Float.{FloatOps}
use tinyobs.Metric.{Time, Metric}
use tinyobs.Storage.Memory.Writes.{write-cases}
use tinyobs.Storage.Memory.{Storage, memory_ops, resolution_of, write}

module _ {A : Type 0} (P : A → Type 0) where
  values-insert :
      (k : Bytes) (v : A) (m : Dict A) → P v → All P (values m) → All P (values (insert k v m))
  unfolding insert
  values-insert k v [] p h = (p, tt)
  values-insert k v ((j, w) ∷ m) p h = elim (Bool-cases (str_eq j k)) [
    | inl same ↦ rw same (p, h.1)
    | inr other ↦ rw other (h.0, values-insert k v m p h.1)
  ]

  values-lookup : (k : Bytes) (v : A) (m : Dict A) → All P (values m) → lookup k m ≡ some v → P v
  unfolding lookup
  values-lookup k v [] h e = absurd (cc)
  values-lookup k v ((j, w) ∷ m) h e = elim (Bool-cases (str_eq j k)) [
    | inl same ↦ (let found : some w ≡ some v = rw same at e in let eq : w ≡ v = cc in rw eq at h.0)
    | inr other ↦ values-lookup k v m h.1 (rw other at e)
  ]

module _ {V : Type 0} ⦃F : FloatOps V⦄ where
  -- Every bucket has the resolution `r`.
  abbrev pub AllAt : Resolution → Dict (Aggregate V) → Type 0
  AllAt r buckets = All (λ (a : Aggregate V). a.resolution ≡ r) (values buckets)

  AllAt-insert :
      (r : Resolution) (k : Bytes) (sum : V) (n : ℕ) (min max : V) (new : Aggregate V)
      (buckets : Dict (Aggregate V))
      → new.resolution ≡ r
      → AllAt r buckets
      → AllAt r (insert k (absorb sum n min max (or_else (lookup k buckets) new)) buckets)
  unfolding absorb
  AllAt-insert r k sum n min max new buckets e h =
      values-insert (λ (a : Aggregate V). a.resolution ≡ r) k _ buckets (go (lookup k buckets) refl)
        h
    where
      go : (o : Option (Aggregate V)) → lookup k buckets ≡ o → (or_else o new).resolution ≡ r
      go none found = e
      go (some a) found = values-lookup (λ (a : Aggregate V). a.resolution ≡ r) k a buckets h found

  module _ (rfc3339 : Time → Bytes) where
    pub group_raw-AllAt :
        (buckets : Dict (Aggregate V)) (ms : List (Metric V))
        → AllAt resolution_5m buckets
        → AllAt resolution_5m (group_raw rfc3339 buckets ms)
    unfolding group_raw add_raw
    group_raw-AllAt buckets [] h = h
    group_raw-AllAt buckets (m ∷ ms) h = elim (Bool-cases (is_raw m)) [
      | inl raw ↦ rw raw (
          group_raw-AllAt (add_raw rfc3339 m buckets) ms
            (AllAt-insert resolution_5m _ m.value 1 m.value m.value _ buckets refl h))
      | inr other ↦ rw other (group_raw-AllAt buckets ms h)
    ]

    group_step-AllAt :
        (o : Option (Aggregate V)) (t : Time) (buckets : Dict (Aggregate V))
        → AllAt resolution_1h buckets
        → AllAt resolution_1h (group_step rfc3339 o t buckets)
    unfolding group_step add_5m
    group_step-AllAt none t buckets h = h
    group_step-AllAt (some a) t buckets h = elim (Bool-cases (str_eq a.resolution resolution_5m)) [
      | inl five ↦ rw five (AllAt-insert resolution_1h _ a.sum a.count a.min a.max _ buckets refl h)
      | inr other ↦ rw other h
    ]

    pub group_5m-AllAt :
        (buckets : Dict (Aggregate V)) (ms : List (Metric V))
        → AllAt resolution_1h buckets
        → AllAt resolution_1h (group_5m rfc3339 buckets ms)
    unfolding group_5m
    group_5m-AllAt buckets [] h = h
    group_5m-AllAt buckets (m ∷ ms) h =
        group_5m-AllAt (group_step rfc3339 (from_metric m) m.timestamp buckets) ms
          (group_step-AllAt (from_metric m) m.timestamp buckets h)

  resolution_of-to_metric : (a : Aggregate V) → resolution_of (to_metric a) ≡ a.resolution
  unfolding to_metric stored_labels
  resolution_of-to_metric a = simp lookup_or-insert (unfold str_eq in refl)

  -- A test that rejects the samples of a resolution rejects all that is written for its buckets.
  filter-written :
      (p : Metric V → Bool) (r : Resolution) (bs : List (Aggregate V))
      → ((m : Metric V) → resolution_of m ≡ r → p m ≡ false)
      → All (λ (a : Aggregate V). a.resolution ≡ r) bs
      → filter p (map to_metric bs) ≡ []
  filter-written p r [] reject h = refl
  filter-written p r (a ∷ bs) reject h =
      rw (reject (to_metric a) (resolution_of-to_metric a ∙ h.0)) (filter-written p r bs reject h.1)

  filter-write :
      (p : Metric V → Bool) (s : Storage V) (ms : List (Metric V))
      → filter p ms ≡ []
      → filter p (write s ms).0.metrics ≡ filter p s.metrics
  filter-write p s ms none_passes = elim (write-cases s ms) [
    | inl (_, appended, _, _) ↦
        ap (filter p) appended
        ∙ filter-append p s.metrics ms
        ∙ rw none_passes (append-nil (filter p s.metrics))
    | inr (_, same, _) ↦ ap (λ (t : Storage V). filter p t.metrics) same
  ]

  -- So what such a test selects of the storage is what it was.
  pub filter-write_all :
      (p : Metric V → Bool) (r : Resolution) (s : Storage V) (buckets : Dict (Aggregate V))
      → ((m : Metric V) → resolution_of m ≡ r → p m ≡ false)
      → AllAt r buckets
      → filter p (write_all memory_ops s (map to_metric (values buckets))).0.metrics
        ≡ filter p s.metrics
  unfolding write_all
  filter-write_all p r s buckets reject h =
      go (map to_metric (values buckets)) (filter-written p r (values buckets) reject h)
    where
      go :
          (ms : List (Metric V))
          → filter p ms ≡ []
          → filter p (write_all memory_ops s ms).0.metrics ≡ filter p s.metrics
      go [] e = refl
      go (m ∷ ms) e = filter-write p s (m ∷ ms) e
