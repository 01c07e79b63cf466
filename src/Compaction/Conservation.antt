-- ===== src/Compaction/Conservation.antt =====
-- pkg/compaction/compactor.go: the counts of the buckets.
use tinyobs.Base.{
  ℕ, ◌+◌, ◌^◌, ◌<◌, ◌≡◌, refl, List, [], ◌∷◌, Option, none, some, Bytes, str_eq, Dict, lookup,
  insert, total, count_of, total-insert, count_of-lookup, filter, length, if◌then◌else◌, Bool-cases,
  inl, inr, ◌∙◌, arith,
}
use tinyobs.Compaction.Aggregate.{Aggregate, resolution_5m, from_metric}
use tinyobs.Compaction.Compactor.{
  absorb, or_else, is_raw, add_raw, group_raw, add_5m, group_step, group_5m,
}
use tinyobs.Float.{FloatOps}
use tinyobs.Metric.{Time, Metric}

-- All samples that the buckets account for.
abbrev pub samples : {V : Type 0} → Dict (Aggregate V) → ℕ
samples = total (λ a. a.count)

module _ {V : Type 0} ⦃F : FloatOps V⦄ where
  -- The count of a bucket behind one more aggregate, if it does not overflow.
  count-absorb :
      (sum : V) (n : ℕ) (min max : V) (new : Aggregate V) (o : Option (Aggregate V))
      → new.count ≡ 0
      → count_of (λ a. a.count) o + n < 2 ^ 64
      → (absorb sum n min max (or_else o new)).count ≡ count_of (λ a. a.count) o + n
  unfolding absorb
  count-absorb sum n min max new none z h = omega arith
  count-absorb sum n min max new (some a) z h = omega arith

  samples-insert :
      (k : Bytes) (sum : V) (n : ℕ) (min max : V) (new : Aggregate V) (buckets : Dict (Aggregate V))
      → new.count ≡ 0
      → samples buckets + n < 2 ^ 64
      → samples (insert k (absorb sum n min max (or_else (lookup k buckets) new)) buckets)
        ≡ samples buckets + n
  samples-insert k sum n min max new buckets z small =
      let held = count_of-lookup (λ (a : Aggregate V). a.count) k buckets in
      let counted = count-absorb sum n min max new (lookup k buckets) z (omega (arith, held)) in
      omega (
        arith,
        counted,
        total-insert (λ (a : Aggregate V). a.count) k
            (absorb sum n min max (or_else (lookup k buckets) new)) buckets,
      )

  -- What a stored sample counts for: its count, if it is a five-minute aggregate.
  abbrev pub weight_5m : Option (Aggregate V) → ℕ
  weight_5m none = 0
  weight_5m (some a) = if str_eq a.resolution resolution_5m then a.count else 0

  abbrev pub samples_5m : List (Metric V) → ℕ
  samples_5m [] = 0
  samples_5m (m ∷ ms) = weight_5m (from_metric m) + samples_5m ms

module _ (rfc3339 : Time → Bytes) {V : Type 0} ⦃F : FloatOps V⦄ where
  samples-add_raw :
      (m : Metric V) (buckets : Dict (Aggregate V))
      → samples buckets + 1 < 2 ^ 64
      → samples (add_raw rfc3339 m buckets) ≡ samples buckets + 1
  unfolding add_raw
  samples-add_raw m buckets h = samples-insert _ m.value 1 m.value m.value _ buckets refl h

  samples-group_raw :
      (buckets : Dict (Aggregate V)) (ms : List (Metric V))
      → samples buckets + length (filter is_raw ms) < 2 ^ 64
      → samples (group_raw rfc3339 buckets ms) ≡ samples buckets + length (filter is_raw ms)
  unfolding group_raw
  samples-group_raw buckets [] h = omega arith
  samples-group_raw buckets (m ∷ ms) h = elim (Bool-cases (is_raw m)) [
    | inl raw ↦
        let room = rw raw at h in
        let taken = samples-add_raw m buckets (omega (arith, room)) in
        rw raw (
          samples-group_raw (add_raw rfc3339 m buckets) ms (omega (arith, room, taken))
          ∙ omega (arith, taken))
    | inr other ↦ rw other (samples-group_raw buckets ms (rw other at h))
  ]

  -- The counts of the five-minute buckets add up to the number of raw samples that are grouped, as
  -- long as that number fits in the 64 bits of a counter.
  pub group_raw_conserves :
      (ms : List (Metric V))
      → length (filter is_raw ms) < 2 ^ 64
      → samples (group_raw rfc3339 [] ms) ≡ length (filter is_raw ms)
  group_raw_conserves ms h = samples-group_raw [] ms (omega arith) ∙ omega arith

  samples-group_step :
      (o : Option (Aggregate V)) (t : Time) (buckets : Dict (Aggregate V))
      → samples buckets + weight_5m o < 2 ^ 64
      → samples (group_step rfc3339 o t buckets) ≡ samples buckets + weight_5m o
  unfolding group_step add_5m
  samples-group_step none t buckets h = omega arith
  samples-group_step (some a) t buckets h = elim (Bool-cases (str_eq a.resolution resolution_5m)) [
    | inl five ↦ rw five (samples-insert _ a.sum a.count a.min a.max _ buckets refl (rw five at h))
    | inr other ↦ rw other (omega arith)
  ]

  samples-group_5m :
      (buckets : Dict (Aggregate V)) (ms : List (Metric V))
      → samples buckets + samples_5m ms < 2 ^ 64
      → samples (group_5m rfc3339 buckets ms) ≡ samples buckets + samples_5m ms
  unfolding group_5m
  samples-group_5m buckets [] h = omega arith
  samples-group_5m buckets (m ∷ ms) h =
      let taken = samples-group_step (from_metric m) m.timestamp buckets (omega arith) in
      samples-group_5m (group_step rfc3339 (from_metric m) m.timestamp buckets) ms
        (omega (arith, taken))
      ∙ omega (arith, taken)

  -- The counts of the hour buckets add up to the counts of the five-minute aggregates that are
  -- grouped, as long as their sum fits in the 64 bits of a counter.
  pub group_5m_conserves :
      (ms : List (Metric V))
      → samples_5m ms < 2 ^ 64
      → samples (group_5m rfc3339 [] ms) ≡ samples_5m ms
  group_5m_conserves ms h = samples-group_5m [] ms (omega arith) ∙ omega arith
