-- ===== src/Sdk/Histogram.antt =====
-- pkg/sdk/metrics/histogram.go. The map iteration of `Flush` follows the order of the list; a write
-- to a nil map is a `panic`. `format3` is `fmt.Sprintf("%.3f", _)`.
pub mod Counts
pub mod Panics
use tinyobs.Base.{
  ℕ, suc, ◌+◌, ◌%◌, ◌^◌, ◌==◌, ◌&&◌, ◌||◌, Bool, List, [], ◌∷◌, ◌++◌, map, Option, none, some,
  Bytes, codes, Dict, insert, lookup, length, if◌then◌else◌,
}
use tinyobs.Float.{FloatOps}
use tinyobs.Metric.{Metric, Time, Labels, histogram_type}
use tinyobs.Query.Outcome.{Outcome, ok, panic, ◌>>=◌}
use tinyobs.Sdk.Labels.{make_key, key_to_labels}

pub record BucketSet (V : Type 0) : Type 0 where
  pub buckets : List V
  pub counts : List ℕ
  pub sum : V
  pub count : ℕ

pub record Histogram (V : Type 0) : Type 0 where
  pub name : Bytes
  pub buckets : List V
  pub sets : Dict (BucketSet V)

-- `strings.TrimRight(s, string(c))`
unfoldable pub trim_right : ℕ → Bytes → Bytes
trim_right c [] = []
trim_right c (x ∷ xs) =
    let rest = trim_right c xs in if x == c && length rest == 0 then [] else x ∷ rest

-- `uint64` addition of 1
abbrev pub next_count : ℕ → ℕ
next_count n = suc n % 2 ^ 64

-- `make([]uint64, len(buckets))`, and the counts after a reset
unfoldable pub zeros {ℓ} : {A : Type ℓ} → List A → List ℕ
zeros [] = []
zeros (b ∷ bs) = 0 ∷ zeros bs

module _ {V : Type 0} ⦃F : FloatOps V⦄ where
  abbrev pub default_buckets : List V
  default_buckets =
      map (λ s. F.parse_float s)
        (codes "0.001"
          ∷ codes "0.005"
          ∷ codes "0.01"
          ∷ codes "0.025"
          ∷ codes "0.05"
          ∷ codes "0.1"
          ∷ codes "0.25"
          ∷ codes "0.5"
          ∷ codes "1.0"
          ∷ codes "2.5"
          ∷ codes "5.0"
          ∷ codes "10.0"
          ∷ [])

  abbrev pub new_bucket_set : List V → BucketSet V
  new_bucket_set bs = record { buckets = bs; counts = zeros bs; sum = F.zero_value; count = 0 }

  -- `value <= bound`
  abbrev pub le : V → V → Bool
  le a b = F.lt a b || F.eq a b

  -- The loop of `observe`; the two slices have one length.
  unfoldable pub count_loop : V → List V → List ℕ → List ℕ
  count_loop value [] ns = ns
  count_loop value (b ∷ bs) [] = []
  count_loop value (b ∷ bs) (n ∷ ns) =
      (if le value b then next_count n else n) ∷ count_loop value bs ns

  unfoldable pub observe_set : V → BucketSet V → BucketSet V
  observe_set value s = record s {
    counts = count_loop value s.buckets s.counts;
    sum = F.add s.sum value;
    count = next_count s.count;
  }

  unfoldable pub reset : BucketSet V → BucketSet V
  reset s = record s { counts = zeros s.counts; sum = F.zero_value; count = 0 }

  abbrev pub new_histogram : Bytes → Histogram V
  new_histogram name = record { name = name; buckets = default_buckets; sets = [] }

  unfoldable pub observe : V → List Bytes → Histogram V → Histogram V
  observe value labels h =
      let key = make_key labels in
      let set : BucketSet V = elim (lookup key h.sets) [
        | some s ↦ s
        | none ↦ new_bucket_set h.buckets
      ] in
      record h { sets = insert key (observe_set value set) h.sets }

  -- A metric of a flush, which gets no timestamp.
  abbrev pub flushed : Bytes → V → Option Labels → Metric V
  flushed name v ls = record {
    name = name;
    type = histogram_type;
    value = v;
    label_map = ls;
    timestamp = 0;
  }

  module _ (format3 : V → Bytes) where
    unfoldable pub format_bound : V → Bytes
    format_bound b =
        if F.eq b (F.parse_float (codes "10.0"))
        then codes "+Inf"
        else trim_right b'.' (trim_right b'0' (format3 b))

    -- `bucketLabels["le"] = formatBound(bound)`
    unfoldable pub with_bound : Option Labels → V → Outcome Labels
    with_bound none b = panic
    with_bound (some ls) b = ok (insert (codes "le") (format_bound b) ls)

    unfoldable pub bucket_metrics :
        Bytes → Option Labels → List V → List ℕ → Outcome (List (Metric V))
    bucket_metrics name ls [] ns = ok []
    bucket_metrics name ls (b ∷ bs) [] = panic
    bucket_metrics name ls (b ∷ bs) (n ∷ ns) = with_bound ls b >>= λ bucket_labels.
        bucket_metrics name ls bs ns >>= λ rest.
        ok (flushed (name ++ codes "_bucket") (F.of_ℕ n) (some bucket_labels) ∷ rest)

    -- What is sent for one set that has observations.
    unfoldable pub set_metrics : Bytes → Bytes → BucketSet V → Outcome (List (Metric V))
    set_metrics name key s =
        let ls = key_to_labels key in
        bucket_metrics name ls s.buckets s.counts >>= λ buckets. ok (
          buckets
          ++ (flushed (name ++ codes "_sum") s.sum ls
              ∷ flushed (name ++ codes "_count") (F.of_ℕ s.count) ls
              ∷ []))

    -- The loop of `Flush`: the sets afterwards, and the metrics.
    unfoldable pub flush_sets :
        Bytes → Dict (BucketSet V) → Outcome (Dict (BucketSet V) × List (Metric V))
    flush_sets name [] = ok ([], [])
    flush_sets name ((key, s) ∷ sets) =
        let skip = flush_sets name sets >>= λ r. ok ((key, s) ∷ r.0, r.1) in
        let send = set_metrics name key s >>= λ ms.
        flush_sets name sets >>= λ r. ok ((key, reset s) ∷ r.0, ms ++ r.1) in
        if s.count == 0 then skip else send

    unfoldable pub flush : Histogram V → Outcome (Histogram V × List (Metric V))
    flush h = flush_sets h.name h.sets >>= λ r. ok (record h { sets = r.0 }, r.1)
