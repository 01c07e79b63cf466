-- ===== src/Sdk/Histogram/Counts.antt =====
-- pkg/sdk/metrics/histogram.go: what the sets hold after a sequence of observations.
use tinyobs.Base.{
  ℕ, ◌%◌, ◌^◌, ◌≡◌, refl, sym, ◌∙◌, ap, Bool, true, false, List, [], ◌∷◌, ◌++◌, Option, none, some,
  Bytes, lookup, lookup-insert, length, length-append, filter, filter-append, if◌then◌else◌, str_eq,
  str_eq_iff, Bool-cases, inl, inr, arith,
}
use mathlib.Core.List.{append-nil, append_assoc}
use tinyobs.Float.{FloatOps}
use tinyobs.Sdk.Histogram.{
  BucketSet, Histogram, next_count, zeros, new_bucket_set, le, count_loop, observe_set, observe,
  default_buckets, new_histogram,
}
use tinyobs.Sdk.Labels.{make_key}

pub record Observation (V : Type 0) : Type 0 where
  pub value : V
  pub labels : List Bytes

module _ {V : Type 0} ⦃F : FloatOps V⦄ where
  unfoldable pub run_observations : Histogram V → List (Observation V) → Histogram V
  run_observations h [] = h
  run_observations h (o ∷ rest) = run_observations (observe o.value o.labels h) rest

  -- The values observed with labels of the key `k`.
  abbrev pub values_of : Bytes → List (Observation V) → List V
  values_of k [] = []
  values_of k (o ∷ rest) =
      if str_eq (make_key o.labels) k then o.value ∷ values_of k rest else values_of k rest

  abbrev pub sum_from : V → List V → V
  sum_from t [] = t
  sum_from t (v ∷ vs) = sum_from (F.add t v) vs

  -- The cumulative counts of some values: for each bound, how many are at most the bound.
  abbrev pub counts_of : List V → List V → List ℕ
  counts_of vs [] = []
  counts_of vs (b ∷ bs) = length (filter (λ v. le v b) vs) % 2 ^ 64 ∷ counts_of vs bs

  abbrev pub summary : List V → List V → BucketSet V
  summary bs vs = record {
    buckets = bs;
    counts = counts_of vs bs;
    sum = sum_from F.zero_value vs;
    count = length vs % 2 ^ 64;
  }

  -- The set for some values: there is none before the first one.
  abbrev pub set_for : List V → List V → Option (BucketSet V)
  set_for bs [] = none
  set_for bs (v ∷ vs) = some (summary bs (v ∷ vs))

  zeros-counts_of : (bs : List V) → zeros bs ≡ counts_of [] bs
  unfolding zeros
  zeros-counts_of [] = refl
  zeros-counts_of (b ∷ bs) = ap (◌∷◌ 0) (zeros-counts_of bs)

  count_one :
      (p : V → Bool) (vs : List V) (v : V)
      → (if p v then next_count (length (filter p vs) % 2 ^ 64) else length (filter p vs) % 2 ^ 64)
        ≡ length (filter p (vs ++ v ∷ [])) % 2 ^ 64
  count_one p vs v =
      rw (filter-append, length-append)
        (elim (Bool-cases (p v)) [
          | inl hit ↦ rw hit (omega arith)
          | inr miss ↦ rw miss (omega arith)
        ])

  count_loop-counts_of :
      (v : V) (vs bs : List V) → count_loop v bs (counts_of vs bs) ≡ counts_of (vs ++ v ∷ []) bs
  unfolding count_loop
  count_loop-counts_of v vs [] = refl
  count_loop-counts_of v vs (b ∷ bs) =
      ap (λ n. n ∷ count_loop v bs (counts_of vs bs)) (count_one (λ x. le x b) vs v)
      ∙ ap (λ ns. length (filter (λ x. le x b) (vs ++ v ∷ [])) % 2 ^ 64 ∷ ns)
          (count_loop-counts_of v vs bs)

  sum_from-append :
      (t : V) (vs : List V) (v : V) → F.add (sum_from t vs) v ≡ sum_from t (vs ++ v ∷ [])
  sum_from-append t [] v = refl
  sum_from-append t (w ∷ vs) v = sum_from-append (F.add t w) vs v

  observe_set-summary :
      (v : V) (bs vs : List V) → observe_set v (summary bs vs) ≡ summary bs (vs ++ v ∷ [])
  unfolding observe_set
  observe_set-summary v bs vs =
      ap (λ (r : List ℕ × V × ℕ). record { buckets = bs; counts = r.0; sum = r.1; count = r.2 })
        (ap (λ ns. (ns, F.add (sum_from F.zero_value vs) v, next_count (length vs % 2 ^ 64)))
            (count_loop-counts_of v vs bs)
          ∙ ap (λ t. (counts_of (vs ++ v ∷ []) bs, t, next_count (length vs % 2 ^ 64)))
              (sum_from-append F.zero_value vs v)
          ∙ ap (λ n. (counts_of (vs ++ v ∷ []) bs, sum_from F.zero_value (vs ++ v ∷ []), n))
              one_more)
    where
      one_more : next_count (length vs % 2 ^ 64) ≡ length (vs ++ v ∷ []) % 2 ^ 64
      one_more = rw length-append (omega arith)

  set_for-append :
      (bs vs : List V) (v : V) → set_for bs (vs ++ v ∷ []) ≡ some (summary bs (vs ++ v ∷ []))
  set_for-append bs [] v = refl
  set_for-append bs (w ∷ vs) v = refl

  -- An observation continues the set that it finds.
  observed :
      (bs vs : List V) (v : V)
      → observe_set v (elim (set_for bs vs) [ some s ↦ s | none ↦ new_bucket_set bs ])
        ≡ summary bs (vs ++ v ∷ [])
  observed bs [] v =
      ap (λ ns. observe_set v (record { buckets = bs; counts = ns; sum = F.zero_value; count = 0 }))
        (zeros-counts_of bs)
      ∙ observe_set-summary v bs []
  observed bs (w ∷ vs) v = observe_set-summary v bs (w ∷ vs)

  observe-lookup :
      (h : Histogram V) (v : V) (labels : List Bytes) (k : Bytes) (vs : List V)
      → lookup k h.sets ≡ set_for h.buckets vs
      → lookup k (observe v labels h).sets
        ≡ set_for h.buckets (if str_eq (make_key labels) k then vs ++ v ∷ [] else vs)
  unfolding observe
  observe-lookup h v labels k vs e = elim (Bool-cases (str_eq (make_key labels) k)) [
    | inl same ↦
        lookup-insert (make_key labels) k _ h.sets
        ∙ rw same (
            ap (λ o. some (observe_set v (elim o [ some s ↦ s | none ↦ new_bucket_set h.buckets ])))
              (ap (λ j. lookup j h.sets) ((str_eq_iff (make_key labels) k).0 same) ∙ e)
            ∙ ap some (observed h.buckets vs v)
            ∙ sym (set_for-append h.buckets vs v))
    | inr other ↦ lookup-insert (make_key labels) k _ h.sets ∙ rw other e
  ]

  run-lookup :
      (h : Histogram V) (rest : List (Observation V)) (k : Bytes) (vs : List V)
      → lookup k h.sets ≡ set_for h.buckets vs
      → lookup k (run_observations h rest).sets ≡ set_for h.buckets (vs ++ values_of k rest)
  unfolding run_observations observe
  run-lookup h [] k vs e = e ∙ ap (set_for h.buckets) (sym (append-nil vs))
  run-lookup h (o ∷ rest) k vs e =
      run-lookup (observe o.value o.labels h) rest k _ (observe-lookup h o.value o.labels k vs e)
      ∙ ap (set_for h.buckets) (regroup (str_eq (make_key o.labels) k))
    where
      regroup :
          (b : Bool)
          → (if b then vs ++ o.value ∷ [] else vs) ++ values_of k rest
            ≡ vs ++ (if b then o.value ∷ values_of k rest else values_of k rest)
      regroup true = append_assoc vs (o.value ∷ []) (values_of k rest)
      regroup false = refl

  -- After any observations on a new histogram, each label combination has just the set that
  -- describes the values observed with it: the count of each bucket is the number of values that
  -- are at most its bound, and the sum and the count are those of the values, with all counts
  -- modulo 2^64; where none was observed, there is no set.
  pub run_observations-set_for :
      (name : Bytes) (rest : List (Observation V)) (k : Bytes)
      → lookup k (run_observations (new_histogram name) rest).sets
        ≡ set_for default_buckets (values_of k rest)
  unfolding lookup
  run_observations-set_for name rest k = run-lookup (new_histogram name) rest k [] refl
