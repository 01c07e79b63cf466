-- ===== src/Sdk/Histogram/Panics.antt =====
-- pkg/sdk/metrics/histogram.go: a flush of observations without labels.
use tinyobs.Base.{
  ℕ, ◌^◌, ◌≡◌, ◌<◌, ◌⊎◌, refl, sym, ◌∙◌, ◌==◌, ap, false, List, [], ◌∷◌, Option, none, some, Bytes,
  Dict, lookup, length, str_eq, str_eq_iff, Bool-cases, inl, inr, arith,
}
use tinyobs.Float.{FloatOps}
use tinyobs.Metric.{Labels}
use tinyobs.Query.Outcome.{Outcome, ok, panic}
use tinyobs.Sdk.Histogram.Counts.{
  Observation, run_observations, values_of, summary, set_for, run_observations-set_for,
}
use tinyobs.Sdk.Histogram.{
  BucketSet, with_bound, bucket_metrics, set_metrics, flush_sets, flush, default_buckets,
  new_histogram,
}
use tinyobs.Sdk.Labels.{key_to_labels}

module _ {V : Type 0} ⦃F : FloatOps V⦄ (format3 : V → Bytes) where
  -- What a step ends in: there is no loop on fuel here.
  abbrev Ends {ℓ} : {A : Type ℓ} → Outcome A → Type ℓ
  Ends {A = A} o = ((a : A) × (o ≡ ok a)) ⊎ (o ≡ panic)

  bucket_metrics-Ends :
      (name : Bytes) (ls : Option Labels) (bs : List V) (ns : List ℕ)
      → Ends (bucket_metrics format3 name ls bs ns)
  unfolding bucket_metrics with_bound
  bucket_metrics-Ends name ls [] ns = inl ([], refl)
  bucket_metrics-Ends name ls (b ∷ bs) [] = inr refl
  bucket_metrics-Ends name none (b ∷ bs) (n ∷ ns) = inr refl
  bucket_metrics-Ends name (some ls) (b ∷ bs) (n ∷ ns) =
      elim (bucket_metrics-Ends name (some ls) bs ns) [
        | inl (ms, e) ↦ rw e (inl (_, refl))
        | inr e ↦ rw e (inr refl)
      ]

  set_metrics-Ends : (name key : Bytes) (s : BucketSet V) → Ends (set_metrics format3 name key s)
  unfolding set_metrics
  set_metrics-Ends name key s =
      elim (bucket_metrics-Ends name (key_to_labels key) s.buckets s.counts) [
        | inl (ms, e) ↦ rw e (inl (_, refl))
        | inr e ↦ rw e (inr refl)
      ]

  set_metrics-unlabelled :
      (name : Bytes) (s : BucketSet V) (b : V) (bs : List V)
      → s.buckets ≡ b ∷ bs
      → set_metrics format3 name [] s ≡ panic
  unfolding set_metrics key_to_labels bucket_metrics with_bound
  set_metrics-unlabelled name s b bs e =
      rw (ap (λ xs. bucket_metrics format3 name none xs s.counts) e ∙ first s.counts) refl
    where
      first : (ns : List ℕ) → bucket_metrics format3 name none (b ∷ bs) ns ≡ panic
      first [] = refl
      first (n ∷ ns) = refl

  flush_sets-unlabelled :
      (name : Bytes) (sets : Dict (BucketSet V)) (s : BucketSet V) (b : V) (bs : List V)
      → lookup [] sets ≡ some s
      → s.buckets ≡ b ∷ bs
      → (s.count == 0) ≡ false
      → flush_sets format3 name sets ≡ panic
  unfolding flush_sets lookup
  flush_sets-unlabelled name [] s b bs h e n = cc
  flush_sets-unlabelled name ((key, t) ∷ sets) s b bs h e n = elim (Bool-cases (str_eq key [])) [
    | inl same ↦
        let own : t ≡ s = some_eq (sym (rw same refl) ∙ h) in
        let counted : (t.count == 0) ≡ false = ap (λ (x : BucketSet V). x.count == 0) own ∙ n in
        let fails : set_metrics format3 name key t ≡ panic =
          ap (λ k. set_metrics format3 name k t) ((str_eq_iff key []).0 same)
          ∙ set_metrics-unlabelled name t b bs (ap (λ (x : BucketSet V). x.buckets) own ∙ e) in
        rw (counted, fails) refl
    | inr other ↦
        let later = flush_sets-unlabelled name sets s b bs (sym (rw other refl) ∙ h) e n in
        rw later (elim (Bool-cases (t.count == 0)) [
          | inl empty ↦ rw empty refl
          | inr counted ↦ elim (set_metrics-Ends name key t) [
            | inl (ms, sent) ↦ rw (counted, sent) refl
            | inr fails ↦ rw (counted, fails) refl
          ]
        ])
  ]
    where
      some_eq : {a : BucketSet V} → some a ≡ some s → a ≡ s
      some_eq h = ap (λ o. elim o [ none ↦ s | some x ↦ x ]) h

  -- A flush of a new histogram panics, on a write to a nil map, once a value has been observed
  -- without labels, whatever else has been observed (with less than 2^64 such values).
  pub flush-run_observations :
      (name : Bytes) (rest : List (Observation V))
      → 0 < length (values_of [] rest)
      → length (values_of [] rest) < 2 ^ 64
      → flush format3 (run_observations (new_histogram name) rest) ≡ panic
  unfolding flush
  flush-run_observations name rest some_seen few =
      rw (go (values_of [] rest) some_seen few (run_observations-set_for name rest [])) refl
    where
      go :
          (vs : List V)
          → 0 < length vs
          → length vs < 2 ^ 64
          → lookup [] (run_observations (new_histogram name) rest).sets ≡ set_for default_buckets vs
          → flush_sets format3
              (run_observations (new_histogram name) rest).name
              (run_observations (new_histogram name) rest).sets
            ≡ panic
      go [] seen few e = absurd (omega arith)
      go (v ∷ vs) seen few e =
          flush_sets-unlabelled _ _ (summary default_buckets (v ∷ vs)) _ _ e refl (ground arith)
