-- ===== src/Sdk/Runtime.antt =====
-- pkg/sdk/runtime/collector.go. The readings of the Go runtime are an argument of `collect`; the
-- ticker of `Start` is left out.
use mathlib.Core.Option.{some-injective}
use mathlib.Core.Path.{subst}
use tinyobs.Base.{
  ℕ, ◌*◌, ◌==◌, ◌≤◌, ◌≡◌, ◌≢◌, refl, List, [], ◌∷◌, Bytes, codes, All, some, none, insert, length,
  ltb, if◌then◌else◌, if_elim, Bool, false, Option-cases, inl, inr, true, arith,
}
use tinyobs.Float.{FloatOps}
use tinyobs.Ingest.Limits.{
  validate_metric, validate_metric_iff, max_label_value_length, max_metric_name_length,
}
use tinyobs.Metric.{Metric, MetricType, Time, read_labels, counter_type, gauge_type, second}
use tinyobs.Sdk.Client.{Client, send_metric, send_all}

-- `NewCollector`
unfoldable pub interval_of : ℕ → ℕ
interval_of interval = if interval == 0 then 15 * second else interval

-- What `collect` reads of the runtime.
pub record Readings : Type 0 where
  pub num_goroutine : ℕ
  pub num_cpu : ℕ
  pub heap_alloc : ℕ
  pub stack_inuse : ℕ
  pub sys : ℕ
  pub num_gc : ℕ
  pub pause_total_ns : ℕ

module _ {V : Type 0} ⦃F : FloatOps V⦄ where
  abbrev pub reading : Time → Bytes → MetricType → V → Metric V
  reading now name type v = record {
    name = name;
    type = type;
    value = v;
    label_map = none;
    timestamp = now;
  }

  -- The metrics of `collect`, in the order in which they are sent.
  unfoldable pub runtime_metrics : Time → Readings → List (Metric V)
  runtime_metrics now r =
      reading now (codes "go_goroutines") gauge_type (F.of_ℕ r.num_goroutine)
      ∷ reading now (codes "go_cpu_count") gauge_type (F.of_ℕ r.num_cpu)
      ∷ reading now (codes "go_memory_heap_bytes") gauge_type (F.of_ℕ r.heap_alloc)
      ∷ reading now (codes "go_memory_stack_bytes") gauge_type (F.of_ℕ r.stack_inuse)
      ∷ reading now (codes "go_memory_sys_bytes") gauge_type (F.of_ℕ r.sys)
      ∷ reading now (codes "go_gc_count") counter_type (F.of_ℕ r.num_gc)
      ∷ (if ltb 0 r.num_gc
          then reading now (codes "go_gc_pause_seconds") counter_type
              (F.div (F.of_ℕ r.pause_total_ns) (F.of_ℕ second))
            ∷ []
          else [])

  -- What reaches the batcher.
  unfoldable pub collect : Client V → Time → Readings → List (Metric V)
  collect c now r = send_all c (runtime_metrics now r)

-- What is asked of a metric before the client names its service.
abbrev IsPlainReading : {V : Type 0} → Metric V → Type 0
IsPlainReading m = (m.name ≢ []) × (length m.name ≤ max_metric_name_length) × (m.label_map ≡ none)

module _ (V : Type 0) ⦃F : FloatOps V⦄ where
  IsPlainReading-runtime_metrics :
      (now : Time) (r : Readings) → All IsPlainReading (runtime_metrics {V = V} now r)
  unfolding runtime_metrics
  IsPlainReading-runtime_metrics now r = (
    ((λ e. absurd cc), omega arith, refl),
    (
      ((λ e. absurd cc), omega arith, refl),
      (
        ((λ e. absurd cc), omega arith, refl),
        (
          ((λ e. absurd cc), omega arith, refl),
          (
            ((λ e. absurd cc), omega arith, refl),
            (
              ((λ e. absurd cc), omega arith, refl),
              if_elim (All (IsPlainReading {V = V})) (ltb 0 r.num_gc)
                  (λ _. (((λ e. absurd cc), omega arith, refl), tt)) (λ _. tt),
            ),
          ),
        ),
      ),
    ),
  )

module _ {V : Type 0} ⦃F : FloatOps V⦄ where
  -- A metric that is accepted, with the service among its labels.
  abbrev pub IsNamed : Bytes → Metric V → Type 0
  IsNamed service m =
      (validate_metric m ≡ none) × (m.label_map ≡ some ((codes "service", service) ∷ []))

  IsNamed-label :
      (service : Bytes) (m : Metric V)
      → length service ≤ max_label_value_length
      → IsPlainReading m
      → IsNamed service (record m { label_map = some ((codes "service", service) ∷ []) })
  IsNamed-label service m short (given, few, bare) = (
    (validate_metric_iff (record m { label_map = some ((codes "service", service) ∷ []) })).1
        (record {
          name_given = given;
          name_short = few;
          few_labels = omega arith;
          short_labels = ((omega arith, short), tt);
        }),
    refl,
  )

  IsNamed-if :
      (started : Bool) (service : Bytes) (m sent : Metric V)
      → IsNamed service m
      → (if started then some m else none) ≡ some sent
      → IsNamed service sent
  IsNamed-if true service m sent h e = subst (IsNamed service) (some-injective _ _ e) h
  IsNamed-if false service m sent h e = absurd cc

  IsNamed-send_metric :
      (c : Client V) (m sent : Metric V)
      → length c.config.service ≤ max_label_value_length
      → IsPlainReading m
      → send_metric c m ≡ some sent
      → IsNamed c.config.service sent
  unfolding send_metric insert
  IsNamed-send_metric c m sent short h e =
      IsNamed-if c.started c.config.service _ sent (IsNamed-label c.config.service m short h) (
        subst
          (λ ls.
            (if c.started
              then some (record m {
                label_map = some (insert (codes "service") c.config.service (read_labels ls));
              })
              else none)
            ≡ some sent)
          h.2 e)

  IsNamed-send_all :
      (c : Client V) (ms : List (Metric V))
      → length c.config.service ≤ max_label_value_length
      → All IsPlainReading ms
      → All (IsNamed c.config.service) (send_all c ms)
  unfolding send_all
  IsNamed-send_all c [] short h = tt
  IsNamed-send_all c (m ∷ ms) short h = elim (Option-cases (send_metric c m)) [
    | inl kept ↦ rw (send_all, kept) (IsNamed-send_all c ms short h.1)
    | inr (sent, e) ↦
        rw (send_all, e) (IsNamed-send_metric c m sent short h.0 e, IsNamed-send_all c ms short h.1)
  ]

  -- The runtime collector and the ingestion agree: whatever the readings, each metric that a client
  -- hands to the batcher for them has the label of its service, and no other, and passes
  -- `ValidateMetric`; if the name of the service is not longer than a label value may be.
  pub collect-IsNamed :
      (c : Client V) (now : Time) (r : Readings)
      → length c.config.service ≤ max_label_value_length
      → All (IsNamed c.config.service) (collect c now r)
  unfolding collect
  collect-IsNamed c now r short =
      IsNamed-send_all c (runtime_metrics now r) short (IsPlainReading-runtime_metrics V now r)
