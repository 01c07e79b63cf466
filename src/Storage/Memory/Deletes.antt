-- ===== src/Storage/Memory/Deletes.antt =====
-- pkg/storage/memory/memory.go: what `Delete` removes.
use tinyobs.Base.{
  ℕ, ◌≤◌, ◌≡◌, ◌∙◌, sym, Bool, true, false, not, ◌||◌, List, [], ◌∷◌, ◌++◌, Option, none, some,
  Bytes, str_eq, filter, filter-filter, All, All-filter, ltb, leb, if◌then◌else◌, Bool-cases, inl,
  inr, arith,
}
use mathlib.Core.List.{append-nil, append_assoc}
use tinyobs.Metric.{Metric}
use tinyobs.Storage.Memory.{Storage, delete, delete_loop, resolution_of}
use tinyobs.Storage.{DeleteOptions}

module _ {V : Type 0} where
  -- What stays: what is recent enough, and, where a resolution is given, every other resolution.
  abbrev pub keeps : DeleteOptions → Metric V → Bool
  keeps opts m =
      leb opts.before m.timestamp
      || elim opts.resolution [ some r ↦ not (str_eq (resolution_of m) r) | none ↦ false ]

  -- What the body of the loop appends.
  keeps-if :
      (before t : ℕ) (r : Option Bytes) (own : Bytes) (out kept : List (Metric V))
      → (if not (ltb t before)
          then kept
          else elim r [ some x ↦ if not (str_eq own x) then kept else out | none ↦ out ])
        ≡ (if leb before t || elim r [ some x ↦ not (str_eq own x) | none ↦ false ]
            then kept
            else out)
  keeps-if before t none own out kept = ground arith
  keeps-if before t (some x) own out kept = ground arith

  delete_loop-filter :
      (opts : DeleteOptions) (out ms : List (Metric V))
      → delete_loop opts out ms ≡ out ++ filter (keeps opts) ms
  unfolding delete_loop
  delete_loop-filter opts out [] = sym (append-nil out)
  delete_loop-filter opts out (m ∷ ms) =
      rw (keeps-if opts.before m.timestamp opts.resolution (resolution_of m) out (out ++ m ∷ []))
        (elim (Bool-cases (keeps opts m)) [
          | inl keep ↦
              rw keep (delete_loop-filter opts (out ++ m ∷ []) ms ∙ append_assoc out (m ∷ []) _)
          | inr drop ↦ rw drop (delete_loop-filter opts out ms)
        ])

  -- `Delete` leaves exactly the metrics that are not older than `before`, or whose resolution is
  -- another one than the given one; their order stays.
  pub delete-metrics :
      (s : Storage V) (opts : DeleteOptions)
      → (delete s opts).metrics ≡ filter (keeps opts) s.metrics
  unfolding delete
  delete-metrics s opts = delete_loop-filter opts [] s.metrics

  -- A deletion for one resolution leaves every metric of another resolution where it is.
  pub delete_other :
      (s : Storage V) (opts : DeleteOptions) (r : Bytes)
      → opts.resolution ≡ some r
      → filter (λ m. not (str_eq (resolution_of m) r)) (delete s opts).metrics
        ≡ filter (λ m. not (str_eq (resolution_of m) r)) s.metrics
  delete_other s opts r h = rw delete-metrics (
      filter-filter (λ m. not (str_eq (resolution_of m) r)) (keeps opts) s.metrics
        (λ m other. other_keeps m other))
    where
      other_keeps : (m : Metric V) → not (str_eq (resolution_of m) r) ≡ true → keeps opts m ≡ true
      other_keeps m other = rw h (ground arith)

  All-filter_given :
      (P : Metric V → Type 0) (p : Metric V → Bool) (ms : List (Metric V))
      → All (λ m. p m ≡ true → P m) ms
      → All P (filter p ms)
  All-filter_given P p [] h = tt
  All-filter_given P p (m ∷ ms) h = elim (Bool-cases (p m)) [
    | inl hit ↦ rw hit (h.0 hit, All-filter_given P p ms h.1)
    | inr miss ↦ rw miss (All-filter_given P p ms h.1)
  ]

  -- After a deletion for one resolution, no metric of that resolution is older than the cut-off.
  pub delete_old :
      (s : Storage V) (opts : DeleteOptions) (r : Bytes)
      → opts.resolution ≡ some r
      → All
          (λ m. opts.before ≤ m.timestamp)
          (filter (λ m. str_eq (resolution_of m) r) (delete s opts).metrics)
  delete_old s opts r h =
      All-filter_given _ _ (delete s opts).metrics
        (rw delete-metrics (All-filter _ (keeps opts) s.metrics kept))
    where
      kept :
          (m : Metric V)
          → keeps opts m ≡ true
          → str_eq (resolution_of m) r ≡ true
          → opts.before ≤ m.timestamp
      kept m k e = ground arith
