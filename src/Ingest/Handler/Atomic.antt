-- ===== src/Ingest/Handler/Atomic.antt =====
-- pkg/ingest/handler.go: the outcomes of `HandleIngest` over the storage in memory.
use tinyobs.Base.{
  ℕ, ◌+◌, ◌≤◌, ◌≡◌, ◌≢◌, refl, ◌⊎◌, inl, inr, Bool, true, false, not, List, [], ◌∷◌, ◌++◌, none,
  some, Option, All, map, length, ltb, if_elim, ltb_false→le, arith,
}
use tinyobs.Ingest.Cardinality.{CardinalityTracker}
use tinyobs.Ingest.Handler.{
  Usage, is_full, Verdict, refused, accepted, stamp, check_one, check_loop, store, handle_ingest,
}
use tinyobs.Ingest.Limits.{max_metrics_per_request, validate_metric, IsValid, validate_metric_iff}
use tinyobs.Metric.{Time, Metric}
use tinyobs.Storage.Memory.Writes.{write-cases}
use tinyobs.Storage.Memory.{write, Storage, memory_ops}

module _ {V : Type 0} where
  check_one-accepted :
      (now : Time) (m : Metric V) (c : CardinalityTracker)
      → (check_one now m c).1 ≡ accepted
      → validate_metric m ≡ none
  unfolding check_one
  check_one-accepted now m c h = ground arith

  check_one-refused :
      (now : Time) (m : Metric V) (c : CardinalityTracker) (status : ℕ)
      → (check_one now m c).1 ≡ refused status
      → (status ≡ 400) ⊎ (status ≡ 429)
  unfolding check_one
  check_one-refused now m c status h = ground arith

  -- One round of the loop.
  check_loop-cons :
      (clock : ℕ → Time) (i : ℕ) (m : Metric V) (ms : List (Metric V)) (c : CardinalityTracker)
      → ((check_one (clock i) m c).1 ≡ accepted)
          × (check_loop clock i (m ∷ ms) c
              ≡ check_loop clock (i + 1) ms (check_one (clock i) m c).0)
        ⊎ ((status : ℕ) × ((check_one (clock i) m c).1 ≡ refused status)
            × ((check_loop clock i (m ∷ ms) c).1 ≡ refused status))
  unfolding check_loop
  check_loop-cons clock i m ms c = go (check_one (clock i) m c)
    where
      go :
          (r : CardinalityTracker × Verdict V)
          → let whole : CardinalityTracker × Verdict V = elim r.1 [
            | refused status ↦ (r.0, refused status)
            | accepted ↦ check_loop clock (i + 1) ms r.0
          ] in
            (r.1 ≡ accepted) × (whole ≡ check_loop clock (i + 1) ms r.0)
            ⊎ ((status : ℕ) × (r.1 ≡ refused status) × (whole.1 ≡ refused status))
      go (d, refused status) = inr (status, refl, refl)
      go (d, accepted) = inl (refl, refl)

  -- A loop that accepts has accepted each sample.
  check_loop-accepted :
      (clock : ℕ → Time) (i : ℕ) (ms : List (Metric V)) (c : CardinalityTracker)
      → (check_loop clock i ms c).1 ≡ accepted
      → All IsValid ms
  check_loop-accepted clock i [] c h = tt
  check_loop-accepted clock i (m ∷ ms) c h = elim (check_loop-cons clock i m ms c) [
    | inl (ok, step) ↦ (
      (validate_metric_iff m).0 (check_one-accepted (clock i) m c ok),
      check_loop-accepted clock (i + 1) ms _ (rw step at h),
    )
    | inr (status, bad, step) ↦ absurd (cc)
  ]

  pub check_loop-refused :
      (clock : ℕ → Time) (i : ℕ) (ms : List (Metric V)) (c : CardinalityTracker) (status : ℕ)
      → (check_loop clock i ms c).1 ≡ refused status
      → (status ≡ 400) ⊎ (status ≡ 429)
  unfolding check_loop
  check_loop-refused clock i [] c status h = cc
  check_loop-refused clock i (m ∷ ms) c status h = elim (check_loop-cons clock i m ms c) [
    | inl (ok, step) ↦ check_loop-refused clock (i + 1) ms _ status (rw step at h)
    | inr (s, bad, step) ↦ check_one-refused (clock i) m c status (cc)
  ]

  -- What a request with samples `ms` leaves, of which `ms'` are to be stored.
  abbrev Atomic :
      List (Metric V) → List (Metric V) → Storage V → ℕ × CardinalityTracker × Storage V → Type 0
  Atomic ms ms' s r =
      (r.0 ≡ 200)
        × All IsValid ms'
        × (length ms ≤ max_metrics_per_request)
        × (r.2.metrics ≡ s.metrics ++ ms')
      ⊎ (r.0 ≢ 200) × (r.2 ≡ s)

  store-Atomic :
      (clock : ℕ → Time) (ms ms' : List (Metric V)) (r : CardinalityTracker × Verdict V)
      (s : Storage V)
      → length ms ≤ max_metrics_per_request
      → (r.1 ≡ accepted → All IsValid ms')
      → ((status : ℕ) → r.1 ≡ refused status → (status ≡ 400) ⊎ (status ≡ 429))
      → Atomic ms ms' s (store memory_ops clock ms' r s)
  unfolding store
  store-Atomic clock ms ms' (c, refused status) s few valid bad =
      inr ((λ e. ground (arith, bad status refl)), refl)
  store-Atomic clock ms ms' (c, accepted) s few valid bad = elim (write-cases s ms') [
    | inl (done, appended, _, _) ↦ rw done (inl (refl, valid refl, few, appended))
    | inr (failed, same, _) ↦ rw failed (inr ((λ e. omega arith), same))
  ]

  -- `HandleIngest` over the storage in memory answers 200 exactly if it has stored the samples of
  -- the request, all of them valid and at most as many as a request may hold, behind those stored
  -- before; with any other answer the storage is as it was.
  pub handle_ingest_atomic :
      (clock : ℕ → Time) (is_post : Bool) (ms : List (Metric V)) (u : Usage) (now : Time)
      (c : CardinalityTracker) (s : Storage V)
      → let (status, _, s') = handle_ingest memory_ops clock is_post (some ms) u now c s in
        (status ≡ 200)
          × All IsValid (map (stamp now) ms)
          × (length ms ≤ max_metrics_per_request)
          × (s'.metrics ≡ s.metrics ++ map (stamp now) ms)
        ⊎ (status ≢ 200) × (s' ≡ s)
  unfolding handle_ingest
  handle_ingest_atomic clock is_post ms u now c s =
      if_elim (Atomic ms ms' s) (not is_post) (λ _. inr ((λ e. omega arith), refl))
        (λ _.
          if_elim (Atomic ms ms' s) (ltb max_metrics_per_request (length ms))
            (λ _. inr ((λ e. omega arith), refl))
            (λ few.
              if_elim (Atomic ms ms' s) (is_full u) (λ _. inr ((λ e. omega arith), refl))
                (λ _.
                  store-Atomic clock ms ms' (check_loop clock 0 ms' c) s
                    (ltb_false→le max_metrics_per_request (length ms) few)
                    (check_loop-accepted clock 0 ms' c) (check_loop-refused clock 0 ms' c))))
    where
      ms' : List (Metric V)
      ms' = map (stamp now) ms

  store-status :
      (clock : ℕ → Time) (ms : List (Metric V)) (r : CardinalityTracker × Verdict V) (s : Storage V)
      → ((status : ℕ) → r.1 ≡ refused status → (status ≡ 400) ⊎ (status ≡ 429))
      → (store memory_ops clock ms r s).0 ≡ 200 ⊎ 400 ≤ (store memory_ops clock ms r s).0
  unfolding store
  store-status clock ms (c, refused status) s bad = inr (ground (arith, bad status refl))
  store-status clock ms (c, accepted) s bad =
      if_elim (λ (r : ℕ × CardinalityTracker × Storage V). (r.0 ≡ 200) ⊎ (400 ≤ r.0)) (write s ms).1
        (λ _. inl refl) (λ _. inr (omega arith))

  -- The answer is 200 or an error.
  pub handle_ingest-status :
      (clock : ℕ → Time) (is_post : Bool) (body : Option (List (Metric V))) (u : Usage) (now : Time)
      (c : CardinalityTracker) (s : Storage V)
      → (handle_ingest memory_ops clock is_post body u now c s).0 ≡ 200
        ⊎ 400 ≤ (handle_ingest memory_ops clock is_post body u now c s).0
  unfolding handle_ingest
  handle_ingest-status clock false body u now c s = inr (omega arith)
  handle_ingest-status clock true none u now c s = inr (omega arith)
  handle_ingest-status clock true (some ms) u now c s =
      let P : ℕ × CardinalityTracker × Storage V → Type 0 = λ r. (r.0 ≡ 200) ⊎ (400 ≤ r.0) in
      if_elim P (ltb max_metrics_per_request (length ms)) (λ _. inr (omega arith))
        (λ _.
          if_elim P (is_full u) (λ _. inr (omega arith))
            (λ _.
              store-status clock (map (stamp now) ms) (check_loop clock 0 (map (stamp now) ms) c) s
                (check_loop-refused clock 0 (map (stamp now) ms) c)))
