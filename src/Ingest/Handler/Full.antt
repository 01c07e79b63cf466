-- ===== src/Ingest/Handler/Full.antt =====
-- pkg/ingest: a new series, once the tracker has counted as many series as it may.
use mathlib.Core.Path.{subst}
use tinyobs.Base.{
  ℕ, ◌+◌, ◌≡◌, ◌≢◌, refl, sym, ◌⊎◌, inl, inr, ◌∙◌, Bool, true, not, List, [], ◌∷◌, some, Bytes, map,
  any, length, ltb, str_eq, str_eq_iff, if_elim, Bool-cases, Option-cases, arith,
}
use tinyobs.Ingest.Cardinality.Bounds.{IsFull, check-IsFull, check-full}
use tinyobs.Ingest.Cardinality.{CardinalityTracker, key_of, check}
use tinyobs.Ingest.Handler.Atomic.{check_loop-refused}
use tinyobs.Ingest.Handler.{
  Usage, is_full, Verdict, refused, accepted, stamp, check_one, check_loop, store, handle_ingest,
}
use tinyobs.Ingest.Limits.{max_metrics_per_request, validate_metric}
use tinyobs.Metric.{Time, Metric}
use tinyobs.Storage.{StorageOps}

module _ {V : Type 0} where
  -- Whether a sample is of the series with the key `k`.
  abbrev pub has_series : Bytes → List (Metric V) → Bool
  has_series k ms = any (λ m. str_eq (key_of m) k) ms

  key_of-stamp : (now : Time) (m : Metric V) → key_of (stamp now m) ≡ key_of m
  unfolding key_of stamp
  key_of-stamp now m = ground arith

  has_series-stamp :
      (k : Bytes) (now : Time) (ms : List (Metric V))
      → has_series k (map (stamp now) ms) ≡ has_series k ms
  has_series-stamp k now [] = refl
  has_series-stamp k now (m ∷ ms) = rw (key_of-stamp now m, has_series-stamp k now ms) refl

  check_one-cases :
      (now : Time) (m : Metric V) (c : CardinalityTracker)
      → ((check_one now m c).0 ≡ c) ⊎ ((check_one now m c).0 ≡ (check now m c).0)
  unfolding check_one
  check_one-cases now m c = elim (Option-cases (validate_metric m)) [
    | inr (e, bad) ↦ inl (rw (check_one, bad) refl)
    | inl fine ↦ inr (elim (Option-cases (check now m c).1) [
      | inr (e, refusal) ↦ rw (check_one, fine, refusal) refl
      | inl passed ↦ rw (check_one, fine, passed) refl
    ])
  ]

  check_one-IsFull :
      {k : Bytes} {total : ℕ} (now : Time) (m : Metric V) (c : CardinalityTracker)
      → IsFull k total c
      → IsFull k total (check_one now m c).0
  check_one-IsFull {k = k} {total = total} now m c h = elim (check_one-cases now m c) [
    | inl same ↦ subst (IsFull k total) (sym same) h
    | inr checked ↦ subst (IsFull k total) (sym checked) (check-IsFull now m c h)
  ]

  check_one-full :
      {total : ℕ} (now : Time) (m : Metric V) (c : CardinalityTracker)
      → IsFull (key_of m) total c
      → (check_one now m c).1 ≢ accepted
  unfolding check_one
  check_one-full now m c h e = ground (arith, check-full now m c h, e)

  -- One round of the loop.
  check_loop-round :
      (P : CardinalityTracker × Verdict V → Type 0) (clock : ℕ → Time) (i : ℕ) (m : Metric V)
      (ms : List (Metric V)) (c : CardinalityTracker)
      → ((status : ℕ) → P ((check_one (clock i) m c).0, refused status))
      → ((check_one (clock i) m c).1 ≡ accepted
          → P (check_loop clock (i + 1) ms (check_one (clock i) m c).0))
      → P (check_loop clock i (m ∷ ms) c)
  unfolding check_loop
  check_loop-round P clock i m ms c stop next = go (check_one (clock i) m c) stop next
    where
      go :
          (r : CardinalityTracker × Verdict V)
          → ((status : ℕ) → P (r.0, refused status))
          → (r.1 ≡ accepted → P (check_loop clock (i + 1) ms r.0))
          → P (elim r.1 [
            | refused status ↦ (r.0, refused status)
            | accepted ↦ check_loop clock (i + 1) ms r.0
          ])
      go (d, refused status) stop next = stop status
      go (d, accepted) stop next = next refl

  -- The tracker stays as full as it was, and the samples are refused.
  abbrev Refuses : Bytes → ℕ → CardinalityTracker × Verdict V → Type 0
  Refuses k total r = IsFull k total r.0 × ((status : ℕ) × (r.1 ≡ refused status))

  check_loop-Refuses :
      {k : Bytes} {total : ℕ} (clock : ℕ → Time) (i : ℕ) (ms : List (Metric V))
      (c : CardinalityTracker)
      → IsFull k total c
      → has_series k ms ≡ true
      → Refuses k total (check_loop clock i ms c)
  check_loop-Refuses clock i [] c h there = absurd cc
  check_loop-Refuses {k = k} {total = total} clock i (m ∷ ms) c h there =
      let after = check_one-IsFull (clock i) m c h in
      check_loop-round (Refuses k total) clock i m ms c (λ status. (after, (status, refl)))
        (λ passed. elim (Bool-cases (str_eq (key_of m) k)) [
          | inl same ↦
              let key : key_of m ≡ k = (str_eq_iff (key_of m) k).0 same in
              absurd (check_one-full {total = total} (clock i) m c (rw key h) passed)
          | inr other ↦ check_loop-Refuses clock (i + 1) ms _ after (rw other at there)
        ])

  module _ {S : Type 0} (ops : StorageOps V S) where
    -- The request has failed, has stored nothing, and has left the tracker as full as it was.
    abbrev Denied : Bytes → ℕ → S → ℕ × CardinalityTracker × S → Type 0
    Denied k total s r = (r.0 ≢ 200) × IsFull k total r.1 × (r.2 ≡ s)

    store-Denied :
        (k : Bytes) (total : ℕ) (clock : ℕ → Time) (ms : List (Metric V))
        (r : CardinalityTracker × Verdict V) (s : S)
        → Refuses k total r
        → ((status : ℕ) → r.1 ≡ refused status → (status ≡ 400) ⊎ (status ≡ 429))
        → Denied k total s (store ops clock ms r s)
    unfolding store
    store-Denied k total clock ms (c, accepted) s h bad = absurd (let e = h.1.1 in cc)
    store-Denied k total clock ms (c, refused status) s h bad =
        ((λ e. ground (arith, bad status refl)), h.0, refl)

    -- Once the tracker has counted as many series as it may, while it remembers at most a thousand,
    -- `HandleIngest` refuses every request with a sample of a series that is not remembered, over any
    -- storage: it stores nothing of it, and the tracker stays as full, with the series not remembered,
    -- however long all series have been silent.
    pub handle_ingest-IsFull :
        {k : Bytes} {total : ℕ} (clock : ℕ → Time) (is_post : Bool) (ms : List (Metric V))
        (u : Usage) (now : Time) (c : CardinalityTracker) (s : S)
        → IsFull k total c
        → has_series k ms ≡ true
        → (let (status, c', s') = handle_ingest ops clock is_post (some ms) u now c s in
            (status ≢ 200) × IsFull k total c' × (s' ≡ s))
    unfolding handle_ingest
    handle_ingest-IsFull {k = k} {total = total} clock is_post ms u now c s h there =
        if_elim (Denied k total s) (not is_post) (λ _. ((λ e. omega arith), h, refl))
          (λ _.
            if_elim (Denied k total s) (ltb max_metrics_per_request (length ms))
              (λ _. ((λ e. omega arith), h, refl))
              (λ _.
                if_elim (Denied k total s) (is_full u) (λ _. ((λ e. omega arith), h, refl))
                  (λ _.
                    store-Denied k total clock ms' (check_loop clock 0 ms' c) s
                      (check_loop-Refuses clock 0 ms' c h (has_series-stamp k now ms ∙ there))
                      (check_loop-refused clock 0 ms' c))))
      where
        ms' : List (Metric V)
        ms' = map (stamp now) ms
