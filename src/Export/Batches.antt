-- ===== src/Export/Batches.antt =====
-- pkg/export/import.go: what an import writes to the storage in memory.
use mathlib.Core.List.{append-nil, append_assoc}
use mathlib.Core.Path.{subst}
use native.Mathlib.Nat.{le_refl}
use tinyobs.Base.{
  ℕ, zero, suc, ◌+◌, ◌≡◌, ◌≤◌, ◌<◌, ◌==◌, ◌⊎◌, refl, sym, ap, ◌∙◌, Bool, true, false, List, [], ◌∷◌,
  ◌++◌, Option, none, some, length, length-append, take, drop, filter, inl, inr, arith,
}
use tinyobs.Export.{
  ImportResult, max_import_batch_size, validate_imported_metric, write_batches, import_result,
  import_from_json,
}
use tinyobs.Metric.{Metric, Time}
use tinyobs.Query.Outcome.{Outcome, ok, ◌>>=◌}
use tinyobs.Storage.Memory.Writes.{write-cases, IsBounded}
use tinyobs.Storage.Memory.{Storage, limit_of, memory_ops, write}

take-drop {ℓ} : {A : Type ℓ} (n : ℕ) (xs : List A) → xs ≡ take n xs ++ drop n xs
take-drop zero xs = refl
take-drop (suc n) [] = refl
take-drop (suc n) (x ∷ xs) = ap (◌∷◌ x) (take-drop n xs)

length-drop_less {ℓ} : {A : Type ℓ} (n : ℕ) (xs : List A) → length (drop n xs) ≤ length xs
length-drop_less zero xs = omega arith
length-drop_less (suc n) [] = omega arith
length-drop_less (suc n) (x ∷ xs) = omega (arith, length-drop_less n xs)

length-take_less {ℓ} : {A : Type ℓ} (n : ℕ) (xs : List A) → length (take n xs) ≤ length xs
length-take_less zero xs = omega arith
length-take_less (suc n) [] = omega arith
length-take_less (suc n) (x ∷ xs) = omega (arith, length-take_less n xs)

abbrev pub is_complete {ℓ} : {A : Type ℓ} → Option A → Bool
is_complete none = false
is_complete (some x) = true

module _ {V : Type 0} where
  -- All metrics are written behind those stored, and there is room for them; or there is not, and
  -- only a first part of them is written.
  abbrev pub Written : Storage V → List (Metric V) → Storage V → Bool → Type 0
  Written s ms s' complete =
      (complete ≡ true)
        × (s'.metrics ≡ s.metrics ++ ms)
        × (length s.metrics + length ms ≤ limit_of s)
      ⊎ (complete ≡ false)
        × (limit_of s < length s.metrics + length ms)
        × (first : List (Metric V)) × (rest : List (Metric V)) × (ms ≡ first ++ rest)
        × (s'.metrics ≡ s.metrics ++ first)

  -- What follows a batch that is written.
  Written-append :
      (s s1 s' : Storage V) (first rest : List (Metric V)) (complete : Bool)
      → s1.metrics ≡ s.metrics ++ first
      → limit_of s1 ≡ limit_of s
      → Written s1 rest s' complete
      → Written s (first ++ rest) s' complete
  Written-append s s1 s' first rest complete grown same h = elim h [
    | inl (done, all, fits) ↦ inl (
      done,
      all ∙ ap (λ ms. ms ++ rest) grown ∙ append_assoc s.metrics first rest,
      rw length-append (omega (arith, fits, same, total)),
    )
    | inr (failed, over, begun, left, parts, written) ↦ inr (
      failed,
      rw length-append (omega (arith, over, same, total)),
      first ++ begun,
      left,
      ap (λ ms. first ++ ms) parts ∙ sym (append_assoc first begun left),
      written ∙ ap (λ ms. ms ++ begun) grown ∙ append_assoc s.metrics first begun,
    )
  ]
    where
      total : length s1.metrics ≡ length s.metrics + length first
      total = ap length grown ∙ length-append s.metrics first

  write_batches-Written :
      (fuel n : ℕ) (s : Storage V) (ms : List (Metric V))
      → length ms ≤ fuel
      → IsBounded s
      → (s' : Storage V) × (r : Option ℕ) × (write_batches memory_ops fuel n s ms ≡ ok (s', r))
        × Written s ms s' (is_complete r)
  unfolding write_batches
  write_batches-Written fuel n s [] h b =
      (s, some n, refl, inl (refl, sym (append-nil s.metrics), omega (arith, b)))
  write_batches-Written zero n s (m ∷ ms) h b = absurd (omega arith)
  write_batches-Written (suc fuel) n s (m ∷ ms) h b =
      let batch = take max_import_batch_size (m ∷ ms) in
      let left = drop max_import_batch_size (m ∷ ms) in
      elim (write-cases s batch) [
        | inl (fits, appended, bounded, same) ↦
            let (s', r, e, w) =
              write_batches-Written fuel (suc n) (write s batch).0 left
                (omega (arith, h, length-drop_less 4999 ms)) bounded in
            (
              s',
              r,
              rw fits e,
              subst (λ all. Written s all s' (is_complete r))
                  (sym (take-drop max_import_batch_size (m ∷ ms)))
                  (Written-append s (write s batch).0 s' batch left (is_complete r) appended same
                    w),
            )
        | inr (failed, unchanged, over) ↦ (
          (write s batch).0,
          none,
          rw failed refl,
          inr (
            refl,
            omega (arith, over, length-take_less 4999 ms),
            [],
            m ∷ ms,
            refl,
            ap (λ (x : Storage V). x.metrics) unchanged ∙ sym (append-nil s.metrics),
          ),
        )
      ]

  -- An import of metrics into the storage in memory, within its limit, ends in one of two ways.
  -- Either there is room for all valid metrics: then they are written in their order, and the
  -- import succeeds. Or there is not: then it fails, and only a first part of them is written.
  pub import_from_json-Written :
      (now : Time) (s : Storage V) (ms : List (Metric V))
      → IsBounded s
      → (s' : Storage V) × (r : Option ImportResult) × (import_from_json memory_ops now s ms
          ≡ ok (s', r))
        × Written s (filter (validate_imported_metric now) ms) s' (is_complete r)
  unfolding import_from_json import_result
  import_from_json-Written now s [] b =
      (s, some _, refl, inl (refl, sym (append-nil s.metrics), omega (arith, b)))
  import_from_json-Written now s (m ∷ ms) b =
      let valid = filter (validate_imported_metric now) (m ∷ ms) in
      let (s', r, e, w) =
        write_batches-Written (length valid) 0 s valid (le_refl (length valid)) b in
      let nonempty : (length (m ∷ ms) == 0) ≡ false = ground arith in
      rw nonempty (
        answered r s' valid
          (ap (λ o. o >>= λ written. ok (import_result memory_ops (m ∷ ms) valid written)) e) w)
    where
      answered :
          (r : Option ℕ) (s' : Storage V) (valid : List (Metric V))
          {o : Outcome (Storage V × Option ImportResult)}
          → o ≡ ok (import_result memory_ops (m ∷ ms) valid (s', r))
          → Written s valid s' (is_complete r)
          → (s' : Storage V) × (r : Option ImportResult) × (o ≡ ok (s', r))
            × Written s valid s' (is_complete r)
      answered none s' valid e w = (s', none, e, w)
      answered (some n) s' valid e w = (s', some _, e, w)
