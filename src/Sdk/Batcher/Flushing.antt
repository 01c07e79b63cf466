-- ===== src/Sdk/Batcher/Flushing.antt =====
-- pkg/sdk/batch/batch.go: the flag of `flushing`, and the sends that it does not count.
use tinyobs.Base.{
  ℕ, zero, suc, ◌+◌, ◌≡◌, ◌≤◌, refl, List, [], ◌∷◌, ◌++◌, leb, length, if◌then◌else◌, ap, arith,
  Bool-cases, inl, inr, ◌∙◌, if_elim,
}
use tinyobs.Sdk.Batcher.{
  Batcher, new, add, flush, compare_and_swap, Step, Steps, stay, then_step, follow,
}
use mathlib.Core.Path.{subst}

module _ {M : Type 0} where
  -- The goroutines that hold the flag.
  abbrev pub HoldsFlag : Batcher M → Type 0
  HoldsFlag b = b.flushers + b.resetting ≡ (if b.flushing then 1 else 0)

  flush-HoldsFlag : (b : Batcher M) → HoldsFlag b → HoldsFlag (flush b)
  unfolding flush
  flush-HoldsFlag b h = elim (Bool-cases (leb 1 (length b.metrics))) [
    | inl full ↦ rw full h
    | inr empty ↦ rw empty h
  ]

  compare_and_swap-HoldsFlag : (b : Batcher M) → HoldsFlag b → HoldsFlag (compare_and_swap b)
  unfolding compare_and_swap
  compare_and_swap-HoldsFlag b h =
      if_elim HoldsFlag b.flushing (λ _. h)
        (λ free. omega (arith, h ∙ ap (λ f. if f then 1 else 0) free))

  Step-HoldsFlag : {max : ℕ} {b c : Batcher M} → Step max b c → HoldsFlag b → HoldsFlag c
  unfolding add
  Step-HoldsFlag (Step.added m b) h = h
  Step-HoldsFlag (Step.decided b n e) h = compare_and_swap-HoldsFlag (record b { deciding = n }) h
  Step-HoldsFlag (Step.ticked b) h = compare_and_swap-HoldsFlag b h
  Step-HoldsFlag (Step.flushed b n e) h =
      flush-HoldsFlag (record b { flushers = n; resetting = suc b.resetting }) (omega (arith, h, e))
  Step-HoldsFlag (Step.reset b n e) h = ground arith
  Step-HoldsFlag (Step.flushed_now b) h = flush-HoldsFlag b h
  Step-HoldsFlag (Step.sent b t) h = h
  Step-HoldsFlag (Step.refused b t) h = h
  Step-HoldsFlag (Step.stopped b) h = h

  -- Whatever the goroutines do and in whichever order: at most one at a time is about to flush for
  -- `Add` or for the loop, or about to reset the flag behind such a flush, and there is one just if
  -- the flag is set.
  pub Steps-HoldsFlag : {max : ℕ} {b : Batcher M} → Steps max new b → HoldsFlag b
  Steps-HoldsFlag stay = refl
  Steps-HoldsFlag (then_step r s) = Step-HoldsFlag s (Steps-HoldsFlag r)

  -- The state with `n` batches of one metric each in `sendMetrics`.
  abbrev busy : M → ℕ → Batcher M
  busy m n = record new { sending = singles m n; added = copies m n }
    where
      copies : M → ℕ → List M
      copies m zero = []
      copies m (suc n) = copies m n ++ m ∷ []

      singles : M → ℕ → List (List M)
      singles m zero = []
      singles m (suc n) = (m ∷ []) ∷ singles m n

  -- One more send: the metric is added, the loop ticks, flushes, and resets the flag.
  busier : (max : ℕ) (m : M) (n : ℕ) → 2 ≤ max → Steps max (busy m n) (busy m (suc n))
  unfolding add flush compare_and_swap
  busier max m n big =
      subst (λ d. Steps max (busy m n) (record (busy m (suc n)) { deciding = d })) small
        (then_step
          (then_step (then_step (then_step stay (Step.added m (busy m n))) (Step.ticked _))
            (Step.flushed _ 0 refl))
          (Step.reset _ 0 refl))
    where
      small : ◌≡◌ {A = ℕ} (if leb max 1 then 1 else 0) 0
      small = ground (arith, big)

  -- The flag does not bound the number of sends: for a batch size of at least 2 and every `n`, the
  -- goroutines can reach a state in which `n` calls of `sendMetrics` run at once.
  pub many_sends :
      (max : ℕ) (m : M) (n : ℕ)
      → 2 ≤ max
      → (b : Batcher M) × Steps max new b × (length b.sending ≡ n)
  many_sends max m n big = (busy m n, reach n, sends n)
    where
      reach : (n : ℕ) → Steps max new (busy m n)
      reach zero = stay
      reach (suc n) = follow (reach n) (busier max m n big)

      sends : (n : ℕ) → length (busy m n).sending ≡ n
      sends zero = refl
      sends (suc n) = ap suc (sends n)
