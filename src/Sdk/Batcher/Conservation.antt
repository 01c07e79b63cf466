-- ===== src/Sdk/Batcher/Conservation.antt =====
-- pkg/sdk/batch/batch.go: where the added metrics are.
use tinyobs.Base.{
  ℕ, ◌+◌, ◌≡◌, refl, Bool, List, [], ◌∷◌, ◌++◌, leb, length, length-append, filter, filter-append,
  ◌∙◌, ap, arith, Bool-cases, inl, inr,
}
use tinyobs.Sdk.Batcher.{
  Batcher, new, add, flush, compare_and_swap, Takes, here, there, Step, Steps, stay, then_step,
}

module _ {M : Type 0} (p : M → Bool) where
  abbrev pub count : List M → ℕ
  count ms = length (filter p ms)

  abbrev pub count_all : List (List M) → ℕ
  count_all [] = 0
  count_all (ms ∷ rest) = count ms + count_all rest

  count-append : (xs ys : List M) → count (xs ++ ys) ≡ count xs + count ys
  count-append xs ys = ap length (filter-append p xs ys) ∙ length-append (filter p xs) (filter p ys)

  Takes-count :
      {batch : List M} {all rest : List (List M)}
      → Takes batch all rest
      → count_all all ≡ count batch + count_all rest
  Takes-count here = refl
  Takes-count (there t) = omega (arith, Takes-count t)

  abbrev pub IsConserved : Batcher M → Type 0
  IsConserved b =
      count b.added ≡ count b.metrics + count_all b.sending + count b.delivered + count b.failed

  flush-IsConserved : (b : Batcher M) → IsConserved b → IsConserved (flush b)
  unfolding flush
  flush-IsConserved b h = elim (Bool-cases (leb 1 (length b.metrics))) [
    | inl full ↦ rw full (omega (arith, h))
    | inr empty ↦ rw empty h
  ]

  compare_and_swap-IsConserved : (b : Batcher M) → IsConserved b → IsConserved (compare_and_swap b)
  unfolding compare_and_swap
  compare_and_swap-IsConserved b h = elim (Bool-cases b.flushing) [
    | inl taken ↦ rw taken h
    | inr free ↦ rw free h
  ]

  Step-IsConserved : {max : ℕ} {b c : Batcher M} → Step max b c → IsConserved b → IsConserved c
  unfolding add
  Step-IsConserved (Step.added m b) h =
      omega (arith, h, count-append b.added (m ∷ []), count-append b.metrics (m ∷ []))
  Step-IsConserved (Step.decided b n e) h =
      compare_and_swap-IsConserved (record b { deciding = n }) h
  Step-IsConserved (Step.ticked b) h = compare_and_swap-IsConserved b h
  Step-IsConserved (Step.flushed b n e) h =
      flush-IsConserved (record b { flushers = n; resetting = _ }) h
  Step-IsConserved (Step.reset b n e) h = h
  Step-IsConserved (Step.flushed_now b) h = flush-IsConserved b h
  Step-IsConserved (Step.sent b {batch = batch} t) h =
      omega (arith, h, Takes-count t, count-append batch b.delivered)
  Step-IsConserved (Step.refused b {batch = batch} t) h =
      omega (arith, h, Takes-count t, count-append batch b.failed)
  Step-IsConserved (Step.stopped b) h = h

  -- Whatever the goroutines do and in whichever order, each added metric is at any time in one
  -- place only: in the batch, in a send that runs, or in one that returned nil or an error. That
  -- is, for every test on metrics the numbers of those that pass add up.
  pub Steps-IsConserved : {max : ℕ} {b : Batcher M} → Steps max new b → IsConserved b
  Steps-IsConserved stay = refl
  Steps-IsConserved (then_step r s) = Step-IsConserved s (Steps-IsConserved r)
