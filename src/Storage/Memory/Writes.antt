-- ===== src/Storage/Memory/Writes.antt =====
-- pkg/storage/memory/memory.go: the bound on the number of stored metrics.
use native.Mathlib.Nat.{le_trans}
use tinyobs.Base.{
  ◌+◌, ◌≤◌, ◌<◌, ◌≡◌, refl, ◌⊎◌, true, false, List, [], ◌∷◌, ◌++◌, length, ltb, length-append,
  length-filter, Bool-cases, inl, inr, ltb→lt, ltb_false→le,
}
use tinyobs.Metric.{Metric}
use tinyobs.Storage.Memory.Deletes.{keeps, delete-metrics}
use tinyobs.Storage.Memory.{Storage, limit_of, write, delete}
use tinyobs.Storage.{DeleteOptions}

module _ {V : Type 0} where
  abbrev pub IsBounded : Storage V → Type 0
  IsBounded s = length s.metrics ≤ limit_of s

  -- A write that fits appends the metrics, in their order, behind those stored, and keeps the
  -- bound; one that does not fit fails, and changes nothing.
  pub write-cases :
      (s : Storage V) (ms : List (Metric V))
      → ((write s ms).1 ≡ true)
          × ((write s ms).0.metrics ≡ s.metrics ++ ms)
          × IsBounded (write s ms).0
          × (limit_of (write s ms).0 ≡ limit_of s)
        ⊎ ((write s ms).1 ≡ false)
          × ((write s ms).0 ≡ s)
          × (limit_of s < length s.metrics + length ms)
  unfolding write
  write-cases s ms = elim (Bool-cases (ltb (limit_of s) (length s.metrics + length ms))) [
    | inl full ↦ rw full (inr (refl, refl, ltb→lt _ _ full))
    | inr fits ↦ rw fits (inl (refl, refl, rw length-append (ltb_false→le _ _ fits), refl))
  ]

  limit_of-delete : (s : Storage V) (opts : DeleteOptions) → limit_of (delete s opts) ≡ limit_of s
  unfolding delete
  limit_of-delete s opts = refl

  pub delete-IsBounded :
      (s : Storage V) (opts : DeleteOptions) → IsBounded s → IsBounded (delete s opts)
  delete-IsBounded s opts h =
      rw (delete-metrics, limit_of-delete) (le_trans (length-filter (keeps opts) s.metrics) h)

-- The calls that change a storage.
pub data Call (V : Type 0) : Type 0 where
  write_call : List (Metric V) → Call V
  delete_call : DeleteOptions → Call V

module _ {V : Type 0} where
  apply : Storage V → Call V → Storage V
  apply s (write_call ms) = (write s ms).0
  apply s (delete_call opts) = delete s opts

  unfoldable pub run : Storage V → List (Call V) → Storage V
  unfolding apply
  run s [] = s
  run s (c ∷ cs) = run (apply s c) cs

  apply-IsBounded : (s : Storage V) (c : Call V) → IsBounded s → IsBounded (apply s c)
  unfolding apply
  apply-IsBounded s (write_call ms) h = elim (write-cases s ms) [
    | inl (_, _, b, _) ↦ b
    | inr (_, same, _) ↦ rw same h
  ]
  apply-IsBounded s (delete_call opts) h = delete-IsBounded s opts h

  -- From a storage within its limit, no sequence of writes and deletions leads to one that holds
  -- more metrics than its limit.
  pub run-IsBounded : (s : Storage V) (cs : List (Call V)) → IsBounded s → IsBounded (run s cs)
  unfolding run
  run-IsBounded s [] h = h
  run-IsBounded s (c ∷ cs) h = run-IsBounded (apply s c) cs (apply-IsBounded s c h)
