-- ===== src/Compaction/Untraced.antt =====
-- pkg/compaction/compactor.go: raw samples that `CompactAndCleanup` comes to too late.
use mathlib.Core.Path.{ap₂}
use tinyobs.Base.{
  ℕ, ◌+◌, ◌-◌, ◌*◌, ◌≡◌, refl, sym, ap, ◌∙◌, Bool, true, false, not, ◌||◌, List, [], ◌∷◌, ◌++◌,
  Bytes, str_eq, filter, filter-filter, filter-append, length-filter, length, map, ltb, leb,
  Bool-cases, inl, inr, arith,
}
use tinyobs.Compaction.Aggregate.{to_metric}
use tinyobs.Compaction.Cleanup.{
  raw_deletion, compacted_5m, compacted_1h, last_step, last_steps, in_steps,
}
use tinyobs.Compaction.Compactor.{
  values, then_do, group_raw, whole_range, write_all, compact_5m, compact_and_cleanup,
  compact_5m_lookback, compact_5m_delay,
}
use tinyobs.Float.{FloatOps}
use tinyobs.Metric.{Time, Metric, hour}
use tinyobs.Storage.Memory.Deletes.{keeps, delete-metrics}
use tinyobs.Storage.Memory.Queries.{query-filter}
use tinyobs.Storage.Memory.{
  Storage, memory_ops, query, matches, in_range, write, limit_of, delete, resolution_of,
}
use tinyobs.Storage.{DeleteOptions}

-- Any metric but a raw sample of more than twelve hours of age.
abbrev pub is_in_time : {V : Type 0} → Time → Metric V → Bool
is_in_time now m = leb (now - 12 * hour) m.timestamp || not (str_eq (resolution_of m) [])

-- The storage without the raw samples that are older than twelve hours.
abbrev pub without_late : {V : Type 0} → Time → Storage V → Storage V
without_late now s = record s { metrics = filter (is_in_time now) s.metrics }

-- The next step is taken exactly if the last one ended well.
then_do-true : {S : Type 0} (r : S × Bool) (k : S → S × Bool) → (then_do r k).1 ≡ true → r.1 ≡ true
then_do-true (s, true) k h = refl
then_do-true (s, false) k h = h

then_do-of : {S : Type 0} (r : S × Bool) (k : S → S × Bool) → r.1 ≡ true → then_do r k ≡ k r.0
then_do-of (s, true) k h = refl
then_do-of (s, false) k h = absurd (cc)

module _ {V : Type 0} (now : Time) where
  -- Such samples are in no range of the five-minute compaction,
  matches-is_in_time :
      (m : Metric V)
      → matches (whole_range (now - compact_5m_lookback) (now - compact_5m_delay)) m ≡ true
      → is_in_time now m ≡ true
  unfolding matches in_range
  matches-is_in_time m h = ground (arith, h)

  query-without_late :
      (s : Storage V)
      → (let req = whole_range (now - compact_5m_lookback) (now - compact_5m_delay) in
          query (without_late now s) req ≡ query s req)
  query-without_late s =
      let req = whole_range (now - compact_5m_lookback) (now - compact_5m_delay) in
      query-filter (without_late now s) req
      ∙ filter-filter (matches req) (is_in_time now) s.metrics matches-is_in_time
      ∙ sym (query-filter s req)

  -- and the deletion of raw samples does not keep them.
  keeps-is_in_time : (m : Metric V) → keeps (raw_deletion now) m ≡ true → is_in_time now m ≡ true
  keeps-is_in_time m h = ground (arith, h)

  delete-same :
      (s t : Storage V) (opts : DeleteOptions)
      → s.max_metrics ≡ t.max_metrics
      → filter (keeps opts) s.metrics ≡ filter (keeps opts) t.metrics
      → delete s opts ≡ delete t opts
  unfolding delete
  delete-same s t opts size same =
      ap₂ {A = List (Metric V)} {B = ℕ} (λ ms n. record { metrics = ms; max_metrics = n })
        (delete-metrics s opts ∙ same ∙ sym (delete-metrics t opts)) size

  -- What is written succeeds without the late samples too, and the deletion makes the states equal.
  write-without_late :
      (s : Storage V) (ms : List (Metric V))
      → (write s ms).1 ≡ true
      → ((write (without_late now s) ms).1 ≡ true)
        × (delete (write s ms).0 (raw_deletion now)
            ≡ delete (write (without_late now s) ms).0 (raw_deletion now))
  unfolding write
  write-without_late s ms h = elim (Bool-cases (ltb (limit_of s) (length s.metrics + length ms))) [
    | inl over ↦ absurd (let e = rw over at h in cc)
    | inr fits ↦
        let fits' : ltb (limit_of s) (length (filter (is_in_time now) s.metrics) + length ms)
            ≡ false =
          ground (arith, fits, length-filter (is_in_time now) s.metrics) in
        rw (fits, fits') (refl, delete-same _ _ (raw_deletion now) refl (kept s.metrics))
  ]
    where
      kept :
          (xs : List (Metric V))
          → filter (keeps (raw_deletion now)) (xs ++ ms)
            ≡ filter (keeps (raw_deletion now)) (filter (is_in_time now) xs ++ ms)
      kept xs =
          filter-append (keeps (raw_deletion now)) xs ms
          ∙ ap (λ k. k ++ filter (keeps (raw_deletion now)) ms)
              (sym (filter-filter (keeps (raw_deletion now)) (is_in_time now) xs keeps-is_in_time))
          ∙ sym (filter-append (keeps (raw_deletion now)) (filter (is_in_time now) xs) ms)

  write_all-without_late :
      (s : Storage V) (ms : List (Metric V))
      → (write_all memory_ops s ms).1 ≡ true
      → ((write_all memory_ops (without_late now s) ms).1 ≡ true)
        × (delete (write_all memory_ops s ms).0 (raw_deletion now)
            ≡ delete (write_all memory_ops (without_late now s) ms).0 (raw_deletion now))
  unfolding write_all
  write_all-without_late s [] h = (
    refl,
    delete-same s (without_late now s) (raw_deletion now) refl (
        sym (filter-filter (keeps (raw_deletion now)) (is_in_time now) s.metrics keeps-is_in_time)),
  )
  write_all-without_late s (m ∷ ms) h = write-without_late s (m ∷ ms) h

module _ (rfc3339 : Time → Bytes) {V : Type 0} ⦃F : FloatOps V⦄ (now : Time) where
  compacted_5m-without_late :
      (s : Storage V)
      → (compacted_5m rfc3339 now s).1 ≡ true
      → ((compacted_5m rfc3339 now (without_late now s)).1 ≡ true)
        × (delete (compacted_5m rfc3339 now s).0 (raw_deletion now)
            ≡ delete (compacted_5m rfc3339 now (without_late now s)).0 (raw_deletion now))
  unfolding compact_5m
  compacted_5m-without_late s h =
      elim (Bool-cases (not (ltb (now - compact_5m_lookback) (now - compact_5m_delay)))) [
        | inl early ↦ absurd (let e = rw early at h in cc)
        | inr fine ↦
            rw (fine, query-without_late now s)
              (write_all-without_late now s
                (map to_metric (
                  values (
                    group_raw rfc3339 [] (
                      query s (whole_range (now - compact_5m_lookback) (now - compact_5m_delay))))))
                (rw fine at h))
      ]

  -- Raw samples of more than twelve hours of age leave no trace: when `CompactAndCleanup` succeeds
  -- over the storage in memory, it leaves the very state, the aggregates included, that it leaves
  -- where those samples have never been stored. They are deleted, and no aggregate stands for them.
  pub compact_and_cleanup-without_late :
      (s : Storage V)
      → (compact_and_cleanup rfc3339 memory_ops now s).1 ≡ true
      → compact_and_cleanup rfc3339 memory_ops now s
        ≡ compact_and_cleanup rfc3339 memory_ops now (without_late now s)
  compact_and_cleanup-without_late s h =
      let done =
        then_do-true (compacted_5m rfc3339 now s) (last_steps rfc3339 now) (rw in_steps at h) in
      let first = then_do-of (compacted_5m rfc3339 now s) (last_steps rfc3339 now) done in
      let (done', same) = compacted_5m-without_late s done in
      in_steps rfc3339 now s
      ∙ first
      ∙ ap (λ t. then_do (compacted_1h rfc3339 now t) (last_step rfc3339 now)) same
      ∙ sym (
          then_do-of (compacted_5m rfc3339 now (without_late now s)) (last_steps rfc3339 now) done')
      ∙ sym (in_steps rfc3339 now (without_late now s))
