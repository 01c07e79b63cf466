-- ===== src/Compaction/Cleanup.antt =====
-- pkg/compaction/compactor.go, `CompactAndCleanup`, over the storage in memory.
use tinyobs.Base.{
  ◌-◌, ◌*◌, ◌≤◌, ◌≡◌, refl, Bool, true, false, not, ◌&&◌, [], some, Bytes, str_eq, str_eq_iff, All,
  filter, filter-filter, leb, if_elim, ap, ◌∙◌, arith, ltb,
}
use tinyobs.Compaction.Aggregate.{resolution_5m, resolution_1h}
use tinyobs.Compaction.Compactor.{
  group_raw, group_5m, whole_range, compact_5m, compact_1h, then_do, compact_and_cleanup,
  compact_5m_lookback, compact_5m_delay, compact_1h_lookback, compact_1h_delay, raw_data_retention,
  five_min_retention,
}
use tinyobs.Compaction.Resolutions.{group_raw-AllAt, group_5m-AllAt, filter-write_all}
use tinyobs.Float.{FloatOps}
use tinyobs.Metric.{Time, Metric, hour}
use tinyobs.Storage.Memory.Deletes.{keeps, delete-metrics, delete_old}
use tinyobs.Storage.Memory.{Storage, memory_ops, query, delete, resolution_of}
use tinyobs.Storage.{DeleteOptions, resolution_raw}

-- A property of states that each step keeps.
then_do-keeps :
    {S : Type 0} (I : S → Type 0) (r : S × Bool) (k : S → S × Bool)
    → I r.0
    → ((s : S) → I s → I (k s).0)
    → I (then_do r k).0
then_do-keeps I (s, true) k h step = step s h
then_do-keeps I (s, false) k h step = h

-- Steps that end well have been taken.
then_do-ok :
    {S : Type 0} (r : S × Bool) (k : S → S × Bool) → (then_do r k).1 ≡ true → then_do r k ≡ k r.0
then_do-ok (s, true) k h = refl
then_do-ok (s, false) k h = absurd (cc)

-- The deletions of `CompactAndCleanup`: of raw samples, and of five-minute aggregates.
abbrev pub raw_deletion : Time → DeleteOptions
raw_deletion now = record { before = now - raw_data_retention; resolution = some resolution_raw }

abbrev pub deletion_5m : Time → DeleteOptions
deletion_5m now = record { before = now - five_min_retention; resolution = some resolution_5m }

-- A raw sample within the time that raw samples are kept.
abbrev pub is_recent_raw : {V : Type 0} → Time → Metric V → Bool
is_recent_raw now m = str_eq (resolution_of m) [] && leb (now - 6 * hour) m.timestamp

module _ (rfc3339 : Time → Bytes) {V : Type 0} ⦃F : FloatOps V⦄ where
  filter-compact_5m :
      (p : Metric V → Bool) (s : Storage V) (start end : Time)
      → ((m : Metric V) → resolution_of m ≡ resolution_5m → p m ≡ false)
      → filter p (compact_5m rfc3339 memory_ops s start end).0.metrics ≡ filter p s.metrics
  unfolding compact_5m
  filter-compact_5m p s start end reject =
      if_elim (λ (r : Storage V × Bool). filter p r.0.metrics ≡ filter p s.metrics)
        (not (ltb start end)) (λ _. refl)
        (λ _.
          filter-write_all p resolution_5m s
            (group_raw rfc3339 [] (query s (whole_range start end))) reject
            (group_raw-AllAt rfc3339 [] (query s (whole_range start end)) tt))

  filter-compact_1h :
      (p : Metric V → Bool) (s : Storage V) (start end : Time)
      → ((m : Metric V) → resolution_of m ≡ resolution_1h → p m ≡ false)
      → filter p (compact_1h rfc3339 memory_ops s start end).0.metrics ≡ filter p s.metrics
  unfolding compact_1h
  filter-compact_1h p s start end reject =
      if_elim (λ (r : Storage V × Bool). filter p r.0.metrics ≡ filter p s.metrics)
        (not (ltb start end)) (λ _. refl)
        (λ _.
          filter-write_all p resolution_1h s (group_5m rfc3339 [] (query s (whole_range start end)))
            reject (group_5m-AllAt rfc3339 [] (query s (whole_range start end)) tt))

  filter-delete :
      (p : Metric V → Bool) (s : Storage V) (opts : DeleteOptions)
      → ((m : Metric V) → p m ≡ true → keeps opts m ≡ true)
      → filter p (delete s opts).metrics ≡ filter p s.metrics
  filter-delete p s opts h =
      ap (filter p) (delete-metrics s opts) ∙ filter-filter p (keeps opts) s.metrics h

  module _ (now : Time) where
    -- The states behind the two compactions, and the steps that are left from each one on.
    abbrev pub compacted_5m : Storage V → Storage V × Bool
    compacted_5m s =
        compact_5m rfc3339 memory_ops s (now - compact_5m_lookback) (now - compact_5m_delay)

    abbrev pub compacted_1h : Storage V → Storage V × Bool
    compacted_1h s =
        compact_1h rfc3339 memory_ops s (now - compact_1h_lookback) (now - compact_1h_delay)

    abbrev pub last_step : Storage V → Storage V × Bool
    last_step s = (delete s (deletion_5m now), true)

    abbrev pub last_steps : Storage V → Storage V × Bool
    last_steps s = then_do (compacted_1h (delete s (raw_deletion now))) last_step

    -- The job is its steps.
    pub in_steps :
        (s : Storage V)
        → compact_and_cleanup rfc3339 memory_ops now s ≡ then_do (compacted_5m s) last_steps
    unfolding compact_and_cleanup
    in_steps s = refl

    rejects :
        (r : Bytes) (p : Bool) (m : Metric V)
        → str_eq r [] ≡ false
        → resolution_of m ≡ r
        → (str_eq (resolution_of m) [] && p) ≡ false
    rejects r p m other e = rw (e, other) refl

    keeps_5m :
        (m : Metric V) → str_eq (resolution_of m) [] ≡ true → keeps (deletion_5m now) m ≡ true
    keeps_5m m h =
        let raw : resolution_of m ≡ [] = (str_eq_iff (resolution_of m) []).0 h in
        rw raw (unfold str_eq in ground arith)

    recent-last_step :
        (s : Storage V)
        → filter (is_recent_raw now) (last_step s).0.metrics ≡ filter (is_recent_raw now) s.metrics
    recent-last_step s =
        filter-delete (is_recent_raw now) s (deletion_5m now) (λ m h. keeps_5m m (ground arith))

    recent-last_steps :
        (s : Storage V)
        → filter (is_recent_raw now) (last_steps s).0.metrics ≡ filter (is_recent_raw now) s.metrics
    recent-last_steps s =
        then_do-keeps
          (λ (t : Storage V).
            filter (is_recent_raw now) t.metrics ≡ filter (is_recent_raw now) s.metrics)
          (compacted_1h (delete s (raw_deletion now))) last_step
          (filter-compact_1h (is_recent_raw now) (delete s (raw_deletion now)) _ _
              (λ m. rejects resolution_1h _ m (unfold str_eq in refl))
            ∙ filter-delete (is_recent_raw now) s (raw_deletion now) (λ m h. ground arith))
          (λ t h. recent-last_step t ∙ h)

    -- Over the storage in memory, `CompactAndCleanup` leaves the raw samples of the last six hours as
    -- they are, in their order, whether it succeeds or fails.
    pub compact_and_cleanup-recent :
        (s : Storage V)
        → filter (is_recent_raw now) (compact_and_cleanup rfc3339 memory_ops now s).0.metrics
          ≡ filter (is_recent_raw now) s.metrics
    compact_and_cleanup-recent s = rw in_steps (
        then_do-keeps
          (λ (t : Storage V).
            filter (is_recent_raw now) t.metrics ≡ filter (is_recent_raw now) s.metrics)
          (compacted_5m s) last_steps
          (filter-compact_5m (is_recent_raw now) s _ _
            (λ m. rejects resolution_5m _ m (unfold str_eq in refl)))
          (λ t h. recent-last_steps t ∙ h))

    -- The state that a job without an error leaves.
    final :
        (s : Storage V)
        → (compact_and_cleanup rfc3339 memory_ops now s).1 ≡ true
        → compact_and_cleanup rfc3339 memory_ops now s
          ≡ last_step (compacted_1h (delete (compacted_5m s).0 (raw_deletion now))).0
    final s h =
        let h' : (then_do (compacted_5m s) last_steps).1 ≡ true = rw in_steps at h in
        let first = then_do-ok (compacted_5m s) last_steps h' in
        let second =
          then_do-ok (compacted_1h (delete (compacted_5m s).0 (raw_deletion now))) last_step
            (rw first at h') in
        in_steps s ∙ first ∙ second

    raw_same :
        (s : Storage V)
        → filter (λ m. str_eq (resolution_of m) []) (last_step (compacted_1h s).0).0.metrics
          ≡ filter (λ m. str_eq (resolution_of m) []) s.metrics
    raw_same s =
        filter-delete (λ m. str_eq (resolution_of m) []) (compacted_1h s).0 (deletion_5m now)
          keeps_5m
        ∙ filter-compact_1h (λ m. str_eq (resolution_of m) []) s _ _
            (λ m e. rw e (unfold str_eq in refl))

    -- When `CompactAndCleanup` succeeds over the storage in memory, no raw sample is left that is
    -- older than six hours, and no five-minute aggregate that is older than seven days.
    pub compact_and_cleanup-old :
        (s : Storage V)
        → (compact_and_cleanup rfc3339 memory_ops now s).1 ≡ true
        → let left = (compact_and_cleanup rfc3339 memory_ops now s).0.metrics in
          All
            (λ m. now - 6 * hour ≤ m.timestamp)
            (filter (λ m. str_eq (resolution_of m) resolution_raw) left)
          × All
              (λ m. now - 7 * 24 * hour ≤ m.timestamp)
              (filter (λ m. str_eq (resolution_of m) resolution_5m) left)
    compact_and_cleanup-old s h =
        let s2 = delete (compacted_5m s).0 (raw_deletion now) in
        rw (final s h) (
          (rw (raw_same s2) (delete_old (compacted_5m s).0 (raw_deletion now) [] refl)),
          delete_old (compacted_1h s2).0 (deletion_5m now) resolution_5m refl,
        )
