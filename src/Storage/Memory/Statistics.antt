-- ===== src/Storage/Memory/Statistics.antt =====
-- pkg/storage/memory/memory.go: what `Stats` reports.
use native.Mathlib.Nat.{le_trans}
use tinyobs.Base.{
  ◌+◌, ◌≤◌, ◌≡◌, refl, Bool, true, List, [], ◌∷◌, Dict, insert, length-insert, All, length, ltb,
  if◌then◌else◌, arith,
}
use tinyobs.Metric.{Time, Metric, read_labels}
use tinyobs.Storage.Memory.{Storage, series_key, stats_loop, stats_from, stats}

module _ {V : Type 0} where
  stats_loop-bounds :
      (series : Dict Bool) (oldest newest : Time) (ms : List (Metric V))
      → let (series', oldest', newest') = stats_loop series oldest newest ms in
        (oldest' ≤ oldest)
        × (newest ≤ newest')
        × (length series' ≤ length series + length ms)
        × All (λ m. (oldest' ≤ m.timestamp) × (m.timestamp ≤ newest')) ms
  unfolding stats_loop
  stats_loop-bounds series oldest newest [] = omega arith
  stats_loop-bounds series oldest newest (m ∷ ms) =
      let key = series_key m.name (read_labels m.label_map) in
      let (a, b, c, d) =
        stats_loop-bounds (insert key true series)
          (if ltb m.timestamp oldest then m.timestamp else oldest)
          (if ltb newest m.timestamp then m.timestamp else newest) ms in
      (
        le_trans a (ground arith),
        le_trans (ground arith) b,
        omega (arith, c, length-insert key true series),
        ((le_trans a (ground arith), le_trans (ground arith) b), d),
      )

  -- `Stats` counts the stored metrics and at most as many series, and its two times bound the
  -- timestamp of every stored metric.
  pub stats-bounds :
      (s : Storage V)
      → ((stats s).total_metrics ≡ length s.metrics)
        × ((stats s).total_series ≤ length s.metrics)
        × All
            (λ m. ((stats s).oldest_metric ≤ m.timestamp) × (m.timestamp ≤ (stats s).newest_metric))
            s.metrics
  unfolding stats
  stats-bounds s = go s.metrics
    where
      go :
          (ms : List (Metric V))
          → ((stats_from ms).total_metrics ≡ length ms)
            × ((stats_from ms).total_series ≤ length ms)
            × All
                (λ m.
                  ((stats_from ms).oldest_metric ≤ m.timestamp)
                  × (m.timestamp ≤ (stats_from ms).newest_metric))
                ms
      go [] = (refl, omega arith, tt)
      go (m ∷ ms) =
          let (_, _, c, d) = stats_loop-bounds [] m.timestamp m.timestamp (m ∷ ms) in
          (refl, omega (arith, c), d)
