-- ===== src/Ingest/Cardinality/Bounds.antt =====
-- pkg/ingest/cardinality.go: the number of series that the tracker counts.
use tinyobs.Base.{
  ℕ, ◌+◌, ◌-◌, ◌≤◌, ◌≡◌, refl, ◌⊎◌, inl, inr, List, [], ◌∷◌, none, some, Bytes, Dict, lookup,
  length, length-insert, length-insert_old, length-delete, delete, lookup-delete_none, ltb,
  Option-cases, if_elim, ltb→lt, ap, sym, ◌∙◌, ◌≢◌, arith,
}
use tinyobs.Ingest.Cardinality.{
  CardinalityTracker, rebuild_loop, rebuild_counts, expired, delete_all, cleanup_old_series, key_of,
  admit, check, increment, metric_name_of, count_new, record_metric, series_retention_period,
  cleanup_interval,
}
use tinyobs.Ingest.Limits.{LimitError, max_unique_series}
use tinyobs.Metric.{Time, Metric}

-- The total covers every series that is remembered.
abbrev pub IsCounted : CardinalityTracker → Type 0
IsCounted c = length c.series_seen ≤ c.total_series

length-expired : (cutoff : Time) (m : Dict Time) → length (expired cutoff m) ≤ length m
unfolding expired
length-expired cutoff [] = omega arith
length-expired cutoff ((k, t) ∷ m) = ground (arith, length-expired cutoff m)

length-delete_all : (ks : List Bytes) (m : Dict Time) → length (delete_all ks m) ≤ length m
unfolding delete_all
length-delete_all [] m = omega arith
length-delete_all (k ∷ ks) m = omega (arith, length-delete_all ks (delete k m), length-delete k m)

lookup-delete_all-none :
    (k : Bytes) (ks : List Bytes) (m : Dict Time)
    → lookup k m ≡ none
    → lookup k (delete_all ks m) ≡ none
unfolding delete_all
lookup-delete_all-none k [] m h = h
lookup-delete_all-none k (j ∷ ks) m h =
    lookup-delete_all-none k ks (delete j m) (lookup-delete_none k j m h)

total-rebuild_loop :
    (counts : Dict ℕ) (total : ℕ) (m : Dict Time)
    → (rebuild_loop counts total m).1 ≡ total + length m
unfolding rebuild_loop
total-rebuild_loop counts total [] = omega arith
total-rebuild_loop counts total ((k, t) ∷ m) =
    omega (arith, total-rebuild_loop (increment (metric_name_of k) counts) (total + 1) m)

rebuild-IsCounted :
    (c : CardinalityTracker) → (rebuild_counts c).total_series ≡ length c.series_seen
unfolding rebuild_counts
rebuild-IsCounted c = omega (arith, total-rebuild_loop [] 0 c.series_seen)

seen-rebuild_counts : (c : CardinalityTracker) → (rebuild_counts c).series_seen ≡ c.series_seen
unfolding rebuild_counts
seen-rebuild_counts c = refl

-- What the cleanup does to the tracker.
record Cleaned (c d : CardinalityTracker) : Type 0 where
  no_more_seen : length d.series_seen ≤ length c.series_seen
  kept_or_recounted : (d.total_series ≡ c.total_series) ⊎ (d.total_series ≡ length d.series_seen)
  few_kept : length c.series_seen ≤ 1000 → d.total_series ≡ c.total_series
  still_unseen : (k : Bytes) → lookup k c.series_seen ≡ none → lookup k d.series_seen ≡ none

cleanup-Cleaned : (now : Time) (c : CardinalityTracker) → Cleaned c (cleanup_old_series now c)
unfolding cleanup_old_series
cleanup-Cleaned now c =
    if_elim (Cleaned c) (ltb (now - c.last_cleanup) cleanup_interval)
      (λ _. record {
        no_more_seen = omega arith;
        kept_or_recounted = inl refl;
        few_kept = λ _. refl;
        still_unseen = λ k h. h;
      })
      (λ _.
        if_elim (Cleaned c) (ltb 1000 (length gone))
          (λ many. record {
            no_more_seen = rw seen-rebuild_counts shorter;
            kept_or_recounted = inr (rebuild-IsCounted _ ∙ ap length (sym (seen-rebuild_counts _)));
            few_kept = λ few. absurd (
                omega (
                  arith,
                  ltb→lt 1000 (length gone) many,
                  length-expired (now - series_retention_period) c.series_seen,
                ));
            still_unseen =
                λ k h. rw seen-rebuild_counts (lookup-delete_all-none k gone c.series_seen h);
          })
          (λ _. record {
            no_more_seen = shorter;
            kept_or_recounted = inl refl;
            few_kept = λ _. refl;
            still_unseen = λ k h. lookup-delete_all-none k gone c.series_seen h;
          }))
  where
    gone : List Bytes
    gone = expired (now - series_retention_period) c.series_seen

    shorter : length (delete_all gone c.series_seen) ≤ length c.series_seen
    shorter = length-delete_all gone c.series_seen

record_metric-total :
    {V : Type 0} (now : Time) (m : Metric V) (c : CardinalityTracker)
    → (lookup (key_of m) c.series_seen ≢ none
        → (record_metric now m c).total_series ≡ c.total_series)
      × ((record_metric now m c).total_series ≤ c.total_series + 1)
unfolding record_metric count_new
record_metric-total now m c = ground arith

pub record_metric-IsCounted :
    {V : Type 0} (now : Time) (m : Metric V) (c : CardinalityTracker)
    → IsCounted c
    → IsCounted (record_metric now m c)
unfolding record_metric count_new
record_metric-IsCounted now m c h = elim (Option-cases (lookup (key_of m) c.series_seen)) [
  | inl new ↦ rw new (omega (arith, length-insert (key_of m) now c.series_seen))
  | inr (t, old) ↦
      rw old (omega (arith, length-insert_old (key_of m) now c.series_seen {w = t} old))
]

admit_full :
    (name key : Bytes) (c : CardinalityTracker)
    → lookup key c.series_seen ≡ none
    → max_unique_series ≤ c.total_series
    → admit name key c ≡ some LimitError.cardinality_limit
unfolding admit
admit_full name key c new full = ground arith

-- A tracker that has counted as many series as it may, `total` in all, while it remembers at most a
-- thousand, and the series of the key `k` is none of those.
pub record IsFull (k : Bytes) (total : ℕ) (c : CardinalityTracker) : Type 0 where
  pub few : length c.series_seen ≤ 1000
  pub counted : c.total_series ≡ total
  pub at_limit : max_unique_series ≤ total
  pub unseen : lookup k c.series_seen ≡ none

-- The cleanup does not give back what it forgets.
pub check-IsFull :
    {V : Type 0} {k : Bytes} {total : ℕ} (now : Time) (m : Metric V) (c : CardinalityTracker)
    → IsFull k total c
    → IsFull k total (check now m c).0
unfolding check
check-IsFull {k = k} now m c h =
    let clean = cleanup-Cleaned now c in
    record {
      few = omega (arith, clean.no_more_seen, h.few);
      counted = clean.few_kept h.few ∙ h.counted;
      at_limit = h.at_limit;
      unseen = clean.still_unseen k h.unseen;
    }

pub check-full :
    {V : Type 0} {total : ℕ} (now : Time) (m : Metric V) (c : CardinalityTracker)
    → IsFull (key_of m) total c
    → (check now m c).1 ≡ some LimitError.cardinality_limit
unfolding check
check-full now m c h =
    let after = check-IsFull now m c h in
    admit_full m.name (key_of m) (cleanup_old_series now c) (unfold check in after.unseen)
      (unfold check in omega (arith, after.counted, after.at_limit))
