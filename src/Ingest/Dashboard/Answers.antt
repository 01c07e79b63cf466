-- ===== src/Ingest/Dashboard/Answers.antt =====
-- pkg/ingest/dashboard.go: the answers of the range query.
use tinyobs.Base.{
  ℕ, ◌*◌, ◌≡◌, ◌<◌, refl, List, [], ◌∷◌, true, false, some, Bytes, Dict, length, ltb, if◌then◌else◌,
  Bool-cases, inl, inr, arith, All, ltb→lt, ltb_false→le, codes, str_eq,
}
use tinyobs.Float.{FloatOps}
use tinyobs.Ingest.Dashboard.Downsampling.{downsample_points-length}
use tinyobs.Ingest.Dashboard.Handlers.{range_data, data_of}
use tinyobs.Ingest.Dashboard.{
  Point, SeriesData, Reading, read_user_label, read_label_loop, group_metrics, add_point,
  sort_points, downsample_points, finish_series,
}
use tinyobs.Metric.{Metric, Labels, read_labels}
use tinyobs.Query.Outcome.{ok}
use tinyobs.Storage.{StorageOps}

-- No key is empty.
abbrev pub IsKeyed : Labels → Type 0
IsKeyed ls = All (λ kv. 0 < length kv.0) ls

read_user_label-ok :
    (k v : Bytes) (ls : Labels) → 0 < length k → (ls' : Labels) × (read_user_label k v ls ≡ ok ls')
unfolding read_user_label
read_user_label-ok [] v ls h = absurd (omega arith)
read_user_label-ok (c ∷ k) v ls h = (_, refl)

read_label_loop-ok :
    (r : Reading) (ls : Labels) → IsKeyed ls → (r' : Reading) × (read_label_loop r ls ≡ ok r')
unfolding read_label_loop
read_label_loop-ok r [] h = (r, refl)
read_label_loop-ok r ((k, v) ∷ ls) h = elim (Bool-cases (str_eq k (codes "__resolution__"))) [
  | inl special ↦
      rw special (read_label_loop-ok (record r { is_aggregate = true; resolution = v }) ls h.1)
  | inr other ↦
      let (us, e) = read_user_label-ok k v r.user_labels h.0 in
      rw (other, e) (read_label_loop-ok (record r { user_labels = us }) ls h.1)
]

unread : Reading
unread = record { user_labels = []; is_aggregate = false; resolution = codes "raw" }

module _ {V : Type 0} where
  group_metrics-ok :
      (metric : Bytes) (series : Dict (SeriesData V)) (ms : List (Metric V))
      → All (λ m. IsKeyed (read_labels m.label_map)) ms
      → (series' : Dict (SeriesData V)) × (group_metrics metric series ms ≡ ok series')
  unfolding group_metrics unread
  group_metrics-ok metric series [] h = (series, refl)
  group_metrics-ok metric series (m ∷ ms) h =
      let (r, e) = read_label_loop-ok unread (read_labels m.label_map) h.0 in
      rw e (group_metrics-ok metric (add_point metric r m series) ms h.1)

module _ {V : Type 0} ⦃F : FloatOps V⦄ where
  thin :
      (max_points : ℕ) (points : List (Point V))
      → 0 < max_points
      → (qs : List (Point V)) × ((if ltb max_points (length points)
            then downsample_points points max_points
            else ok points)
          ≡ ok qs)
        × (length qs < 2 * max_points)
  thin max_points points h = elim (Bool-cases (ltb max_points (length points))) [
    | inl long ↦
        let (qs, e, _, less) = downsample_points-length points max_points h (ltb→lt _ _ long) in
        (qs, rw long e, less)
    | inr short ↦ (points, rw short refl, omega (arith, h, ltb_false→le _ _ short))
  ]

  finish_series-ok :
      (max_points : ℕ) (series : Dict (SeriesData V))
      → 0 < max_points
      → (out : List (SeriesData V)) × (finish_series max_points series ≡ ok out)
        × All (λ d. length d.points < 2 * max_points) out
  unfolding finish_series
  finish_series-ok max_points [] h = ([], refl, tt)
  finish_series-ok max_points ((key, s) ∷ series) h =
      let (qs, e, less) = thin max_points (sort_points [] s.points) h in
      let (out, rest, all) = finish_series-ok max_points series h in
      (record s { points = qs } ∷ out, rw (e, rest) refl, (less, all))

  -- The range query answers on any result of the storage in which no label has an empty key, and
  -- each series of its answer has less than twice as many points as were asked for.
  pub range_data-bounded :
      {S : Type 0} (ops : StorageOps V S) (max_points : ℕ) (metric : Bytes)
      (results : List (Metric V))
      → 0 < max_points
      → All (λ m. IsKeyed (read_labels m.label_map)) results
      → (out : List (SeriesData V)) × (range_data ops max_points metric (some results)
          ≡ ok (data_of out))
        × All (λ d. length d.points < 2 * max_points) out
  unfolding range_data
  range_data-bounded ops max_points metric results h keyed =
      let (series, e) = group_metrics-ok metric [] results keyed in
      let (out, done, all) = finish_series-ok max_points series h in (out, rw (e, done) refl, all)
