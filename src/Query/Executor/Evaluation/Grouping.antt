-- ===== src/Query/Executor/Evaluation/Grouping.antt =====
-- pkg/query/executor.go: the groups of `groupSeries`.
use tinyobs.Base.{
  ℕ, ◌+◌, ◌≡◌, refl, ◌∙◌, Bool, List, [], ◌∷◌, ◌++◌, Option, none, some, Bytes, str_eq, str_eq_iff,
  Dict, lookup, insert, total, count_of, total-insert, length, length-append, All, Bool-cases, inl,
  inr, arith,
}
use tinyobs.Query.Executor.Series.{
  TimeSeries, SeriesGroup, build_group_key, extract_group_labels, join_group, group_loop,
}

module _ {A : Type 0} (P : Bytes → A → Type 0) where
  entries-insert :
      (k : Bytes) (v : A) (m : Dict A)
      → P k v
      → All (λ e. P e.0 e.1) m
      → All (λ e. P e.0 e.1) (insert k v m)
  unfolding insert
  entries-insert k v [] p h = (p, tt)
  entries-insert k v ((j, w) ∷ m) p h = elim (Bool-cases (str_eq j k)) [
    | inl same ↦ let key : j ≡ k = (str_eq_iff j k).0 same in rw same ((rw key p), h.1)
    | inr other ↦ rw other (h.0, entries-insert k v m p h.1)
  ]

  entries-lookup :
      (k : Bytes) (v : A) (m : Dict A) → All (λ e. P e.0 e.1) m → lookup k m ≡ some v → P k v
  unfolding lookup
  entries-lookup k v [] h e = absurd (cc)
  entries-lookup k v ((j, w) ∷ m) h e = elim (Bool-cases (str_eq j k)) [
    | inl same ↦
        (let found : some w ≡ some v = rw same at e in
          let eq : w ≡ v = cc in let key : j ≡ k = (str_eq_iff j k).0 same in rw (eq, key) at h.0)
    | inr other ↦ entries-lookup k v m h.1 (rw other at e)
  ]

All-snoc :
    {A : Type 0} (P : A → Type 0) (xs : List A) (x : A) → All P xs → P x → All P (xs ++ x ∷ [])
All-snoc P [] x h p = (p, tt)
All-snoc P (y ∷ xs) x h p = (h.0, All-snoc P xs x h.1 p)

module _ {V : Type 0} (grouping : List Bytes) (without : Bool) where
  -- A group holds series of its key only.
  abbrev IsOfKey : Bytes → SeriesGroup V → Type 0
  IsOfKey k g = All (λ ts. build_group_key ts.labels grouping without ≡ k) g.series

  -- The series in all groups.
  abbrev pub series_in : Dict (SeriesGroup V) → ℕ
  series_in = total (λ g. length g.series)

  join_group-IsOfKey :
      (new : _) (o : Option (SeriesGroup V)) (ts : TimeSeries V)
      → ((g : SeriesGroup V) → o ≡ some g → IsOfKey (build_group_key ts.labels grouping without) g)
      → IsOfKey (build_group_key ts.labels grouping without) (join_group new o ts)
  unfolding join_group
  join_group-IsOfKey new none ts h = (refl, tt)
  join_group-IsOfKey new (some g) ts h = All-snoc _ g.series ts (h g refl) refl

  length-join_group :
      (new : _) (o : Option (SeriesGroup V)) (ts : TimeSeries V)
      → length (join_group new o ts).series
        ≡ count_of (λ (g : SeriesGroup V). length g.series) o + 1
  unfolding join_group
  length-join_group new none ts = refl
  length-join_group new (some g) ts = length-append g.series (ts ∷ [])

  -- `groupSeries`, from any groups on: each group holds only series of its own key.
  group_loop-IsOfKey :
      (groups : Dict (SeriesGroup V)) (series : List (TimeSeries V))
      → All (λ e. IsOfKey e.0 e.1) groups
      → All (λ e. IsOfKey e.0 e.1) (group_loop grouping without groups series)
  unfolding group_loop
  group_loop-IsOfKey groups [] h = h
  group_loop-IsOfKey groups (ts ∷ rest) h =
      let key = build_group_key ts.labels grouping without in
      let new = extract_group_labels ts.labels grouping without in
      group_loop-IsOfKey (insert key (join_group new (lookup key groups) ts) groups) rest (
        entries-insert IsOfKey key _ groups
          (join_group-IsOfKey new (lookup key groups) ts
            (λ g found. entries-lookup IsOfKey key g groups h found))
          h)

  series_in-group_loop :
      (groups : Dict (SeriesGroup V)) (series : List (TimeSeries V))
      → series_in (group_loop grouping without groups series) ≡ series_in groups + length series
  unfolding group_loop
  series_in-group_loop groups [] = omega arith
  series_in-group_loop groups (ts ∷ rest) =
      let key = build_group_key ts.labels grouping without in
      let new = extract_group_labels ts.labels grouping without in
      let joined = join_group new (lookup key groups) ts in
      series_in-group_loop (insert key joined groups) rest
      ∙ omega (
        arith,
        length-join_group new (lookup key groups) ts,
        total-insert (λ (g : SeriesGroup V). length g.series) key joined groups,
      )

  -- An aggregation puts every series into exactly one group, and a group holds only series whose
  -- grouping labels make the same key.
  pub group_loop-partition :
      (series : List (TimeSeries V))
      → (series_in (group_loop grouping without [] series) ≡ length series)
        × All
            (λ e. All (λ ts. build_group_key ts.labels grouping without ≡ e.0) e.1.series)
            (group_loop grouping without [] series)
  group_loop-partition series =
      (series_in-group_loop [] series ∙ omega arith, group_loop-IsOfKey [] series tt)
