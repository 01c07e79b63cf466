-- ===== src/Storage/Memory/Queries.antt =====
-- pkg/storage/memory/memory.go: what `Query` returns.
use mathlib.Core.List.{append-nil, append_assoc}
use tinyobs.Base.{
  ℕ, zero, suc, ◌≤◌, ◌<◌, ◌≡◌, ◌⊎◌, refl, ◌∙◌, sym, ap, true, false, ◌&&◌, List, [], ◌∷◌, ◌++◌,
  Option, none, some, str_eq, str_eq_iff, lookup_or, any, All, filter, filter-append, filter-filter,
  All-filter, All-take, take, length, length-append, ltb, leb, Bool-cases, inl, inr, arith,
}
use tinyobs.Metric.{Metric, Labels, read_labels}
use tinyobs.Storage.Memory.Deletes.{keeps, delete-metrics}
use tinyobs.Storage.Memory.Writes.{write-cases}
use tinyobs.Storage.Memory.{
  Storage, write, delete, query, query_loop, matches, in_range, name_matches, labels_match,
  label_matches,
}
use tinyobs.Storage.{QueryRequest, DeleteOptions}

-- The first `n` items, or all of them where `n` is 0.
abbrev pub at_most {ℓ} : {A : Type ℓ} → ℕ → List A → List A
at_most zero xs = xs
at_most (suc n) xs = take (suc n) xs

take_all {ℓ} : {A : Type ℓ} (n : ℕ) (xs ys : List A) → length xs ≡ n → take n (xs ++ ys) ≡ xs
take_all zero [] ys h = refl
take_all zero (x ∷ xs) ys h = absurd (omega arith)
take_all (suc n) [] ys h = absurd (omega arith)
take_all (suc n) (x ∷ xs) ys h = ap (◌∷◌ x) (take_all n xs ys (omega arith))

take_short {ℓ} : {A : Type ℓ} (n : ℕ) (xs : List A) → length xs ≤ n → take n xs ≡ xs
take_short zero [] h = refl
take_short zero (x ∷ xs) h = absurd (omega arith)
take_short (suc n) [] h = refl
take_short (suc n) (x ∷ xs) h = ap (◌∷◌ x) (take_short n xs (omega arith))

labels_match-All :
    (ls : Option Labels) (req : Labels)
    → labels_match ls req ≡ true
    → All (λ kv. lookup_or kv.0 [] (read_labels ls) ≡ kv.1) req
unfolding labels_match label_matches
labels_match-All none [] h = tt
labels_match-All none (kv ∷ rest) h = cc
labels_match-All (some ls) [] h = tt
labels_match-All (some ls) ((k, v) ∷ rest) h = (
  ground (arith, str_eq_iff (lookup_or k [] ls) v),
  labels_match-All (some ls) rest (ground arith),
)

module _ {V : Type 0} where
  pub query_loop-unlimited :
      (req : QueryRequest) (out ms : List (Metric V))
      → req.limit ≡ 0
      → query_loop req out ms ≡ out ++ filter (matches req) ms
  unfolding query_loop
  query_loop-unlimited req out [] h = sym (append-nil out)
  query_loop-unlimited req out (m ∷ ms) h = elim (Bool-cases (matches req m)) [
    | inl hit ↦
        rw (hit, h) (query_loop-unlimited req (out ++ m ∷ []) ms h ∙ append_assoc out (m ∷ []) _)
    | inr miss ↦ rw miss (query_loop-unlimited req out ms h)
  ]

  query_loop-limited :
      (req : QueryRequest) (out ms : List (Metric V))
      → length out < req.limit
      → query_loop req out ms ≡ take req.limit (out ++ filter (matches req) ms)
  unfolding query_loop
  query_loop-limited req out [] h = rw append-nil (sym (take_short req.limit out (omega arith)))
  query_loop-limited req out (m ∷ ms) h = elim (Bool-cases (matches req m)) [
    | inl hit ↦ elim (Bool-cases (ltb 0 req.limit && leb req.limit (length (out ++ m ∷ [])))) [
      | inl full ↦ rw (hit, full) (sym (fills full))
      | inr room ↦
          rw (hit, room)
            (query_loop-limited req (out ++ m ∷ []) ms (fits room)
              ∙ ap (take req.limit) (append_assoc out (m ∷ []) _))
    ]
    | inr miss ↦ rw miss (query_loop-limited req out ms h)
  ]
    where
      longer : length (out ++ m ∷ []) ≡ suc (length out)
      longer = omega (arith, length-append out (m ∷ []))

      fills :
          (ltb 0 req.limit && leb req.limit (length (out ++ m ∷ []))) ≡ true
          → take req.limit (out ++ m ∷ filter (matches req) ms) ≡ out ++ m ∷ []
      fills full =
          rw (← append_assoc out (m ∷ []) (filter (matches req) ms))
            (take_all req.limit (out ++ m ∷ []) _ (ground (arith, longer)))

      fits :
          (ltb 0 req.limit && leb req.limit (length (out ++ m ∷ []))) ≡ false
          → length (out ++ m ∷ []) < req.limit
      fits room = ground (arith, longer)

  -- `Query` returns the stored metrics that pass its three filters, in their order: all of them if
  -- the limit is 0, and otherwise the first ones up to the limit.
  pub query-filter :
      (s : Storage V) (req : QueryRequest)
      → query s req ≡ at_most req.limit (filter (matches req) s.metrics)
  unfolding query
  query-filter s req = go req.limit refl
    where
      go :
          (n : ℕ)
          → req.limit ≡ n
          → query_loop req [] s.metrics ≡ at_most n (filter (matches req) s.metrics)
      go zero e = query_loop-unlimited req [] s.metrics e
      go (suc n) e =
          query_loop-limited req [] s.metrics (rw e (omega arith))
          ∙ ap (λ k. take k (filter (matches req) s.metrics)) e

  pub query-unlimited :
      (s : Storage V) (req : QueryRequest)
      → req.limit ≡ 0
      → query s req ≡ filter (matches req) s.metrics
  unfolding query
  query-unlimited s req h = query_loop-unlimited req [] s.metrics h

  -- After a successful write, an unlimited query finds what it found before and, behind it, the
  -- written metrics that match.
  pub query-write :
      (s : Storage V) (ms : List (Metric V)) (req : QueryRequest)
      → req.limit ≡ 0
      → (write s ms).1 ≡ true
      → query (write s ms).0 req ≡ query s req ++ filter (matches req) ms
  query-write s ms req h w = elim (write-cases s ms) [
    | inl (_, appended, _, _) ↦
        query-unlimited (write s ms).0 req h
        ∙ ap (filter (matches req)) appended
        ∙ filter-append (matches req) s.metrics ms
        ∙ ap (λ xs. xs ++ filter (matches req) ms) (sym (query-unlimited s req h))
    | inr (failed, _, _) ↦ absurd (cc)
  ]

  -- What a query filters by, read as a statement.
  pub record Matches (req : QueryRequest) (m : Metric V) : Type 0 where
    pub from_start : req.start ≤ m.timestamp
    pub to_end : m.timestamp ≤ req.end
    pub named : (req.metric_names ≡ []) ⊎ (any (λ n. str_eq m.name n) req.metric_names ≡ true)
    pub labelled : All (λ kv. lookup_or kv.0 [] (read_labels m.label_map) ≡ kv.1) req.labels

  matches-Matches : (req : QueryRequest) (m : Metric V) → matches req m ≡ true → Matches req m
  unfolding matches in_range name_matches
  matches-Matches req m h = record {
    from_start = ground arith;
    to_end = ground arith;
    named = ground arith;
    labelled = labels_match-All m.label_map req.labels (ground arith);
  }

  -- Every metric that `Query` returns lies within the two ends of the range, has one of the names
  -- if names are given, and for each requested label holds its value.
  pub query-Matches : (s : Storage V) (req : QueryRequest) → All (Matches req) (query s req)
  query-Matches s req = rw query-filter (go req.limit)
    where
      sound : All (Matches req) (filter (matches req) s.metrics)
      sound = All-filter (Matches req) (matches req) s.metrics (matches-Matches req)

      go : (n : ℕ) → All (Matches req) (at_most n (filter (matches req) s.metrics))
      go zero = sound
      go (suc n) = All-take (Matches req) (suc n) (filter (matches req) s.metrics) sound

  recent-keeps :
      (opts : DeleteOptions) (req : QueryRequest)
      → opts.before ≤ req.start
      → (m : Metric V) → matches req m ≡ true
      → keeps opts m ≡ true
  unfolding matches in_range
  recent-keeps opts req le m h = ground arith

  -- A query whose range begins at the deletion's cut-off, or later, does not notice the deletion.
  pub query-delete :
      (s : Storage V) (opts : DeleteOptions) (req : QueryRequest)
      → req.limit ≡ 0
      → opts.before ≤ req.start
      → query (delete s opts) req ≡ query s req
  query-delete s opts req h le =
      query-unlimited (delete s opts) req h
      ∙ ap (filter (matches req)) (delete-metrics s opts)
      ∙ filter-filter (matches req) (keeps opts) s.metrics (recent-keeps opts req le)
      ∙ sym (query-unlimited s req h)
