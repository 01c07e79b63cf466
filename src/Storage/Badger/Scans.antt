-- ===== src/Storage/Badger/Scans.antt =====
-- pkg/storage/badger/badger.go: what `Query` returns.
use tinyobs.Base.{
  ℕ, suc, ◌%◌, ◌≡◌, ◌≤◌, refl, ap, sym, ◌∙◌, ◌==◌, Bool, true, false, not, ◌&&◌, ◌||◌, List, [],
  ◌∷◌, ◌++◌, some, Bytes, Dict, if◌then◌else◌, ltb, leb, length, filter, All, Bool-cases, inl, inr,
  arith,
}
use tinyobs.Metric.{Metric}
use tinyobs.Storage.Badger.Laws.{IsLibrary, IsStore, Holds, decoded_items, contents, has_prefix}
use tinyobs.Storage.Badger.Reads.{Scan, name_prefix, visit, scan_items, scan_names, run_scan, query}
use tinyobs.Storage.Badger.{Library, Context}
use tinyobs.Storage.Memory
use tinyobs.Storage.Memory.Queries.{at_most, query-filter}
use tinyobs.Storage.Memory.{query_loop, matches, in_range, name_matches, labels_match}
use tinyobs.Storage.{QueryRequest}
use tinyobs.Storage.Badger.Prefixes.{
  matches_query-matches, decoded_items-cons, at_most_one, prefix_filter,
}

module _ {V D : Type 0} (lib : Library V D) (ctx : Context) (req : QueryRequest)
    (calm : (n : ℕ) → ctx.cancelled n ≡ false) where
  quiet : (b : Bool) (n : ℕ) → (b && ctx.cancelled n) ≡ false
  quiet true n = calm n
  quiet false n = refl

  visit-matches :
      (s : Scan V) (v : Bytes) {m : Metric V}
      → lib.decode v ≡ some m
      → visit lib ctx req s v
        ≡ (if matches req m then record s { results = s.results ++ m ∷ [] } else s)
  unfolding visit
  visit-matches s v {m} h = rw (visit, h) (rw (matches_query-matches m req) refl)

  -- A scan that meets no error goes on as the loop of the backend in memory does.
  pub scan_items-query_loop :
      (n : ℕ) (out : List (Metric V)) (items : Dict Bytes)
      → (ltb 0 req.limit && leb req.limit (length out)) ≡ false
      → All (Holds lib) items
      → let s =
          scan_items lib ctx req (record { iter_count = n; results = out; failed = false }) items in
        (s.results ≡ query_loop req out (decoded_items lib items)) × (s.failed ≡ false)
  unfolding scan_items query_loop
  scan_items-query_loop n out [] room h = (refl, refl)
  scan_items-query_loop n out ((k, v) ∷ items) room h =
      let m = h.0.metric in
      rw
        (
          quiet (suc n % 1000 == 0) (suc n),
          visit-matches _ v h.0.decoded,
          decoded_items-cons lib k v items h.0.decoded,
        )
        (elim (Bool-cases (matches req m)) [
          | inl hit ↦
              elim (Bool-cases (ltb 0 req.limit && leb req.limit (length (out ++ m ∷ [])))) [
                | inl full ↦ rw (hit, full) (refl, refl)
                | inr more ↦
                    rw (hit, more) (scan_items-query_loop (suc n) (out ++ m ∷ []) items more h.1)
              ]
          | inr miss ↦ rw (miss, room) (scan_items-query_loop (suc n) out items room h.1)
        ])

  empty_room : (ltb 0 req.limit && leb req.limit (length {A = Metric V} [])) ≡ false
  empty_room = ground arith

module _ {V D : Type 0} {IsText : Metric V → Type 0} (lib : Library V D)
    (laws : IsLibrary IsText lib) where
  start : Scan V
  start = record { iter_count = 0; results = []; failed = false }

  -- A scan of some of the items that loses no match answers as the backend in memory.
  query_scanned :
      (ctx : Context) (d : D) (req : QueryRequest) (limit : ℕ) (scanned : Dict Bytes)
      → ctx.expired ≡ false
      → ctx.interrupted ≡ false
      → ((n : ℕ) → ctx.cancelled n ≡ false)
      → All (Holds lib) scanned
      → run_scan lib ctx req d ≡ scan_items lib ctx req start scanned
      → filter (matches req) (decoded_items lib scanned) ≡ filter (matches req) (contents lib d)
      → query lib ctx req d
        ≡ (Memory.query (record { metrics = contents lib d; max_metrics = limit }) req, true)
  unfolding query Memory.query start
  query_scanned ctx d req limit scanned early stays calm h ran same =
      let (results, fine) =
        scan_items-query_loop lib ctx req calm 0 [] scanned (empty_room lib ctx req calm) h in
      let in_memory =
        λ (ms : List (Metric V)). query-filter (record { metrics = ms; max_metrics = limit }) req in
      ap
        (λ (b : Bool × Bool).
          if b.0 || b.1
          then ([], false)
          else ((run_scan lib ctx req d).results, not (run_scan lib ctx req d).failed))
        (ap (λ b. (b, ctx.interrupted)) early ∙ ap (λ b. (false, b)) stays)
      ∙ ap (λ (s : Scan V). (s.results, not s.failed)) ran
      ∙ ap (λ r. (r, not (scan_items lib ctx req start scanned).failed))
          (results
            ∙ in_memory (decoded_items lib scanned)
            ∙ ap (at_most req.limit) same
            ∙ sym (in_memory (contents lib d)))
      ∙ ap
          (λ f.
            (Memory.query (record { metrics = contents lib d; max_metrics = limit }) req, not f))
          fine

  if_same {ℓ} : {A : Type ℓ} (b : Bool) (x : A) → (if b then x else x) ≡ x
  if_same true x = refl
  if_same false x = refl

  pub All-filter_kept :
      (p : Bytes × Bytes → Bool) (items : Dict Bytes)
      → All (Holds lib) items
      → All (Holds lib) (filter p items)
  All-filter_kept p [] h = tt
  All-filter_kept p (x ∷ items) h = elim (Bool-cases (p x)) [
    | inl keep ↦ rw keep (h.0, All-filter_kept p items h.1)
    | inr drop ↦ rw drop (All-filter_kept p items h.1)
  ]

  -- Within a context that lasts, a query of a store for at most one name gives what the backend in
  -- memory gives on the same contents: to scan the prefix of the name leaves no match out.
  pub query-Memory :
      (ctx : Context) (d : D) (req : QueryRequest) (limit : ℕ)
      → ctx.expired ≡ false
      → ctx.interrupted ≡ false
      → ((n : ℕ) → ctx.cancelled n ≡ false)
      → length req.metric_names ≤ 1
      → IsStore lib d
      → query lib ctx req d
        ≡ (Memory.query (record { metrics = contents lib d; max_metrics = limit }) req, true)
  unfolding run_scan scan_names start
  query-Memory ctx d req limit early stays calm few h = elim (at_most_one req.metric_names few) [
    | inl none_given ↦
        query_scanned ctx d req limit (lib.items d) early stays calm h
          (ap (scan_for ctx d req) none_given) refl
    | inr (name, e) ↦
        let part = filter (λ kv. has_prefix (name_prefix name) kv.0) (lib.items d) in
        query_scanned ctx d req limit part early stays calm (All-filter_kept _ (lib.items d) h)
          (ap (scan_for ctx d req) e
            ∙ if_same _ _
            ∙ ap (scan_items lib ctx req start) (laws.scan_prefix (name_prefix name) d))
          (prefix_filter lib req name (lib.items d) e h)
  ]
    where
      scan_for : Context → D → QueryRequest → List Bytes → Scan V
      scan_for ctx d req names =
          if ltb 0 (length names)
          then scan_names lib ctx req d start names
          else scan_items lib ctx req start (lib.items d)
