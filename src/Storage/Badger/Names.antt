-- ===== src/Storage/Badger/Names.antt =====
-- pkg/storage/badger/badger.go: a query for several names scans one prefix for each.
use mathlib.Core.Path.{subst}
use mathlib.Core.List.{append-nil, append_assoc}
use tinyobs.Base.{
  ℕ, suc, ◌^◌, ◌<◌, ◌≡◌, refl, ap, sym, ◌∙◌, true, false, ◌&&◌, ◌||◌, List, [], ◌∷◌, ◌++◌, Bytes,
  Dict, if◌then◌else◌, ltb, leb, length, filter, any, All, if_elim, Bool-cases, inl, inr, str_eq,
  str_eq_iff, arith,
}
use tinyobs.Metric.{Metric}
use tinyobs.Storage.Badger.Keys.{make_key, put_uint, uint16}
use tinyobs.Storage.Badger.Laws.{
  IsLibrary, IsStore, Holds, key_of, decoded_items, contents, has_prefix,
}
use tinyobs.Storage.Badger.Prefixes.{decoded_items-cons, prefix_filter}
use tinyobs.Storage.Badger.Reads.{
  Scan, name_prefix, scan_items, scan_names, run_scan, query, is_full,
}
use tinyobs.Storage.Badger.Scans.{scan_items-query_loop, All-filter_kept}
use tinyobs.Storage.Badger.{Library, Context}
use tinyobs.Storage.Memory
use tinyobs.Storage.Memory.Queries.{query_loop-unlimited, query-unlimited}
use tinyobs.Storage.Memory.{query_loop, matches, in_range, name_matches, labels_match}
use tinyobs.Storage.{QueryRequest}

-- Two names of one length, one of which begins a text that the other begins.
same_start : (a b r : Bytes) → length a ≡ length b → has_prefix a (b ++ r) ≡ true → a ≡ b
same_start [] [] r e h = refl
same_start [] (y ∷ b) r e h = absurd (omega arith)
same_start (x ∷ a) [] r e h = absurd (omega arith)
same_start (x ∷ a) (y ∷ b) r e h = ground (arith, same_start a b r)

two_bytes :
    (a b : ℕ) (p q : Bytes)
    → a < 2 ^ 16
    → b < 2 ^ 16
    → has_prefix (put_uint 2 a ++ p) (put_uint 2 b ++ q) ≡ true
    → (a ≡ b) × (has_prefix p q ≡ true)
unfolding put_uint
two_bytes a b p q ha hb h = (ground (arith, ha, hb), ground arith)

-- The prefix of a name begins just the keys of the metrics with this name.
prefix-name :
    {V D : Type 0} (lib : Library V D) (name : Bytes) (m : Metric V)
    → length name < 2 ^ 16
    → length m.name < 2 ^ 16
    → has_prefix (name_prefix name) (key_of lib m) ≡ true
    → name ≡ m.name
unfolding name_prefix make_key
prefix-name lib name m ha hb h =
    let (same, rest) =
      two_bytes (uint16 (length name)) (uint16 (length m.name)) name _ (omega arith) (omega arith)
        h in
    same_start name m.name _ (omega (arith, ha, hb, same)) rest

-- The request for one of the names.
abbrev pub for_name : QueryRequest → Bytes → QueryRequest
for_name req name = record req { metric_names = name ∷ [] }

-- `name` is one of the names of the request.
abbrev IsAsked : QueryRequest → Bytes → Type 0
IsAsked req name = any (λ n. str_eq name n) req.metric_names ≡ true

any_asked :
    (own name : Bytes) (names : List Bytes)
    → name ≡ own
    → any (λ n. str_eq name n) names ≡ true
    → (if ltb 0 (length names) then any (λ n. str_eq own n) names else true) ≡ true
any_asked own name [] e h = refl
any_asked own name (n ∷ names) e h =
    let given : ltb 0 (suc (length names)) ≡ true = ground arith in
    subst
      (λ o. (if ltb 0 (suc (length names)) then any (λ x. str_eq o x) (n ∷ names) else true) ≡ true)
      e (rw given h)

-- Each name of a list is in it.
asked_each :
    (names all : List Bytes)
    → ((n : Bytes) → any (λ x. str_eq n x) names ≡ true → any (λ x. str_eq n x) all ≡ true)
    → All (λ n. length n < 2 ^ 16) names
    → All (λ n. (length n < 2 ^ 16) × (any (λ x. str_eq n x) all ≡ true)) names
asked_each [] all there h = tt
asked_each (name ∷ names) all there h = (
  (h.0, there name (ground (arith, str_eq_iff name name))),
  asked_each names all
      (λ n found. there n (if_elim (λ b. b ≡ true) (str_eq n name) (λ _. refl) (λ _. found))) h.1,
)

-- Under its own name, a metric passes the filters of all names just when it passes those of one.
matches-for_name :
    {V : Type 0} (req : QueryRequest) (name : Bytes) (m : Metric V)
    → IsAsked req name
    → name ≡ m.name
    → matches req m ≡ matches (for_name req name) m
unfolding matches name_matches in_range
matches-for_name req name m asked e =
    let several = any_asked m.name name req.metric_names e asked in
    let one : (if str_eq m.name name then true else false) ≡ true =
      ground (arith, str_eq_iff m.name name, e) in
    rw (several, one) refl

module _ {V D : Type 0} (lib : Library V D) (req : QueryRequest) where
  filter-for_name :
      (name : Bytes) (items : Dict Bytes)
      → length name < 2 ^ 16
      → IsAsked req name
      → All (Holds lib) items
      → filter
          (matches req)
          (decoded_items lib (filter (λ kv. has_prefix (name_prefix name) kv.0) items))
        ≡ filter
            (matches (for_name req name))
            (decoded_items lib (filter (λ kv. has_prefix (name_prefix name) kv.0) items))
  filter-for_name name [] short asked h = refl
  filter-for_name name ((k, v) ∷ items) short asked h =
      let m = h.0.metric in
      elim (Bool-cases (has_prefix (name_prefix name) k)) [
        | inl hit ↦
            let own =
              prefix-name lib name m short (omega (arith, h.0.keyable.short))
                (ap (has_prefix (name_prefix name)) (sym h.0.keyed) ∙ hit) in
            rw
              (
                hit,
                decoded_items-cons lib k v (filter (λ kv. has_prefix (name_prefix name) kv.0) items)
                    h.0.decoded,
                matches-for_name req name m asked own,
              )
              (ap (λ r. if matches (for_name req name) m then m ∷ r else r)
                (filter-for_name name items short asked h.1))
        | inr miss ↦ rw miss (filter-for_name name items short asked h.1)
      ]

  -- What the backend in memory gives for each name, one behind the other.
  abbrev pub one_by_one : ℕ → D → List Bytes → List (Metric V)
  one_by_one limit d [] = []
  one_by_one limit d (name ∷ names) =
      Memory.query (record { metrics = contents lib d; max_metrics = limit }) (for_name req name)
      ++ one_by_one limit d names

  module _ {IsText : Metric V → Type 0} (laws : IsLibrary IsText lib) (ctx : Context)
      (calm : (n : ℕ) → ctx.cancelled n ≡ false) (all : req.limit ≡ 0) (d : D)
      (store : IsStore lib d) (limit : ℕ) where
    -- The scan for one name.
    scan_one :
        (s : Scan V) (name : Bytes)
        → s.failed ≡ false
        → length name < 2 ^ 16
        → IsAsked req name
        → (let s' = scan_items lib ctx req s (lib.scan (name_prefix name) d) in
            (s'.results
              ≡ s.results
                ++ Memory.query
                    (record { metrics = contents lib d; max_metrics = limit })
                    (for_name req name))
            × (s'.failed ≡ false))
    scan_one s name fine short asked =
        let prefix = name_prefix name in
        let part = filter (λ kv. has_prefix prefix kv.0) (lib.items d) in
        let begun : Scan V = record {
          iter_count = s.iter_count;
          results = s.results;
          failed = false;
        } in
        let room : (ltb 0 req.limit && leb req.limit (length s.results)) ≡ false =
          ground (arith, all) in
        let same =
          ap (λ x. scan_items lib ctx req x (lib.scan prefix d))
            (ap (λ f. record s { failed = f }) fine)
          ∙ ap (scan_items lib ctx req begun) (laws.scan_prefix prefix d) in
        let (found, went) =
          scan_items-query_loop lib ctx req calm s.iter_count s.results part room
            (All-filter_kept lib laws _ (lib.items d) store) in
        (
          ap (λ (x : Scan V). x.results) same
              ∙ found
              ∙ query_loop-unlimited req s.results (decoded_items lib part) all
              ∙ ap (◌++◌ s.results) (
                  filter-for_name name (lib.items d) short asked store
                  ∙ prefix_filter lib (for_name req name) name (lib.items d) refl store
                  ∙ sym (
                      query-unlimited (record { metrics = contents lib d; max_metrics = limit })
                        (for_name req name) all)),
          ap (λ (x : Scan V). x.failed) same ∙ went,
        )

    scan_names-one_by_one :
        (s : Scan V) (names : List Bytes)
        → s.failed ≡ false
        → All (λ n. (length n < 2 ^ 16) × IsAsked req n) names
        → (let s' = scan_names lib ctx req d s names in
            (s'.results ≡ s.results ++ one_by_one limit d names) × (s'.failed ≡ false))
    unfolding scan_names
    scan_names-one_by_one s [] fine h = (sym (append-nil s.results), fine)
    scan_names-one_by_one s (name ∷ names) fine h =
        let s' = scan_items lib ctx req s (lib.scan (name_prefix name) d) in
        let (found, went) = scan_one s name fine h.0.0 h.0.1 in
        let (rest, ended) = scan_names-one_by_one s' names went h.1 in
        if_elim
          (λ (x : Scan V).
            (x.results ≡ s.results ++ one_by_one limit d (name ∷ names)) × (x.failed ≡ false))
          (s'.failed || is_full lib ctx req s') (λ stop. absurd (ground (arith, went, all)))
          (λ _. (
            rest ∙ ap (λ xs. xs ++ one_by_one limit d names) found ∙ append_assoc s.results _ _,
            ended,
          ))

    -- Within a context that lasts, an unlimited query of a store for some names gives what the backend
    -- in memory gives on the same contents for the first name alone, then what it gives for the
    -- second, and so on: a name that stands twice gives its metrics twice. The names are not longer
    -- than a key can tell.
    pub query-one_by_one :
        ctx.expired ≡ false
        → ctx.interrupted ≡ false
        → 0 < length req.metric_names
        → All (λ n. length n < 2 ^ 16) req.metric_names
        → query lib ctx req d ≡ (one_by_one limit d req.metric_names, true)
    unfolding query run_scan
    query-one_by_one early stays some_given short =
        let given : ltb 0 (length req.metric_names) ≡ true = ground (arith, some_given) in
        let (found, ended) =
          scan_names-one_by_one (record { iter_count = 0; results = []; failed = false })
            req.metric_names refl (asked_each req.metric_names req.metric_names (λ n h. h) short) in
        rw (given, found, ended, early, stays) refl
