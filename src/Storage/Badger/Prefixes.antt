-- ===== src/Storage/Badger/Prefixes.antt =====
-- pkg/storage/badger/badger.go: what the scan of a prefix leaves out.
use mathlib.Core.Path.{subst}
use mathlib.Core.List.{append_assoc}
use tinyobs.Base.{
  ◌≡◌, ◌⊎◌, ◌≤◌, refl, ap, sym, ◌∙◌, true, false, List, [], ◌∷◌, ◌++◌, some, Bytes, Dict, str_eq,
  str_eq_iff, if◌then◌else◌, ltb, length, any, filter, All, Bool-cases, inl, inr, arith,
}
use tinyobs.Metric.{Metric}
use tinyobs.Storage.Badger.Keys.{make_key, put_uint, uint16}
use tinyobs.Storage.Badger.Laws.{Holds, key_of, decoded_items, has_prefix}
use tinyobs.Storage.Badger.Reads.{matches_query, name_prefix}
use tinyobs.Storage.Badger.{Library}
use tinyobs.Storage.Memory.{matches, in_range, name_matches}
use tinyobs.Storage.{QueryRequest}

-- The two backends test a metric alike.
pub matches_query-matches :
    {V : Type 0} (m : Metric V) (req : QueryRequest) → matches_query m req ≡ matches req m
unfolding matches_query matches in_range name_matches
matches_query-matches m req = ground arith

has_prefix-append : (p s : Bytes) → has_prefix p (p ++ s) ≡ true
has_prefix-append [] s = refl
has_prefix-append (x ∷ p) s = ground (arith, has_prefix-append p s)

make_key-prefix :
    {V D : Type 0} (lib : Library V D) (m : Metric V)
    → has_prefix (name_prefix m.name) (key_of lib m) ≡ true
unfolding make_key name_prefix
make_key-prefix lib m =
    rw (← append_assoc (put_uint 2 (uint16 (length m.name))) m.name _)
      (has_prefix-append (put_uint 2 (uint16 (length m.name)) ++ m.name) _)

pub decoded_items-cons :
    {V D : Type 0} (lib : Library V D) (k v : Bytes) (items : Dict Bytes) {m : Metric V}
    → lib.decode v ≡ some m
    → decoded_items lib ((k, v) ∷ items) ≡ m ∷ decoded_items lib items
decoded_items-cons lib k v items h = rw (decoded_items, h) refl

any_one :
    (own name : Bytes) (names : List Bytes)
    → names ≡ name ∷ []
    → (if ltb 0 (length names) then any (λ n. str_eq own n) names else true) ≡ true
    → own ≡ name
any_one own name names e h =
    let hit : (if str_eq own name then true else false) ≡ true =
      subst (λ ns. (if ltb 0 (length ns) then any (λ n. str_eq own n) ns else true) ≡ true) e h in
    ground (arith, str_eq_iff own name)

matches-name :
    {V : Type 0} (req : QueryRequest) (m : Metric V) (name : Bytes)
    → req.metric_names ≡ name ∷ []
    → matches req m ≡ true
    → m.name ≡ name
unfolding matches name_matches
matches-name req m name e h = any_one m.name name req.metric_names e (ground arith)

pub at_most_one :
    (names : List Bytes) → length names ≤ 1 → (names ≡ []) ⊎ ((name : Bytes) × (names ≡ name ∷ []))
at_most_one [] h = inl refl
at_most_one (name ∷ []) h = inr (name, refl)
at_most_one (name ∷ other ∷ names) h = absurd (omega arith)

module _ {V D : Type 0} (lib : Library V D) where
  -- What a prefix scan skips does not match.
  pub prefix_filter :
      (req : QueryRequest) (name : Bytes) (items : Dict Bytes)
      → req.metric_names ≡ name ∷ []
      → All (Holds lib) items
      → filter
          (matches req)
          (decoded_items lib (filter (λ kv. has_prefix (name_prefix name) kv.0) items))
        ≡ filter (matches req) (decoded_items lib items)
  prefix_filter req name [] e h = refl
  prefix_filter req name ((k, v) ∷ items) e h =
      let m = h.0.metric in
      elim (Bool-cases (has_prefix (name_prefix name) k)) [
        | inl hit ↦ rw hit (
            ap (filter (matches req)) (decoded_items-cons lib k v _ h.0.decoded)
            ∙ ap (λ r. if matches req m then m ∷ r else r) (prefix_filter req name items e h.1)
            ∙ ap (filter (matches req)) (sym (decoded_items-cons lib k v items h.0.decoded)))
        | inr miss ↦
            let unmatched : matches req m ≡ false = elim (Bool-cases (matches req m)) [
              | inr not_matched ↦ not_matched
              | inl matched ↦
                  let same =
                    ap (λ n. has_prefix (name_prefix n) (key_of lib m))
                      (sym (matches-name req m name e matched)) in
                  let clash : true ≡ false =
                    sym (make_key-prefix lib m)
                    ∙ sym same
                    ∙ ap (has_prefix (name_prefix name)) (sym h.0.keyed)
                    ∙ miss in
                  absurd (cc)
            ] in
            rw (miss, decoded_items-cons lib k v items h.0.decoded)
              (rw unmatched (prefix_filter req name items e h.1))
      ]
