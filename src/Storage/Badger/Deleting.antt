-- ===== src/Storage/Badger/Deleting.antt =====
-- pkg/storage/badger/badger.go: what `Delete` leaves in the database.
use mathlib.Core.List.{append-nil, append_assoc}
use tinyobs.Base.{
  ℕ, suc, ◌≡◌, refl, ap, sym, ◌∙◌, ◌⊎◌, ◌%◌, ◌==◌, ◌&&◌, ◌||◌, Bool, true, false, not, List, [],
  ◌∷◌, ◌++◌, Option, none, some, Bytes, Dict, if◌then◌else◌, All, filter, Bool-cases, Option-cases,
  inl, inr, arith, keys, str_eq, ltb, leb,
}
use mathlib.Core.Path.{subst}
use tinyobs.Metric.{Metric, read_labels}
use tinyobs.Query.Outcome.{ok, ◌>>=◌}
use tinyobs.Storage.Badger.Keys.RoundTrip.{parse_key-make_key}
use tinyobs.Storage.Badger.Keys.{parse_key}
use tinyobs.Storage.Badger.Laws.{IsLibrary, IsStore, Holds, decoded_items, contents}
use tinyobs.Storage.Badger.{Library, Context, collect, remove_all, remove_found, update}
use tinyobs.Storage.Badger
use tinyobs.Storage.Memory
use tinyobs.Storage.Memory.Deletes.{keeps, delete-metrics}
use tinyobs.Storage.Memory.{resolution_of}
use tinyobs.Storage.{DeleteOptions}
use tinyobs.Storage.Badger.Removals.{delete_keys, delete_keys-filter}

-- The items that the loop of `Delete` marks.
abbrev marked : {V D : Type 0} → Library V D → DeleteOptions → Bytes × Bytes → Bool
marked lib opts kv = elim (lib.decode kv.1) [ none ↦ false | some m ↦ not (keeps opts m) ]

-- What the loop does with an item, by the test for its metric.
collect-if {ℓ} :
    {A : Type ℓ} (before t : ℕ) (r : Option Bytes) (own : Bytes) (skip mark : A)
    → (if not (ltb t before)
        then skip
        else elim r [ none ↦ mark | some x ↦ if not (str_eq own x) then skip else mark ])
      ≡ (if not (leb before t || elim r [ some x ↦ not (str_eq own x) | none ↦ false ])
          then mark
          else skip)
collect-if before t none own skip mark = ground arith
collect-if before t (some x) own skip mark = ground arith

module _ {V D : Type 0} {IsText : Metric V → Type 0} (lib : Library V D)
    (laws : IsLibrary IsText lib) (ctx : Context) (calm : (n : ℕ) → ctx.cancelled n ≡ false) where
  quiet : (b : Bool) (n : ℕ) → (b && ctx.cancelled n) ≡ false
  quiet true n = calm n
  quiet false n = refl

  collect-marked :
      (opts : DeleteOptions) (n : ℕ) (found : List Bytes) (items : Dict Bytes)
      → All (Holds lib) items
      → collect lib ctx opts n found items
        ≡ ok (some (found ++ keys (filter (marked lib opts) items)))
  unfolding collect
  collect-marked opts n found [] a = ap (λ ks. ok (some ks)) (sym (append-nil found))
  collect-marked opts n found ((k, v) ∷ items) a =
      let m = a.0.metric in
      let parsed =
        ap parse_key a.0.keyed
        ∙ parse_key-make_key lib.hash m.name (read_labels m.label_map) m.timestamp a.0.keyable.short
            a.0.keyable.unix_time in
      rw (quiet (suc n % 1000 == 0) (suc n), parsed)
        (subst
          (λ dec.
            (if not (ltb m.timestamp opts.before)
              then collect lib ctx opts (suc n) found items
              else elim opts.resolution [
                | none ↦ collect lib ctx opts (suc n) (found ++ k ∷ []) items
                | some r ↦ elim dec [
                  | none ↦ ok none
                  | some x ↦
                      if not (str_eq (resolution_of x) r)
                      then collect lib ctx opts (suc n) found items
                      else collect lib ctx opts (suc n) (found ++ k ∷ []) items
                ]
              ])
            ≡ ok (
                some (
                  found
                  ++ keys (
                      if elim dec [ none ↦ false | some x ↦ not (keeps opts x) ]
                      then (k, v) ∷ filter (marked lib opts) items
                      else filter (marked lib opts) items))))
          (sym a.0.decoded)
          (collect-if opts.before m.timestamp opts.resolution (resolution_of m) _ _
            ∙ elim (Bool-cases (keeps opts m)) [
              | inl keep ↦ rw keep (collect-marked opts (suc n) found items a.1)
              | inr drop ↦ rw drop (
                  collect-marked opts (suc n) (found ++ k ∷ []) items a.1
                  ∙ ap (λ ks. ok (some ks)) (append_assoc found (k ∷ []) _))
            ]))

  removes :
      (ks : List Bytes) (d : D)
      → ((d' : D) × (remove_all lib ks d ≡ some d') × (lib.items d' ≡ delete_keys ks (lib.items d)))
        ⊎ ((k : Bytes) × (d' : D) × (lib.remove k d' ≡ none)) × (remove_all lib ks d ≡ none)
  unfolding remove_all
  removes [] d = inl (d, refl, refl)
  removes (k ∷ ks) d = elim (Option-cases (lib.remove k d)) [
    | inl refused ↦ rw (remove_all, refused) (inr ((k, d, refused), refl))
    | inr (d1, taken) ↦
        rw (remove_all, taken)
          (elim (removes ks d1) [
            | inl (d', e, i) ↦ inl (d', e, i ∙ ap (delete_keys ks) (laws.items_remove k d taken))
            | inr r ↦ inr r
          ])
  ]

decoded_items-filter :
    {V D : Type 0} (lib : Library V D) (opts : DeleteOptions) (items : Dict Bytes)
    → decoded_items lib (filter (λ kv. not (marked lib opts kv)) items)
      ≡ filter (keeps opts) (decoded_items lib items)
decoded_items-filter lib opts [] = refl
decoded_items-filter lib opts ((k, v) ∷ items) = elim (Option-cases (lib.decode v)) [
  | inl bad ↦
      rw (filter, decoded_items, bad)
        (rw (decoded_items, bad) (decoded_items-filter lib opts items))
  | inr (m, good) ↦ elim (Bool-cases (keeps opts m)) [
    | inl keep ↦
        rw (filter, decoded_items, good, keep)
          (rw (decoded_items, good) (ap (◌∷◌ m) (decoded_items-filter lib opts items)))
    | inr drop ↦ rw (filter, decoded_items, good, drop) (decoded_items-filter lib opts items)
  ]
]

module _ {V D : Type 0} {IsText : Metric V → Type 0} (lib : Library V D)
    (laws : IsLibrary IsText lib) (ctx : Context) where
  delete_run :
      (d : D) (opts : DeleteOptions) {found : Option (List Bytes)} {d' : Option D}
      → ctx.expired ≡ false
      → collect lib ctx opts 0 [] (lib.items d) ≡ ok found
      → remove_found lib d found ≡ d'
      → Badger.delete lib ctx d opts ≡ ok (update lib ctx d d')
  unfolding Badger.delete
  delete_run d opts early ran e =
      ap
        (λ b.
          if b
          then ok (d, false)
          else (collect lib ctx opts 0 [] (lib.items d) >>= λ f.
              ok (update lib ctx d (remove_found lib d f))))
        early
      ∙ ap (λ o. o >>= λ f. ok (update lib ctx d (remove_found lib d f))) ran
      ∙ ap (λ o. ok (update lib ctx d o)) e

  -- On a store, `Delete` within a context that is not cancelled during the loop never panics. It
  -- leaves just the metrics that the deletion in memory leaves of the same contents, and answers
  -- nil unless the context ended before the answer; or the context had expired at the start, or
  -- the database refused to delete some key or to commit: then it fails, and the database is as it
  -- was.
  pub delete-Memory :
      (d : D) (opts : DeleteOptions) (limit : ℕ)
      → ((n : ℕ) → ctx.cancelled n ≡ false)
      → IsStore lib d
      → ((d' : D) × (Badger.delete lib ctx d opts ≡ ok (d', not ctx.interrupted))
          × (contents lib d'
              ≡ (Memory.delete
                  (record { metrics = contents lib d; max_metrics = limit })
                  opts).metrics))
        ⊎ ((ctx.expired ≡ true)
            ⊎ ((ctx.commits ≡ false) ⊎ ((k : Bytes) × (d' : D) × (lib.remove k d' ≡ none))))
          × (Badger.delete lib ctx d opts ≡ ok (d, false))
  unfolding Badger.delete update remove_found
  delete-Memory d opts limit calm h = elim (Bool-cases ctx.expired) [
    | inl late ↦ rw late (inr (inl refl, refl))
    | inr early ↦
        let found = keys (filter (marked lib opts) (lib.items d)) in
        let ran = collect-marked lib laws ctx calm opts 0 [] (lib.items d) h in
        elim (removes lib laws ctx calm found d) [
          | inl (d', e, items) ↦
              let left =
                ap (decoded_items lib)
                  (items ∙ delete_keys-filter (marked lib opts) (lib.items d) (laws.distinct d))
                ∙ decoded_items-filter lib opts (lib.items d)
                ∙ sym (
                    delete-metrics (record { metrics = contents lib d; max_metrics = limit })
                      opts) in
              let ended = delete_run d opts early ran e in
              let answer = λ (b : Bool). ok (if b then (d', not ctx.interrupted) else (d, false)) in
              elim (Bool-cases ctx.commits) [
                | inl kept ↦ inl (d', ended ∙ ap answer kept, left)
                | inr lost ↦ inr (inr (inl lost), ended ∙ ap answer lost)
              ]
          | inr (refused, e) ↦ inr (inr (inr refused), delete_run d opts early ran e)
        ]
  ]
