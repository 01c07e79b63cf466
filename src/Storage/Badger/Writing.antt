-- ===== src/Storage/Badger/Writing.antt =====
-- pkg/storage/badger/badger.go: what `Write` leaves in the database.
use tinyobs.Base.{
  str_eq, lookup, ℕ, suc, ◌≡◌, refl, ap, sym, ◌∙◌, ◌⊎◌, ◌%◌, ◌==◌, ◌&&◌, false, not, List, [], ◌∷◌,
  Option, none, some, Bytes, Dict, if◌then◌else◌, All, Bool-cases, Option-cases, inl, inr,
}
use tinyobs.Metric.{Metric, Labels, read_labels}
use tinyobs.Storage.Badger.Laws.{
  lookup-put, IsLibrary, IsStore, IsKeyable, Holds, key_of, reread, reread_labels, put, All-put,
}
use tinyobs.Storage.Badger.Keys.{make_key}
use tinyobs.Storage.Badger.{Library, Context, write_txn, update, write}

reread_labels-read_labels : (ls : Option Labels) → read_labels (reread_labels ls) ≡ read_labels ls
unfolding reread_labels
reread_labels-read_labels none = refl
reread_labels-read_labels (some []) = refl
reread_labels-read_labels (some (kv ∷ ls)) = refl

module _ {V D : Type 0} {IsText : Metric V → Type 0} (lib : Library V D)
    (laws : IsLibrary IsText lib) where
  Holds-reread :
      (m : Metric V) (v : Bytes)
      → lib.decode v ≡ some (reread m)
      → IsKeyable m
      → Holds lib (key_of lib m, v)
  unfolding reread
  Holds-reread m v h k = record {
    metric = reread m;
    decoded = h;
    keyed =
        ap (λ ls. make_key lib.hash m.name ls m.timestamp)
          (sym (reread_labels-read_labels m.label_map));
    keyable = record { short = k.short; unix_time = k.unix_time };
  }

  -- What the transaction writes: each metric under its key, the later over the earlier.
  data Puts : List (Metric V) → Dict Bytes → Dict Bytes → Type 0 where
    done : {items : Dict Bytes} → Puts [] items items
    next :
        {m : Metric V} {ms : List (Metric V)} {v : Bytes} {items items' : Dict Bytes}
        → lib.encode m ≡ some v
        → Puts ms (put (key_of lib m) v items) items'
        → Puts (m ∷ ms) items items'

  -- A transaction writes every metric, or it fails.
  write_txn-cases :
      (ctx : Context) (i : ℕ) (d : D) (ms : List (Metric V))
      → ((d' : D) × (write_txn lib ctx i d ms ≡ some d') × Puts ms (lib.items d) (lib.items d'))
        ⊎ (write_txn lib ctx i d ms ≡ none)
  unfolding write_txn
  write_txn-cases ctx i d [] = inl (d, refl, done)
  write_txn-cases ctx i d (m ∷ ms) = elim (Bool-cases (i % 100 == 0 && ctx.cancelled i)) [
    | inl stop ↦ rw stop (inr refl)
    | inr go ↦ elim (Option-cases (lib.encode m)) [
      | inl bad ↦ rw (go, bad) (inr refl)
      | inr (v, coded) ↦ elim (Option-cases (lib.set (key_of lib m) v d)) [
        | inl full ↦ rw (go, coded, full) (inr refl)
        | inr (d1, stored) ↦
            rw (go, coded, stored)
              (elim (write_txn-cases ctx (suc i) d1 ms) [
                | inl (d', e, p) ↦ inl (d', e, next coded (rw (← laws.items_set _ v d stored) p))
                | inr e ↦ inr e
              ])
      ]
    ]
  ]

  Puts-Holds :
      {ms : List (Metric V)} {items items' : Dict Bytes}
      → Puts ms items items'
      → All (λ m. IsText m × IsKeyable m) ms
      → All (Holds lib) items
      → All (Holds lib) items'
  Puts-Holds done a h = h
  Puts-Holds {ms = m ∷ ms} (next {v = v} e p) a h =
      Puts-Holds p a.1 (All-put _ _ v _ (Holds-reread m v (laws.decode-encode m a.0.0 e) a.0.1) h)

  -- What a list of metrics leaves at a key: the encoding of the last one that has this key.
  abbrev pub value_after : Bytes → List (Metric V) → Option Bytes → Option Bytes
  value_after k [] old = old
  value_after k (m ∷ ms) old =
      value_after k ms (if str_eq (key_of lib m) k then lib.encode m else old)

  Puts-lookup :
      {ms : List (Metric V)} {items items' : Dict Bytes}
      → Puts ms items items'
      → (k : Bytes) → lookup k items' ≡ value_after k ms (lookup k items)
  Puts-lookup done k = refl
  Puts-lookup {ms = m ∷ ms} {items = items} (next {v = v} e p) k =
      Puts-lookup p k ∙ ap (value_after k ms) (lookup-put _ k v items ∙ rw e refl)

  -- `Write` is all or nothing. Either every metric is written: each key then holds the encoding of
  -- the last metric of the list that has this key, and, if there is none, what it held; the answer
  -- is nil unless the context ended first. Or the call fails and the database is as it was.
  pub write-lookup :
      (ctx : Context) (d : D) (ms : List (Metric V))
      → ((d' : D) × (write lib ctx d ms ≡ (d', not ctx.interrupted))
          × ((k : Bytes) → lookup k (lib.items d') ≡ value_after k ms (lookup k (lib.items d))))
        ⊎ (write lib ctx d ms ≡ (d, false))
  unfolding write update
  write-lookup ctx d ms = elim (Bool-cases ctx.expired) [
    | inl late ↦ rw late (inr refl)
    | inr early ↦ elim (write_txn-cases ctx 0 d ms) [
      | inl (d', e, p) ↦
          rw (e, early)
            (elim (Bool-cases ctx.commits) [
              | inl kept ↦ rw kept (inl (d', refl, Puts-lookup p))
              | inr lost ↦ rw lost (inr refl)
            ])
      | inr e ↦ rw (e, early) (inr refl)
    ]
  ]

  -- `Write` keeps the database a store, in which every item is a metric under its own key, when
  -- the texts of the written metrics are valid UTF-8, their times are within what UnixNano can
  -- tell, and their names have at most 65517 bytes.
  pub write-IsStore :
      (ctx : Context) (d : D) (ms : List (Metric V))
      → All (λ m. IsText m × IsKeyable m) ms
      → IsStore lib d
      → IsStore lib (write lib ctx d ms).0
  unfolding write update
  write-IsStore ctx d ms a h = elim (Bool-cases ctx.expired) [
    | inl late ↦ rw late h
    | inr early ↦ elim (write_txn-cases ctx 0 d ms) [
      | inl (d', e, p) ↦
          rw (e, early)
            (elim (Bool-cases ctx.commits) [
              | inl kept ↦ rw kept (Puts-Holds p a h)
              | inr lost ↦ rw lost h
            ])
      | inr e ↦ rw (e, early) h
    ]
  ]
