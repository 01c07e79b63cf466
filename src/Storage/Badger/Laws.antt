-- ===== src/Storage/Badger/Laws.antt =====
-- pkg/storage/badger/badger.go: what it relies on of BadgerDB and of encoding/json, and the
-- metrics that a database holds.
use tinyobs.Base.{
  refl, arith, str_eq, str_eq_iff, ◌∙◌, ◌+◌, ◌^◌, ◌<◌, ◌≡◌, ◌==◌, ◌&&◌, Bool, true, false, List, [],
  ◌∷◌, Option, none, some, Bytes, Dict, str_eq, str_le, lookup, delete, if◌then◌else◌, All, filter,
  length, Bool-cases, inl, inr,
}
use tinyobs.Metric.{Metric, Labels, read_labels}
use tinyobs.Storage.Badger.Keys.RoundTrip.{IsUnixTime}
use tinyobs.Storage.Badger.Keys.{make_key}
use tinyobs.Storage.Badger.{Library}

-- A new key at its place in a list that is sorted by the keys.
abbrev pub place : Bytes → Bytes → Dict Bytes → Dict Bytes
place k v [] = (k, v) ∷ []
place k v ((j, w) ∷ m) = if str_le k j then (k, v) ∷ (j, w) ∷ m else (j, w) ∷ place k v m

-- A write at a key, new or old.
abbrev pub put : Bytes → Bytes → Dict Bytes → Dict Bytes
put k v m = place k v (delete k m)

abbrev pub has_prefix : Bytes → Bytes → Bool
has_prefix [] k = true
has_prefix (x ∷ xs) [] = false
has_prefix (x ∷ xs) (y ∷ ys) = x == y && has_prefix xs ys

-- No key stands twice.
abbrev pub IsDistinct : Dict Bytes → Type 0
IsDistinct [] = Unit
IsDistinct ((k, v) ∷ m) = (lookup k m ≡ none) × IsDistinct m

-- `labels` is marked omitempty: an empty map is read back as a nil one.
unfoldable pub reread_labels : Option Labels → Option Labels
reread_labels none = none
reread_labels (some []) = none
reread_labels (some (kv ∷ ls)) = some (kv ∷ ls)

unfoldable pub reread : {V : Type 0} → Metric V → Metric V
reread m = record m { label_map = reread_labels m.label_map }

-- `IsText` holds of the metrics whose texts are valid UTF-8, which JSON keeps.
pub record IsLibrary {V D : Type 0} (IsText : Metric V → Type 0) (lib : Library V D) : Type 0 where
  pub items_set :
      (k v : Bytes) (d : D) {d' : D}
      → lib.set k v d ≡ some d'
      → lib.items d' ≡ put k v (lib.items d)
  pub items_remove :
      (k : Bytes) (d : D) {d' : D}
      → lib.remove k d ≡ some d'
      → lib.items d' ≡ delete k (lib.items d)
  pub scan_prefix :
      (p : Bytes) (d : D) → lib.scan p d ≡ filter (λ kv. has_prefix p kv.0) (lib.items d)
  pub distinct : (d : D) → IsDistinct (lib.items d)
  pub decode-encode :
      (m : Metric V) {v : Bytes} → IsText m → lib.encode m ≡ some v → lib.decode v ≡ some (reread m)

-- A metric whose key tells its name and its time.
pub record IsKeyable {V : Type 0} (m : Metric V) : Type 0 where
  pub short : length m.name + 18 < 2 ^ 16
  pub unix_time : IsUnixTime m.timestamp

module _ {V D : Type 0} (lib : Library V D) where
  abbrev pub key_of : Metric V → Bytes
  key_of m = make_key lib.hash m.name (read_labels m.label_map) m.timestamp

  -- An item that a write of `m` leaves.
  pub record Holds (kv : Bytes × Bytes) : Type 0 where
    pub metric : Metric V
    pub decoded : lib.decode kv.1 ≡ some metric
    pub keyed : kv.0 ≡ key_of metric
    pub keyable : IsKeyable metric

  -- Every item holds a metric, under the key of that metric.
  abbrev pub IsStore : D → Type 0
  IsStore d = All Holds (lib.items d)

  -- The metrics in the database, in the order of their keys.
  abbrev pub decoded_items : Dict Bytes → List (Metric V)
  decoded_items [] = []
  decoded_items ((k, v) ∷ rest) = elim (lib.decode v) [
    | none ↦ decoded_items rest
    | some m ↦ m ∷ decoded_items rest
  ]

  abbrev pub contents : D → List (Metric V)
  contents d = decoded_items (lib.items d)

pub All-delete :
    (P : Bytes × Bytes → Type 0) (k : Bytes) (m : Dict Bytes) → All P m → All P (delete k m)
unfolding delete
All-delete P k [] a = tt
All-delete P k ((j, w) ∷ m) a = elim (Bool-cases (str_eq j k)) [
  | inl same ↦ rw same (All-delete P k m a.1)
  | inr other ↦ rw other (a.0, All-delete P k m a.1)
]

All-place :
    (P : Bytes × Bytes → Type 0) (k v : Bytes) (m : Dict Bytes)
    → P (k, v)
    → All P m
    → All P (place k v m)
All-place P k v [] h a = (h, tt)
All-place P k v ((j, w) ∷ m) h a = elim (Bool-cases (str_le k j)) [
  | inl low ↦ rw low (h, a)
  | inr high ↦ rw high (a.0, All-place P k v m h a.1)
]

pub All-put :
    (P : Bytes × Bytes → Type 0) (k v : Bytes) (m : Dict Bytes)
    → P (k, v)
    → All P m
    → All P (put k v m)
All-put P k v m h a = All-place P k v (delete k m) h (All-delete P k m a)

lookup-delete :
    (k j : Bytes) (m : Dict Bytes)
    → lookup j (delete k m) ≡ (if str_eq k j then none else lookup j m)
unfolding lookup delete
lookup-delete k j [] = ground arith
lookup-delete k j ((i, w) ∷ m) =
    ground (arith, str_eq_iff k j, str_eq_iff i k, str_eq_iff i j, lookup-delete k j m)

pub lookup-place :
    (k j v : Bytes) (m : Dict Bytes)
    → lookup k m ≡ none
    → lookup j (place k v m) ≡ (if str_eq k j then some v else lookup j m)
unfolding lookup
lookup-place k j v [] h = refl
lookup-place k j v ((i, w) ∷ m) h =
    ground (arith, str_eq_iff k j, str_eq_iff i k, str_eq_iff i j, lookup-place k j v m)

pub lookup-delete_self : (k : Bytes) (m : Dict Bytes) → lookup k (delete k m) ≡ none
lookup-delete_self k m = rw (lookup-delete, (str_eq_iff k k).1 refl) refl

pub lookup-put :
    (k j v : Bytes) (m : Dict Bytes)
    → lookup j (put k v m) ≡ (if str_eq k j then some v else lookup j m)
lookup-put k j v m =
    lookup-place k j v (delete k m) (lookup-delete_self k m) ∙ ground (arith, lookup-delete k j m)
