-- ===== src/Tests/BadgerTests.antt =====
-- The storage in Badger over a list of items, with a codec for the samples of one host.
use tinyobs.Base.{
  sort_strings, lookup_or, ◌+◌, ◌^◌, ℕ, ◌≡◌, ◌≤◌, ◌<◌, ◌⊎◌, ◌∙◌, arith, refl, ap, sym, true, false,
  List, [], ◌∷◌, Option, none, some, codes, Bytes, Dict, filter, lookup, delete, length, Bool-cases,
  inl, inr, str_eq, str_eq_iff, lookup-delete_none, str_le,
}
use tinyobs.Metric.{Metric, Labels, Time, counter_type}
use tinyobs.Query.Outcome.{ok}
use tinyobs.Storage.Badger
use tinyobs.Storage.Badger.Deleting.{delete-Memory}
use tinyobs.Storage.Badger.Keys.RoundTrip.{parse_key-make_key}
use tinyobs.Storage.Badger.Keys.{
  make_key, parse_key, unix_epoch, put_uint, unix_nano, series_key_string,
}
use tinyobs.Storage.Badger.Laws.{
  IsLibrary, IsDistinct, IsKeyable, IsStore, reread, reread_labels, put, place, has_prefix,
  contents, lookup-place, lookup-delete_self,
}
use tinyobs.Storage.Badger.Names.{one_by_one, query-one_by_one}
use tinyobs.Storage.Badger.Reads
use tinyobs.Storage.Badger.Scans.{query-Memory}
use tinyobs.Storage.Badger.Writing.{write-lookup, write-IsStore, value_after}
use tinyobs.Storage.Badger.{Library, Context}
use tinyobs.Storage.Memory
use tinyobs.Storage.Memory.{key_suffix}
use tinyobs.Storage.{QueryRequest, DeleteOptions}

abbrev web : Labels
web = (codes "host", codes "web") ∷ []

abbrev sample : Time → ℕ → Metric ℕ
sample t v = record {
  name = codes "hits";
  type = counter_type;
  value = v;
  label_map = some web;
  timestamp = t;
}

abbrev decode : Bytes → Option (Metric ℕ)
decode (t ∷ v ∷ []) = some (sample t v)
decode _ = none

-- A database whose keys are distinct.
abbrev Items : Type 0
Items = (m : Dict Bytes) × IsDistinct m

IsDistinct-delete : (k : Bytes) (m : Dict Bytes) → IsDistinct m → IsDistinct (delete k m)
unfolding delete
IsDistinct-delete k [] h = tt
IsDistinct-delete k ((j, w) ∷ m) h = elim (Bool-cases (str_eq j k)) [
  | inl same ↦ rw same (IsDistinct-delete k m h.1)
  | inr other ↦ rw other (lookup-delete_none j k m h.0, IsDistinct-delete k m h.1)
]

IsDistinct-place :
    (k v : Bytes) (m : Dict Bytes) → lookup k m ≡ none → IsDistinct m → IsDistinct (place k v m)
unfolding lookup
IsDistinct-place k v [] n h = (refl, tt)
IsDistinct-place k v ((j, w) ∷ m) n h = elim (Bool-cases (str_le k j)) [
  | inl low ↦ rw low (n, h)
  | inr high ↦
      let apart : str_eq k j ≡ false = ground (arith, str_eq_iff k j, str_eq_iff j k) in
      let absent : lookup k m ≡ none = ground arith in
      rw high (lookup-place k j v m absent ∙ rw apart h.0, IsDistinct-place k v m absent h.1)
]

abbrev library : Library ℕ Items
library = record {
  set = λ k v d. some (
    put k v d.0,
    IsDistinct-place k v (delete k d.0) (lookup-delete_self k d.0) (IsDistinct-delete k d.0 d.1),
  );
  remove = λ k d. some (delete k d.0, IsDistinct-delete k d.0 d.1);
  items = λ d. d.0;
  scan = λ p d. filter (λ kv. has_prefix p kv.0) d.0;
  encode = λ m. some (m.timestamp ∷ m.value ∷ []);
  decode = decode;
  hash = length;
}

abbrev IsSample : Metric ℕ → Type 0
IsSample m = m ≡ sample m.timestamp m.value

library-IsLibrary : IsLibrary IsSample library
unfolding reread reread_labels
library-IsLibrary = record {
  items_set = λ k v d h. items_of (sym h);
  items_remove = λ k d h. items_of (sym h);
  scan_prefix = λ p d. refl;
  distinct = λ d. d.1;
  decode-encode = λ m text h.
      ap (λ o. elim o [ none ↦ none | some b ↦ decode b ]) (sym h)
      ∙ ap (λ x. some (reread x)) (sym text);
}
  where
    items_of : {a b : Items} → some a ≡ some b → a.0 ≡ b.0
    items_of h = ap (λ o. elim o [ none ↦ [] | some d ↦ d.0 ]) h

abbrev lasting : Context
lasting = record { expired = false; cancelled = λ n. false; interrupted = false; commits = true }

abbrev empty : Items
empty = ([], tt)

abbrev now : Time
now = unix_epoch + 1_000_000_000

abbrev writes : List (Metric ℕ)
writes = sample now 1 ∷ sample (now + 5) 2 ∷ sample now 3 ∷ []

abbrev filled : Items
filled = (Badger.write library lasting empty writes).0

abbrev of_hits : QueryRequest
of_hits = record {
  start = now;
  end = now + 9;
  metric_names = codes "hits" ∷ [];
  labels = web;
  limit = 1;
}

abbrev older : DeleteOptions
older = record { before = now + 5; resolution = some [] }

parse_key-make_key_example :
    parse_key (make_key length (codes "hits") web now) ≡ ok (codes "hits", now)
parse_key-make_key_example =
    parse_key-make_key length (codes "hits") web now (omega arith) (omega arith, omega arith)

-- A second sample of a series at the same time takes the place of the first.
overwritten : contents library filled ≡ sample now 3 ∷ sample (now + 5) 2 ∷ []
unfolding Badger.write Badger.update Badger.write_txn make_key put_uint unix_nano delete str_eq
    str_le series_key_string key_suffix sort_strings lookup_or
overwritten = refl

write-lookup_example :
    ((d' : Items) × (Badger.write library lasting empty writes ≡ (d', true))
      × ((k : Bytes)
          → lookup k d'.0 ≡ value_after library library-IsLibrary k writes (lookup k [])))
    ⊎ (Badger.write library lasting empty writes ≡ (empty, false))
write-lookup_example = write-lookup library library-IsLibrary lasting empty writes

keyable : (t v : ℕ) → unix_epoch ≤ t → t < unix_epoch + 2 ^ 63 → IsKeyable (sample t v)
keyable t v lo hi = record { short = omega arith; unix_time = (omega arith, hi) }

write-IsStore_example : IsStore library (Badger.write library lasting empty writes).0
write-IsStore_example =
    write-IsStore library library-IsLibrary lasting empty writes
      (
        (refl, keyable now 1 (omega arith) (omega arith)),
        (
          (refl, keyable (now + 5) 2 (omega arith) (omega arith)),
          ((refl, keyable now 3 (omega arith) (omega arith)), tt),
        ),
      )
      tt

-- Both names, and one of them once more.
abbrev of_several : QueryRequest
of_several = record of_hits {
  metric_names = codes "hits" ∷ codes "errors" ∷ codes "hits" ∷ [];
  limit = 0;
}

query-one_by_one_example :
    Badger.Reads.query library lasting of_several filled
    ≡ (one_by_one library of_several 9 filled of_several.metric_names, true)
query-one_by_one_example =
    query-one_by_one library of_several library-IsLibrary lasting (λ n. refl) refl filled
      write-IsStore_example 9 refl refl (omega arith)
      (omega arith, (omega arith, (omega arith, tt)))

query-Memory_example :
    Badger.Reads.query library lasting of_hits filled
    ≡ (Memory.query (record { metrics = contents library filled; max_metrics = 9 }) of_hits, true)
query-Memory_example =
    query-Memory library library-IsLibrary lasting filled of_hits 9 refl refl (λ n. refl)
      (omega arith) write-IsStore_example

delete-Memory_example :
    ((d' : Items) × (Badger.delete library lasting filled older ≡ ok (d', true))
      × (contents library d'
          ≡ (Memory.delete
              (record { metrics = contents library filled; max_metrics = 9 })
              older).metrics))
    ⊎ ((false ≡ true)
        ⊎ ((true ≡ false) ⊎ ((k : Bytes) × (d' : Items) × (library.remove k d' ≡ none))))
      × (Badger.delete library lasting filled older ≡ ok (filled, false))
delete-Memory_example =
    delete-Memory library library-IsLibrary lasting filled older 9 (λ n. refl) write-IsStore_example
