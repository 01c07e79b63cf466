-- ===== src/Storage/Badger/Removals.antt =====
-- pkg/storage/badger/badger.go: keys that `Delete` removes one after the other.
use tinyobs.Base.{
  ◌≡◌, refl, ap, ◌∙◌, Bool, false, not, List, [], ◌∷◌, none, Bytes, Dict, All, filter, Bool-cases,
  inl, inr, arith, lookup, delete, keys, str_eq, str_eq_iff,
}
use tinyobs.Storage.Badger.Laws.{IsDistinct, All-delete}

delete_missing : (k : Bytes) (m : Dict Bytes) → lookup k m ≡ none → delete k m ≡ m
unfolding lookup delete
delete_missing k [] h = refl
delete_missing k ((j, v) ∷ m) h = ground (arith, delete_missing k m)

-- The items that are left once the keys of a list are deleted, one after the other.
abbrev pub delete_keys : List Bytes → Dict Bytes → Dict Bytes
delete_keys [] m = m
delete_keys (k ∷ ks) m = delete_keys ks (delete k m)

delete_head : (k v : Bytes) (m : Dict Bytes) → lookup k m ≡ none → delete k ((k, v) ∷ m) ≡ m
unfolding delete
delete_head k v m h = rw ((str_eq_iff k k).1 refl) (delete_missing k m h)

delete_skip :
    (k j v : Bytes) (m : Dict Bytes)
    → str_eq k j ≡ false
    → delete j ((k, v) ∷ m) ≡ (k, v) ∷ delete j m
unfolding delete
delete_skip k j v m h = rw h refl

lookup_tail :
    (k j w : Bytes) (m : Dict Bytes)
    → lookup k ((j, w) ∷ m) ≡ none
    → (str_eq k j ≡ false) × (lookup k m ≡ none)
unfolding lookup
lookup_tail k j w m h = ground (arith, str_eq_iff j k, str_eq_iff k j)

delete_keys_other :
    (p : Bytes × Bytes → Bool) (k v : Bytes) (xs m : Dict Bytes)
    → lookup k xs ≡ none
    → delete_keys (keys (filter p xs)) ((k, v) ∷ m) ≡ (k, v) ∷ delete_keys (keys (filter p xs)) m
delete_keys_other p k v [] m h = refl
delete_keys_other p k v ((j, w) ∷ xs) m h =
    let (other, rest) = lookup_tail k j w xs h in
    elim (Bool-cases (p (j, w))) [
      | inl hit ↦ rw hit (
          ap (delete_keys (keys (filter p xs))) (delete_skip k j v m other)
          ∙ delete_keys_other p k v xs (delete j m) rest)
      | inr miss ↦ rw miss (delete_keys_other p k v xs m rest)
    ]

-- To delete the keys of the items that pass a test leaves the items that do not.
pub delete_keys-filter :
    (p : Bytes × Bytes → Bool) (xs : Dict Bytes)
    → IsDistinct xs
    → delete_keys (keys (filter p xs)) xs ≡ filter (λ x. not (p x)) xs
delete_keys-filter p [] h = refl
delete_keys-filter p ((k, v) ∷ xs) h = elim (Bool-cases (p (k, v))) [
  | inl hit ↦
      rw hit (
        ap (delete_keys (keys (filter p xs))) (delete_head k v xs h.0)
        ∙ delete_keys-filter p xs h.1)
  | inr miss ↦
      rw miss (delete_keys_other p k v xs xs h.0 ∙ ap (◌∷◌ (k, v)) (delete_keys-filter p xs h.1))
]

pub All-delete_keys :
    (P : Bytes × Bytes → Type 0) (ks : List Bytes) (m : Dict Bytes)
    → All P m
    → All P (delete_keys ks m)
All-delete_keys P [] m h = h
All-delete_keys P (k ∷ ks) m h = All-delete_keys P ks (delete k m) (All-delete P k m h)
