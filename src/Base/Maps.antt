-- ===== src/Base/Maps.antt =====
-- Go maps with string keys, as association lists: the order of the list is the order in which a
-- `range` loop meets the keys. `insert` keeps a key where it stands.
use mathlib.Core.Path.{◌≡◌, refl}
use mathlib.Core.Logic.{inl, inr}
use mathlib.Core.Option.{Option, none, some}
use mathlib.Core.List.{List, [], ◌∷◌}
use Prim.Native.Nat.{ℕ, suc, ◌+◌, ◌≤◌}
use native.Mathlib.Omega.{arith}
use tinyobs.Base.Tests.{if◌then◌else◌, Bool-cases}
use tinyobs.Base.Lists.{length}
use tinyobs.Base.Text.{Bytes, str_eq, str_eq_iff}

abbrev pub Dict : Type 0 → Type 0
Dict V = List (Bytes × V)

module _ {V : Type 0} where
  -- `v, ok := m[k]`
  unfoldable pub lookup : Bytes → Dict V → Option V
  lookup k [] = none
  lookup k ((j, v) ∷ m) = if str_eq j k then some v else lookup k m

  -- `m[k] = v`
  unfoldable pub insert : Bytes → V → Dict V → Dict V
  insert k v [] = (k, v) ∷ []
  insert k v ((j, w) ∷ m) = if str_eq j k then (j, v) ∷ m else (j, w) ∷ insert k v m

  -- `delete(m, k)`
  unfoldable pub delete : Bytes → Dict V → Dict V
  delete k [] = []
  delete k ((j, v) ∷ m) = let rest = delete k m in if str_eq j k then rest else (j, v) ∷ rest

  -- `m[k]`, with the zero value of a missing key.
  unfoldable pub lookup_or : Bytes → V → Dict V → V
  lookup_or k d [] = d
  lookup_or k d ((j, v) ∷ m) = if str_eq j k then v else lookup_or k d m

  pub lookup-insert :
      (k j : Bytes) (v : V) (m : Dict V)
      → lookup j (insert k v m) ≡ (if str_eq k j then some v else lookup j m)
  unfolding lookup insert
  lookup-insert k j v [] = refl
  lookup-insert k j v ((i, w) ∷ m) =
      ground (arith, str_eq_iff k j, str_eq_iff i k, str_eq_iff i j, lookup-insert k j v m)

-- The keys of a map.
abbrev pub keys : {V : Type 0} → Dict V → List Bytes
keys [] = []
keys ((k, v) ∷ m) = k ∷ keys m

module _ {V : Type 0} where
  pub length-delete : (k : Bytes) (m : Dict V) → length (delete k m) ≤ length m
  unfolding delete
  length-delete k [] = omega arith
  length-delete k ((j, v) ∷ m) = ground (arith, length-delete k m)

  pub lookup-delete_none :
      (k j : Bytes) (m : Dict V) → lookup k m ≡ none → lookup k (delete j m) ≡ none
  unfolding lookup delete
  lookup-delete_none k j [] h = refl
  lookup-delete_none k j ((i, v) ∷ m) h = ground (arith, lookup-delete_none k j m)

  pub length-insert : (k : Bytes) (v : V) (m : Dict V) → length (insert k v m) ≤ suc (length m)
  unfolding insert
  length-insert k v [] = omega arith
  length-insert k v ((j, w) ∷ m) = ground (arith, length-insert k v m)

  -- To write at a key that is there adds none.
  pub length-insert_old :
      (k : Bytes) (v : V) (m : Dict V) {w : V}
      → lookup k m ≡ some w
      → length (insert k v m) ≡ length m
  unfolding insert lookup
  length-insert_old k v [] h = cc
  length-insert_old k v ((j, u) ∷ m) {w} h = ground (arith, length-insert_old k v m {w = w})

-- The sum of a number over the values of a map.
abbrev pub total : {V : Type 0} → (V → ℕ) → Dict V → ℕ
total f [] = 0
total f ((k, v) ∷ m) = f v + total f m

abbrev pub count_of : {V : Type 0} → (V → ℕ) → Option V → ℕ
count_of f none = 0
count_of f (some v) = f v

module _ {V : Type 0} (f : V → ℕ) where
  -- A write replaces what its key held.
  pub total-insert :
      (k : Bytes) (v : V) (m : Dict V)
      → total f (insert k v m) + count_of f (lookup k m) ≡ total f m + f v
  unfolding insert lookup
  total-insert k v [] = omega arith
  total-insert k v ((j, w) ∷ m) = elim (Bool-cases (str_eq j k)) [
    | inl same ↦ rw same (omega arith)
    | inr other ↦ rw other (omega (arith, total-insert k v m))
  ]

  pub count_of-lookup : (k : Bytes) (m : Dict V) → count_of f (lookup k m) ≤ total f m
  unfolding lookup
  count_of-lookup k [] = omega arith
  count_of-lookup k ((j, w) ∷ m) = elim (Bool-cases (str_eq j k)) [
    | inl same ↦ rw same (omega arith)
    | inr other ↦ rw other (omega (arith, count_of-lookup k m))
  ]

pub lookup_or-insert :
    {V : Type 0} (k j : Bytes) (d v : V) (m : Dict V)
    → lookup_or j d (insert k v m) ≡ (if str_eq k j then v else lookup_or j d m)
unfolding lookup_or insert
lookup_or-insert k j d v [] = refl
lookup_or-insert k j d v ((i, w) ∷ m) =
    ground (arith, str_eq_iff k j, str_eq_iff i k, str_eq_iff i j, lookup_or-insert k j d v m)

pub lookup-insert_self :
    {V : Type 0} (k : Bytes) (v : V) (m : Dict V) → lookup k (insert k v m) ≡ some v
lookup-insert_self k v m = rw (lookup-insert, (str_eq_iff k k).1 refl)
