-- ===== src/Storage/Badger/Keys/RoundTrip.antt =====
-- pkg/storage/badger/badger.go: a key that is made and parsed.
use tinyobs.Base.{
  ℕ, zero, suc, ◌+◌, ◌-◌, ◌%◌, ◌^◌, ◌≤◌, ◌<◌, ◌≡◌, refl, ap, ◌∙◌, [], ◌++◌, Bytes, length,
  length-append, drop-append, take-append, ◌&&◌, take, ltb, leb, arith, true, false,
}
use mathlib.Core.List.{append-nil, append_assoc}
use tinyobs.Metric.{Time, Labels}
use tinyobs.Query.Outcome.{ok}
use tinyobs.Query.Reader.{slice}
use tinyobs.Storage.Badger.Keys.{
  put_uint, read_uint, unix_epoch, unix_nano, from_unix_nano, uint16, make_key, parse_key,
}

read_put2 : (v : ℕ) → read_uint 0 (put_uint 2 v) ≡ v % 2 ^ 16
unfolding read_uint put_uint
read_put2 v = omega arith

read_put8 : (v : ℕ) → read_uint 0 (put_uint 8 v) ≡ v % 2 ^ 64
unfolding read_uint put_uint
read_put8 v = omega arith

-- The times that UnixNano can tell: 1677 to 2262.
abbrev pub IsUnixTime : Time → Type 0
IsUnixTime t = (unix_epoch ≤ t + 2 ^ 63) × (t < unix_epoch + 2 ^ 63)

from_unix_nano-unix_nano : (t : Time) → IsUnixTime t → from_unix_nano (unix_nano t) ≡ t
unfolding from_unix_nano unix_nano
from_unix_nano-unix_nano t h = ground (arith, h)

length-put_uint : (n v : ℕ) → length (put_uint n v) ≡ n
unfolding put_uint
length-put_uint zero v = refl
length-put_uint (suc n) v = ap suc (length-put_uint n v)

-- A part of a text is what stands between its ends.
pub slice-append :
    (lo hi : ℕ) (xs ys zs : Bytes)
    → length xs ≡ lo
    → lo + length ys ≡ hi
    → slice (xs ++ (ys ++ zs)) lo hi ≡ ok ys
unfolding slice
slice-append lo hi xs ys zs hl hh =
    let long = length-append xs (ys ++ zs) ∙ ap (◌+◌ (length xs)) (length-append ys zs) in
    rw (long, inside)
      (ap ok (
        ap (take (hi - lo)) (drop-append lo xs (ys ++ zs) hl)
        ∙ take-append (hi - lo) ys zs (omega arith)))
  where
    inside : (leb lo hi && leb hi (length xs + (length ys + length zs))) ≡ true
    inside = ground arith

-- The four parts of a key, where the name leaves the offsets below 2^16.
module _ (size name hashed stamped : Bytes) (two : length size ≡ 2) (eight : length hashed ≡ 8)
    (eight' : length stamped ≡ 8) (short : length name + 18 < 2 ^ 16) where
  length_parts : length (size ++ (name ++ (hashed ++ stamped))) ≡ length name + 18
  length_parts =
      rw
        (
          length-append size _,
          length-append name _,
          length-append hashed stamped,
          two,
          eight,
          eight',
        )
        (omega arith)

  size_part : take 2 (size ++ (name ++ (hashed ++ stamped))) ≡ size
  size_part = take-append 2 size _ two

  name_slice : slice (size ++ (name ++ (hashed ++ stamped))) 2 (uint16 (2 + length name)) ≡ ok name
  name_slice = slice-append 2 _ size name (hashed ++ stamped) two (omega (arith, short))

  regroup : size ++ (name ++ (hashed ++ stamped)) ≡ (size ++ (name ++ hashed)) ++ (stamped ++ [])
  regroup = simp (append-nil, append_assoc)

  stamp_slice :
      slice
        (size ++ (name ++ (hashed ++ stamped)))
        (uint16 (2 + length name + 8))
        (uint16 (2 + length name + 16))
      ≡ ok stamped
  stamp_slice =
      ap (λ k. slice k (uint16 (2 + length name + 8)) (uint16 (2 + length name + 16))) regroup
      ∙ slice-append _ _ (size ++ (name ++ hashed)) stamped []
          (rw (length-append size _, length-append name hashed, two, eight) (omega (arith, short)))
          (omega arith)

  long_enough : ltb (length (size ++ (name ++ (hashed ++ stamped)))) 18 ≡ false
  long_enough = ground (arith, length_parts)

  parse_key_parts :
      read_uint 0 size ≡ length name
      → parse_key (size ++ (name ++ (hashed ++ stamped)))
        ≡ ok (name, from_unix_nano (read_uint 0 stamped))
  unfolding parse_key
  parse_key_parts h = rw (long_enough, size_part, h, name_slice, stamp_slice) refl

stamp_read : (t : Time) → read_uint 0 (put_uint 8 (unix_nano t)) ≡ unix_nano t
unfolding unix_nano
stamp_read t = read_put8 (unix_nano t) ∙ omega arith

size_read : (n : ℕ) → n + 18 < 2 ^ 16 → read_uint 0 (put_uint 2 (uint16 n)) ≡ n
size_read n short = read_put2 (uint16 n) ∙ omega arith

-- Parsing the key of a metric gives its name and its time back, whatever the hash: for a time
-- that UnixNano can tell, and a name of at most 65517 bytes.
pub parse_key-make_key :
    (hash : Bytes → ℕ) (name : Bytes) (ls : Labels) (t : Time)
    → length name + 18 < 2 ^ 16
    → IsUnixTime t
    → parse_key (make_key hash name ls t) ≡ ok (name, t)
unfolding make_key
parse_key-make_key hash name ls t short h =
    parse_key_parts (put_uint 2 (uint16 (length name))) name _ _ (length-put_uint 2 _)
      (length-put_uint 8 _) (length-put_uint 8 _) short (size_read (length name) short)
    ∙ ap (λ n. ok (name, n)) (ap from_unix_nano (stamp_read t) ∙ from_unix_nano-unix_nano t h)
