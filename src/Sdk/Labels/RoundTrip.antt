-- ===== src/Sdk/Labels/RoundTrip.antt =====
-- pkg/sdk/metrics/histogram.go: the labels that a flush reads back from the key of a set.
use tinyobs.Base.{
  ◌%◌, ◌<◌, ◌≡◌, refl, ap, ◌==◌, false, List, [], ◌∷◌, ◌++◌, some, Bytes, length, All, arith,
}
use tinyobs.Sdk.Labels.{
  label_suffix, make_key, pair_loop, make_labels, join_head, split, split_key, key_to_labels,
}

-- A label without a comma.
abbrev pub IsPlain : Bytes → Type 0
IsPlain l = All (λ x. (x == b',') ≡ false) l

split-append :
    (l rest : Bytes) (parts : List Bytes)
    → IsPlain l
    → split rest ≡ [] ∷ parts
    → split (l ++ rest) ≡ l ∷ parts
unfolding split join_head
split-append [] rest parts h e = e
split-append (x ∷ l) rest parts h e = rw h.0 (ap (join_head x) (split-append l rest parts h.1 e))

split-label_suffix : (ls : List Bytes) → All IsPlain ls → split (label_suffix ls) ≡ [] ∷ ls
unfolding split label_suffix
split-label_suffix [] h = refl
split-label_suffix (l ∷ ls) h =
    ap (◌∷◌ []) (split-append l (label_suffix ls) ls h.0 (split-label_suffix ls h.1))

split-make_key :
    (l : Bytes) (ls : List Bytes) → All IsPlain (l ∷ ls) → split (make_key (l ∷ ls)) ≡ l ∷ ls
unfolding make_key
split-make_key l ls h = split-append l (label_suffix ls) ls h.0 (split-label_suffix ls h.1)

-- A list of label pairs, none with a comma in it, is read back from its key as the map that a
-- counter or a gauge sends for it, if the key is not empty.
pub key_to_labels-make_key :
    (ls : List Bytes)
    → All IsPlain ls
    → length ls % 2 ≡ 0
    → 0 < length (make_key ls)
    → key_to_labels (make_key ls) ≡ make_labels ls
unfolding make_key key_to_labels make_labels split_key
key_to_labels-make_key ls h even long =
    let some_key : (length (make_key ls) == 0) ≡ false = ground arith in
    rw (some_key, even) (ap (λ parts. some (pair_loop [] parts)) (whole ls h long))
  where
    whole : (ls : List Bytes) → All IsPlain ls → 0 < length (make_key ls) → split (make_key ls) ≡ ls
    whole [] h long = absurd (omega arith)
    whole (l ∷ ls) h long = split-make_key l ls h
