-- ===== src/Sdk/Labels.antt =====
-- pkg/sdk/metrics: label lists, their keys and their maps, which counter.go, gauge.go and
-- histogram.go each spell out.
pub mod RoundTrip
use tinyobs.Base.{
  ℕ, ◌%◌, ◌==◌, ◌&&◌, List, [], ◌∷◌, ◌++◌, Option, none, some, Bytes, Dict, insert, length,
  if◌then◌else◌, str_eq,
}
use tinyobs.Metric.{Labels}

-- The loop of `makeKey` after the first label.
unfoldable pub label_suffix : List Bytes → Bytes
label_suffix [] = []
label_suffix (l ∷ ls) = b',' ∷ l ++ label_suffix ls

unfoldable pub make_key : List Bytes → Bytes
make_key [] = []
make_key (l ∷ ls) = l ++ label_suffix ls

-- Pairs of a key and a value, the later over the earlier.
unfoldable pub pair_loop : Labels → List Bytes → Labels
pair_loop result [] = result
pair_loop result (k ∷ []) = result
pair_loop result (k ∷ v ∷ rest) = pair_loop (insert k v result) rest

unfoldable pub make_labels : List Bytes → Option Labels
make_labels labels = if length labels % 2 == 0 then some (pair_loop [] labels) else none

-- A byte before the first part.
unfoldable pub join_head : ℕ → List Bytes → List Bytes
join_head x [] = (x ∷ []) ∷ []
join_head x (part ∷ parts) = (x ∷ part) ∷ parts

-- `strings.Split(key, ",")`
unfoldable pub split : Bytes → List Bytes
split [] = [] ∷ []
split (x ∷ xs) = let parts = split xs in if x == b',' then [] ∷ parts else join_head x parts

-- nil for the empty key
unfoldable pub split_key : Bytes → List Bytes
split_key key = if length key == 0 then [] else split key

unfoldable pub key_to_labels : Bytes → Option Labels
key_to_labels key = if length key == 0 then none else some (pair_loop [] (split_key key))
