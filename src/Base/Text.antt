-- ===== src/Base/Text.antt =====
-- Go strings as lists of bytes: equality, the bytewise order, and sorting.
use Prim.Native.Char.{code}
use Prim.Native.Nat.{ℕ}
use Prim.Native.String.{String}
use mathlib.Core.Path.{◌≡◌, refl, ap, ◌∙◌}
use mathlib.Core.Logic.{◌↔◌}
use mathlib.Core.Bool.{Bool, true, false, ◌&&◌}
use mathlib.Core.List.{List, [], ◌∷◌}
use native.Mathlib.Omega.{arith}
use tinyobs.Base.Tests.{◌==◌, ltb, if◌then◌else◌}
use tinyobs.Base.Lists.{any}

abbrev pub Bytes : Type 0
Bytes = List ℕ

-- The bytes of a literal, which is ASCII in every use.
abbrev pub codes : String → Bytes
codes String.[] = []
codes (String.◌∷◌ c s) = code c ∷ codes s

-- `==` on strings.
unfoldable pub str_eq : Bytes → Bytes → Bool
str_eq [] [] = true
str_eq (x ∷ xs) (y ∷ ys) = x == y && str_eq xs ys
str_eq _ _ = false

pub str_eq_iff : (a b : Bytes) → (str_eq a b ≡ true) ↔ (a ≡ b)
unfolding str_eq
str_eq_iff (x ∷ a) (y ∷ b) = ground (arith, str_eq_iff a b)
str_eq_iff _ _ = ground arith

-- `<=` on strings.
unfoldable pub str_le : Bytes → Bytes → Bool
str_le [] _ = true
str_le (x ∷ xs) [] = false
str_le (x ∷ xs) (y ∷ ys) =
    let rest = str_le xs ys in if ltb x y then true else if x == y then rest else false

insert_sorted : Bytes → List Bytes → List Bytes
insert_sorted s [] = s ∷ []
insert_sorted s (t ∷ ts) = if str_le s t then s ∷ t ∷ ts else t ∷ insert_sorted s ts

-- `sort.Strings`.
unfoldable pub sort_strings : List Bytes → List Bytes
unfolding insert_sorted str_le
sort_strings [] = []
sort_strings (s ∷ ss) = insert_sorted s (sort_strings ss)

any-insert_sorted :
    (p : Bytes → Bool) (s : Bytes) (ss : List Bytes) → any p (insert_sorted s ss) ≡ any p (s ∷ ss)
unfolding insert_sorted str_le
any-insert_sorted p s [] = refl
any-insert_sorted p s (t ∷ ts) = ground (arith, any-insert_sorted p s ts)

pub any-sort_strings : (p : Bytes → Bool) (ss : List Bytes) → any p (sort_strings ss) ≡ any p ss
unfolding sort_strings
any-sort_strings p [] = refl
any-sort_strings p (s ∷ ss) =
    any-insert_sorted p s (sort_strings ss)
    ∙ ap (λ rest. if p s then true else rest) (any-sort_strings p ss)
