-- ===== src/Server/Monitor/Sizes.antt =====
-- pkg/server/monitor/storage.go, `calculateDirSize`, and getActualFileSize of filesize_unix.go and
-- filesize_windows.go. A walk is the list of what `filepath.Walk` gives to its callback; sizes are
-- below 2^63 together.
use tinyobs.Base.{
  ℕ, ◌+◌, ◌*◌, ◌^◌, ◌≡◌, ◌==◌, refl, ap, ◌∙◌, Bool, true, false, List, [], ◌∷◌, ◌++◌, Option, none,
  some, map, if◌then◌else◌, arith,
}

-- An entry, or an error of the walk. `blocks` is `none` where the file system tells none.
pub record FileInfo : Type 0 where
  pub is_dir : Bool
  pub size : ℕ
  pub blocks : Option ℕ

-- On Unix.
unfoldable pub get_actual_file_size : FileInfo → ℕ
get_actual_file_size info = elim info.blocks [ none ↦ info.size | some n ↦ n * 512 ]

-- On Windows: `call` is the low and the high half that the system call gives, or `none` for a path
-- that is not a text.
unfoldable pub get_compressed_file_size : Option (ℕ × ℕ) → FileInfo → ℕ
get_compressed_file_size none info = info.size
get_compressed_file_size (some (low, high)) info =
    if low == 4_294_967_295 then info.size else high * 2 ^ 32 + low

if_plus : (b : Bool) (n k : ℕ) → (if b then n else n + k) ≡ n + (if b then 0 else k)
if_plus true n k = omega arith
if_plus false n k = refl

module _ (actual : FileInfo → ℕ) where
  -- The walk with the size so far; it ends at the first error.
  unfoldable pub walk : ℕ → List (Option FileInfo) → Option ℕ
  walk size [] = some size
  walk size (none ∷ rest) = none
  walk size (some info ∷ rest) = walk (if info.is_dir then size else size + actual info) rest

  unfoldable pub calculate_dir_size : List (Option FileInfo) → Option ℕ
  calculate_dir_size entries = walk 0 entries

  -- The files below a directory, without the directories themselves.
  abbrev pub sum_of_files : List FileInfo → ℕ
  sum_of_files [] = 0
  sum_of_files (info ∷ rest) = (if info.is_dir then 0 else actual info) + sum_of_files rest

  walk-sum_of_files :
      (size : ℕ) (infos : List FileInfo)
      → walk size (map some infos) ≡ some (size + sum_of_files infos)
  unfolding walk
  walk-sum_of_files size [] = ap some (omega arith)
  walk-sum_of_files size (info ∷ rest) =
      walk-sum_of_files (if info.is_dir then size else size + actual info) rest
      ∙ ap some (omega (arith, if_plus info.is_dir size (actual info)))

  walk-none :
      (size : ℕ) (infos : List FileInfo) (rest : List (Option FileInfo))
      → walk size (map some infos ++ none ∷ rest) ≡ none
  unfolding walk
  walk-none size [] rest = refl
  walk-none size (info ∷ infos) rest =
      walk-none (if info.is_dir then size else size + actual info) infos rest

  -- A walk without an error gives the sizes of all files below the directory together; one with an
  -- error, wherever it is met, gives none.
  pub calculate_dir_size-sum_of_files :
      (infos : List FileInfo) (rest : List (Option FileInfo))
      → (calculate_dir_size (map some infos) ≡ some (sum_of_files infos))
        × (calculate_dir_size (map some infos ++ none ∷ rest) ≡ none)
  unfolding calculate_dir_size
  calculate_dir_size-sum_of_files infos rest =
      (walk-sum_of_files 0 infos ∙ ap some (omega arith), walk-none 0 infos rest)
