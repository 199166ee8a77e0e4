-- ===== src/Fs/Path.antt =====
-- fisopfs/fs.c: names out of paths, and the lookup of an inode by name.
use sis_ops.Common.{
  ℕ, suc, ◌+◌, List, [], ◌∷◌, Option, some, none, length, if◌then◌else◌, str_eq, after_last,
  get_elem?, before_last,
}
use sis_ops.Fs.{Slot, SuperBlock, Sys, slash, root_path}

-- The result of `remove_slash`: `null` is a failed allocation; on the empty path the length
-- `len - 1` of the copy wraps.
pub data Name : Type 0 where
  fault null : Name
  str : List ℕ → Name

-- The part behind the last slash, or all but the first byte where there is no slash.
unfoldable pub remove_slash : Sys → List ℕ → Name
remove_slash sys [] = fault
remove_slash sys (c ∷ rest) =
    if sys.mem (suc (length rest))
    then elim (after_last slash (c ∷ rest)) [
      | none ↦ str rest
      | some name ↦ if sys.mem (length name + 1) then str name else null
    ]
    else null

-- The loop over `super_b.inodes`, from index `i` on.
unfoldable pub index_from : List ℕ → ℕ → SuperBlock → Option ℕ
index_from name i [] = none
index_from name i (s ∷ rest) =
    let later = index_from name (i + 1) rest in if str_eq name s.inode.path then some i else later

-- `missing` is the result -1.
pub data Index : Type 0 where
  invalid missing : Index
  at : ℕ → Index

abbrev from_option : Option ℕ → Index
from_option none = missing
from_option (some i) = at i

unfoldable pub get_index_inodo : Sys → List ℕ → SuperBlock → Index
get_index_inodo sys path s = if str_eq path root_path then at 0 else elim (remove_slash sys path) [
  | fault ↦ invalid
  | null ↦ missing
  | str name ↦ from_option (index_from name 0 s)
]

-- What a caller does with the index: `absent` on -1, and else `k` with the entry at the index.
abbrev pub at_inode {ℓ} :
    {A : Type ℓ} → Index → SuperBlock → Option A → (ℕ → Slot → Option A) → Option A
at_inode invalid s absent k = none
at_inode missing s absent k = absent
at_inode (at i) s absent k = elim (get_elem? s i) [ none ↦ none | some slot ↦ k i slot ]

-- The path cut at its last slash, or empty.
unfoldable pub get_path_padre : List ℕ → List ℕ
get_path_padre path = elim (before_last slash path) [ some p ↦ p | none ↦ [] ]
