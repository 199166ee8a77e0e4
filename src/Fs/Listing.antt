-- ===== src/Fs/Listing.antt =====
-- What a directory's listing holds.
use sis_ops.Common.{
  ℕ, zero, suc, ◌≡◌, ◌↔◌, ◌⊎◌, refl, sym, inl, inr, List, [], ◌∷◌, ◌++◌, some, arith, get_elem?,
  drop, Bool-cases, str_eq, str_eq→eq, str_eq_refl, ◌==◌, ◌&&◌,
}
use sis_ops.Fs.{fs_dir, Slot, SuperBlock, Sys, ok}
use sis_ops.Fs.Path.{at, get_index_inodo}
use sis_ops.Fs.Fuse.{entries, readdir, dots}

abbrev pub In : List ℕ → List (List ℕ) → Type 0
In name [] = ⊥
In name (x ∷ xs) = (name ≡ x) ⊎ In name xs

-- Some entry in use has this name and lies in this directory.
pub record Bears (dir name : List ℕ) (s : SuperBlock) : Type 0 where
  pub index : ℕ
  pub slot : Slot
  pub found : get_elem? s index ≡ some slot
  pub in_use : slot.used ≡ 1
  pub inside : slot.inode.directory_path ≡ dir
  pub named : slot.inode.path ≡ name

Bears-suc :
    (dir name : List ℕ) (t : Slot) (s : SuperBlock) → Bears dir name s → Bears dir name (t ∷ s)
Bears-suc dir name t s b = record {
  index = suc b.index;
  slot = b.slot;
  found = b.found;
  in_use = b.in_use;
  inside = b.inside;
  named = b.named;
}

In-entries : (dir name : List ℕ) (s : SuperBlock) → In name (entries dir s) → Bears dir name s
unfolding entries
In-entries dir name [] h = absurd h
In-entries dir name (t ∷ rest) h =
    elim (Bool-cases (t.used == 1 && str_eq t.inode.directory_path dir)) [
      | inl hit ↦
          let split : (name ≡ t.inode.path) ⊎ In name (entries dir rest) = rw hit at h in
          elim split [
            | inl e ↦ record {
              index = 0;
              slot = t;
              found = refl;
              in_use = ground arith;
              inside = str_eq→eq t.inode.directory_path dir (ground arith);
              named = sym e;
            }
            | inr k ↦ Bears-suc dir name t rest (In-entries dir name rest k)
          ]
      | inr miss ↦ Bears-suc dir name t rest (In-entries dir name rest (rw miss at h))
    ]

entries-In :
    (dir name : List ℕ) (s : SuperBlock) (i : ℕ) (slot : Slot)
    → get_elem? s i ≡ some slot
    → slot.used ≡ 1
    → slot.inode.directory_path ≡ dir
    → slot.inode.path ≡ name
    → In name (entries dir s)
unfolding entries
entries-In dir name [] i slot e u d p = cc
entries-In dir name (t ∷ rest) zero slot e u d p = ground (arith, str_eq_refl dir)
entries-In dir name (t ∷ rest) (suc i) slot e u d p =
    let later = entries-In dir name rest i slot e u d p in
    elim (Bool-cases (t.used == 1 && str_eq t.inode.directory_path dir)) [
      | inl hit ↦ rw hit (inr later)
      | inr miss ↦ rw miss later
    ]

-- The listing of a directory is `.` and `..` and then exactly the names of those entries in use,
-- other than the root, whose directory is the inode's name (not its path).
pub readdir-In :
    (sys : Sys) (path name : List ℕ) (i : ℕ) (slot : Slot) (s : SuperBlock)
    → get_index_inodo sys path s ≡ at i
    → get_elem? s i ≡ some slot
    → slot.inode.type ≡ fs_dir
    → (names : List (List ℕ)) × (readdir sys path s ≡ some (dots ++ names, ok 0))
      × (In name names ↔ Bears slot.inode.path name (drop 1 s))
unfolding readdir
readdir-In sys path name i slot s p found is_dir = (
  entries slot.inode.path (drop 1 s),
  ground arith,
  (
    In-entries slot.inode.path name (drop 1 s),
    λ b.
        entries-In slot.inode.path name (drop 1 s) b.index b.slot b.found b.in_use b.inside b.named,
  ),
)
