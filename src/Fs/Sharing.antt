-- ===== src/Fs/Sharing.antt =====
-- An inode goes by the last component of its path alone.
use sis_ops.Common.{
  ℕ, suc, ◌+◌, ◌<◌, ◌≤◌, ◌≡◌, refl, ◌∙◌, List, [], ◌∷◌, ◌++◌, some, none, true, arith, length,
  length-append, after_last,
}
use sis_ops.Fs.{InodeType, SuperBlock, Sys, Reply, ok, err, eexist, slash, max_content}
use sis_ops.Fs.Path.{str, remove_slash}
use sis_ops.Fs.Table.{next_free_inodo}
use sis_ops.Fs.Ops.{create_file, place, parent_of}
use sis_ops.Fs.Lookup.{At, Absent-ne}
use sis_ops.Fs.FreeEntry.{FreeSpec, taken, full, free, next_free_inodo-FreeSpec}
use sis_ops.Fs.Names.{NoByte}
use sis_ops.Fs.Invariant.{IsValid}
use sis_ops.Fs.Creation.{create_file-Created, new_slot-path}

-- The path of a name in a directory.
abbrev pub child : List ℕ → List ℕ → List ℕ
child dir name = dir ++ (slash ∷ name)

after_last-NoByte-none : (d : ℕ) (s : List ℕ) → NoByte d s → after_last d s ≡ none
unfolding after_last
after_last-NoByte-none d [] h = refl
after_last-NoByte-none d (c ∷ r) h =
    rw (after_last-NoByte-none d r h.1, after_last) (ground (arith, h.0))

after_last-child :
    (dir name : List ℕ) → NoByte slash name → after_last slash (child dir name) ≡ some name
unfolding after_last
after_last-child [] name h = rw (after_last-NoByte-none slash name h, after_last) refl
after_last-child (c ∷ dir) name h = rw (after_last-child dir name h, after_last) refl

-- The name of a path is what stands behind its last slash.
remove_slash-child :
    (sys : Sys) (dir name : List ℕ)
    → ((n : ℕ) → sys.mem n ≡ true)
    → NoByte slash name
    → remove_slash sys (child dir name) ≡ str name
unfolding remove_slash
remove_slash-child sys [] name mem h =
    rw (mem (suc (length name)), after_last-child [] name h, mem (length name + 1)) refl
remove_slash-child sys (c ∷ dir) name mem h =
    rw
      (
        mem (suc (length (child dir name))),
        after_last-child (c ∷ dir) name h,
        mem (length name + 1),
      )
      refl

exists-eexist :
    (name : List ℕ) (s : SuperBlock) (i : ℕ) → At name s i → next_free_inodo name s ≡ err eexist
exists-eexist name s i a = go (next_free_inodo name s) (next_free_inodo-FreeSpec name s)
  where
    go : (x : Reply) → FreeSpec name s x → x ≡ err eexist
    go x (taken j b) = refl
    go x (full absent all) = absurd (Absent-ne name s i absent a)
    go x (free j absent first) = absurd (Absent-ne name s i absent a)

-- A name that was created in one directory cannot be created in any other: after a creation of
-- `name` in `dir`, its creation in `other` fails with EEXIST, where the path is short enough to
-- get so far and no allocation fails.
pub create_file_twice :
    (sys : Sys) (dir other name : List ℕ) (mode mode' : ℕ) (type type' : InodeType)
    (s t : SuperBlock) (r : ℕ)
    → IsValid s
    → ((n : ℕ) → sys.mem n ≡ true)
    → NoByte slash name
    → length (child other name) ≤ max_content + 1
    → create_file sys (child dir name) mode type s ≡ some (t, ok r)
    → create_file sys (child other name) mode' type' t ≡ some (t, err eexist)
unfolding create_file place
create_file_twice sys dir other name mode mode' type type' s t r valid mem h short e =
    let c =
      create_file-Created sys (child dir name) mode type s t r valid (unfold create_file in e) in
    let n = remove_slash-child sys dir name mem h in
    let same : c.name ≡ name = ground (arith, c.named, n) in
    let a : At name t c.index = record {
      slot = _;
      found = c.holds;
      named = new_slot-path sys type mode c.name (parent_of type (child dir name)) ∙ same;
    } in
    let n' = remove_slash-child sys other name mem h in
    let x = exists-eexist name t c.index a in
    let len : 0 < length (child other name) =
      omega (arith, length-append {0} other (slash ∷ name)) in
    ground (arith, n', x)
