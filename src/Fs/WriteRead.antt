-- ===== src/Fs/WriteRead.antt =====
-- What is written to a file is read back.
use sis_ops.Common.{
  ℕ, zero, suc, ◌+◌, ◌≤◌, ◌≡◌, ◌^◌, refl, ap, ◌∙◌, inl, inr, List, [], ◌∷◌, ◌++◌, some, arith,
  get_elem?, set, length, get_elem?-set_self, overwrite, strlen,
}
use native.Mathlib.Nat.{mod-eq_of_lt}
use sis_ops.Fs.{fs_file, Inode, Slot, SuperBlock, Sys, ok, max_content}
use sis_ops.Fs.Path.{at, remove_slash, get_index_inodo, index_from}
use sis_ops.Fs.Ops.{write_file, write_at, written}
use sis_ops.Fs.Fuse.{read, read_bytes, accessed}
use sis_ops.Fs.Names.{NoByte}
use sis_ops.Fs.Bytes.{
  set-strlen, strncpy_bytes-append, strncpy_bytes_self, drop-overwrite, strlen-overwrite_add,
}
use sis_ops.Fs.Adds.{Name-cases}
use sis_ops.Fs.Creation.{get_elem?-lt}

-- The search goes by the names alone.
index_from-set :
    (name : List ℕ) (k : ℕ) (s : SuperBlock) (i : ℕ) (u v : Slot)
    → get_elem? s i ≡ some u
    → v.inode.path ≡ u.inode.path
    → index_from name k (set s i v) ≡ index_from name k s
unfolding index_from
index_from-set name k [] i u v e p = refl
index_from-set name k (t ∷ rest) zero u v e p =
    let q : v.inode.path ≡ t.inode.path = ground arith in rw q
index_from-set name k (t ∷ rest) (suc i) u v e p = rw (index_from-set name (k + 1) rest i u v e p)

pub get_index-set :
    (sys : Sys) (path : List ℕ) (s : SuperBlock) (i : ℕ) (u v : Slot)
    → get_elem? s i ≡ some u
    → v.inode.path ≡ u.inode.path
    → get_index_inodo sys path (set s i v) ≡ get_index_inodo sys path s
unfolding get_index_inodo
get_index-set sys path s i u v e p = elim (Name-cases (remove_slash sys path)) [
  | inl q ↦ ground arith
  | inr (inl q) ↦ ground arith
  | inr (inr (name, q)) ↦ ground (arith, index_from-set name 0 s i u v e p)
]

-- A file whose size is that of the string in its content.
abbrev pub IsSized : Inode → Type 0
IsSized f = f.size ≡ strlen (f.content ++ f.directory_path)

-- The inode after a write of bytes without a NUL.
record Wrote (bytes : List ℕ) (offset : ℕ) (f g : Inode) : Type 0 where
  content : g.content ≡ overwrite offset bytes f.content
  directory : g.directory_path ≡ f.directory_path
  type : g.type ≡ f.type
  sized : IsSized g

written-Wrote :
    (sys : Sys) (bytes : List ℕ) (offset : ℕ) (f : Inode)
    → NoByte 0 bytes
    → Wrote bytes offset f (written sys bytes (length bytes) offset f)
unfolding written
written-Wrote sys bytes offset f h =
    let c = overwrite offset bytes f.content in
    let keep = set-strlen c f.directory_path in
    rw (strncpy_bytes_self bytes h)
      (record { content = keep; directory = refl; type = refl; sized = rw keep })

-- Reading behind a write.
read_bytes-Wrote :
    (bytes : List ℕ) (offset : ℕ) (f g : Inode)
    → Wrote bytes offset f g
    → NoByte 0 bytes
    → offset + length bytes ≤ length f.content
    → read_bytes (length bytes) offset g ≡ bytes
unfolding read_bytes
read_bytes-Wrote bytes offset f g w h k =
    rw (w.content, w.directory, drop-overwrite offset bytes f.content f.directory_path k)
      (strncpy_bytes-append bytes _ h)

size-Wrote :
    (bytes : List ℕ) (offset : ℕ) (f g : Inode)
    → Wrote bytes offset f g
    → NoByte 0 bytes
    → IsSized f
    → offset ≤ f.size
    → offset + length bytes ≤ length f.content
    → offset + length bytes ≤ g.size
size-Wrote bytes offset f g w h z le k =
    rw (w.sized, w.content, w.directory)
      (strlen-overwrite_add offset bytes f.content f.directory_path h (rw z at le) k)

write_file-found :
    (sys : Sys) (path bytes : List ℕ) (size offset i : ℕ) (slot : Slot) (s : SuperBlock)
    → get_index_inodo sys path s ≡ at i
    → get_elem? s i ≡ some slot
    → slot.inode.type ≡ fs_file
    → offset ≤ slot.inode.size
    → offset + size ≤ max_content
    → write_file sys path bytes size offset s
      ≡ some (set s i (record slot { inode = written sys bytes size offset slot.inode }), ok size)
unfolding write_file write_at
write_file-found sys path bytes size offset i slot s p found is_file le fits =
    ground (arith, mod-eq_of_lt {n = offset + size} {m = 2 ^ 64} (omega arith))

pub read-found :
    (sys : Sys) (path : List ℕ) (size offset i : ℕ) (slot : Slot) (s : SuperBlock)
    → get_index_inodo sys path s ≡ at i
    → get_elem? s i ≡ some slot
    → slot.inode.type ≡ fs_file
    → offset ≤ slot.inode.size
    → offset ≤ max_content
    → read sys path size offset s
      ≡ some (set s i (accessed sys slot), ok size, read_bytes size offset slot.inode)
unfolding read
read-found sys path size offset i slot s p found is_file le fits = ground arith

-- Bytes without a NUL, written to a file at an offset within it so that they end within the
-- content, where the size of the file is that of the string in its content of 1024 bytes, are
-- accepted whole; the file then reaches behind them, is again of the size of its string, and a read
-- at the same offset of as many bytes gives them back.
pub read-write_file :
    (sys : Sys) (path bytes : List ℕ) (offset i : ℕ) (slot : Slot) (s : SuperBlock)
    → get_index_inodo sys path s ≡ at i
    → get_elem? s i ≡ some slot
    → slot.inode.type ≡ fs_file
    → length slot.inode.content ≡ max_content
    → IsSized slot.inode
    → offset ≤ slot.inode.size
    → offset + length bytes ≤ max_content
    → NoByte 0 bytes
    → (t u : SuperBlock) × (after : Slot) × (write_file sys path bytes (length bytes) offset s
        ≡ some (t, ok (length bytes)))
      × (read sys path (length bytes) offset t ≡ some (u, ok (length bytes), bytes))
      × (get_elem? t i ≡ some after)
      × IsSized after.inode
      × (offset + length bytes ≤ after.inode.size)
read-write_file sys path bytes offset i slot s p found is_file len sized le fits h =
    let g = written sys bytes (length bytes) offset slot.inode in
    let after : Slot = record slot { inode = g } in
    let t = set s i after in
    let w = written-Wrote sys bytes offset slot.inode h in
    let grown = size-Wrote bytes offset slot.inode g w h sized le (omega arith) in
    let found' : get_index_inodo sys path t ≡ at i =
      get_index-set sys path s i slot after found (unfold written in refl) ∙ p in
    let holds = get_elem?-set_self s i after (get_elem?-lt s i slot found) in
    let read_back : read sys path (length bytes) offset t
        ≡ some (set t i (accessed sys after), ok (length bytes), bytes) =
      read-found sys path (length bytes) offset i after t found' holds (w.type ∙ is_file)
        (omega arith) (omega arith)
      ∙ ap (λ b. some (set t i (accessed sys after), ok (length bytes), b))
          (read_bytes-Wrote bytes offset slot.inode g w h (omega arith)) in
    (
      t,
      set t i (accessed sys after),
      after,
      write_file-found sys path bytes (length bytes) offset i slot s p found is_file le fits,
      read_back,
      holds,
      w.sized,
      grown,
    )
