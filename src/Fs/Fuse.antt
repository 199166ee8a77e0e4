-- ===== src/Fs/Fuse.antt =====
-- fisopfs/fisopfs.c: the callbacks that FUSE makes.
use sis_ops.Common.{
  ℕ, ◌^◌, List, [], ◌∷◌, ◌++◌, Option, some, none, Bool, true, false, ◌&&◌, if◌then◌else◌, ◌==◌,
  ltb, leb, str_eq, strncpy_bytes, drop, set,
}
use sis_ops.Fs.{
  fs_dir, fs_file, Inode, Slot, SuperBlock, Sys, Result, Reply, Outcome, ok, err, enoent, einval,
  eisdir, max_content, mode_dir, mode_file,
}
use sis_ops.Fs.Path.{at_inode, get_index_inodo}
use sis_ops.Fs.Table.{initialize_fs}
use sis_ops.Fs.Ops.{create_file, write_file, unlink, delete_dir}

-- The fields of `struct stat` that `getattr` sets.
pub record Stat : Type 0 where
  pub st_ino : ℕ
  pub st_uid : ℕ
  pub st_gid : ℕ
  pub st_mode : ℕ
  pub st_atime : ℕ
  pub st_mtime : ℕ
  pub st_ctime : ℕ
  pub st_size : ℕ
  pub st_nlink : ℕ

stat_of : ℕ → Inode → Stat
stat_of pos f = record {
  st_ino = pos;
  st_uid = f.id_user;
  st_gid = f.id_grup;
  st_mode = elim f.type [ fs_dir ↦ mode_dir | fs_file ↦ mode_file ];
  st_atime = f.stats_info.last_acc;
  st_mtime = f.stats_info.last_mod;
  st_ctime = f.stats_info.creation;
  st_size = f.size;
  st_nlink = elim f.type [ fs_dir ↦ 2 | fs_file ↦ 1 ];
}

getattr : Sys → List ℕ → SuperBlock → Option (Result Stat)
unfolding stat_of
getattr sys path s =
    at_inode (get_index_inodo sys path s) s (some (err enoent))
      λ i slot. some (ok (stat_of i slot.inode))

-- The entries that `readdir` hands over of a directory named `dir`.
unfoldable pub entries : List ℕ → SuperBlock → List (List ℕ)
entries dir [] = []
entries dir (slot ∷ rest) =
    let later = entries dir rest in
    if slot.used == 1 && str_eq slot.inode.directory_path dir
    then slot.inode.path ∷ later
    else later

abbrev pub dots : List (List ℕ)
dots = (b'.' ∷ []) ∷ (b'.' ∷ b'.' ∷ []) ∷ []

-- The names handed to `filler`, and the code. The time of access goes to a copy and is lost.
unfoldable pub readdir : Sys → List ℕ → SuperBlock → Option (List (List ℕ) × Reply)
unfolding entries
readdir sys path s = at_inode (get_index_inodo sys path s) s (some (dots, err enoent)) λ i slot.
    elim slot.inode.type [
      | fs_file ↦ some (dots, err enoent)
      | fs_dir ↦ some (dots ++ entries slot.inode.path (drop 1 s), ok 0)
    ]

-- The bytes that `strncpy` copies out of the content, and on into `directory_path`.
unfoldable pub read_bytes : ℕ → ℕ → Inode → List ℕ
read_bytes size offset f = strncpy_bytes size (drop offset (f.content ++ f.directory_path))

abbrev pub accessed : Sys → Slot → Slot
accessed sys slot = record slot {
  inode = record (slot.inode) {
    stats_info = record (slot.inode.stats_info) { last_acc = sys.now };
  };
}

-- The new table, the code, and the bytes left in the buffer. An offset from 2^63 on is negative; one
-- behind the content, which a size that `truncate` made negative lets pass, reads out of bounds.
unfoldable pub read : Sys → List ℕ → ℕ → ℕ → SuperBlock → Option (SuperBlock × Reply × List ℕ)
unfolding read_bytes
read sys path size offset s =
    if leb (2 ^ 63) offset
    then some (s, err einval, [])
    else at_inode (get_index_inodo sys path s) s (some (s, err enoent, [])) λ i slot.
      elim slot.inode.type [
        | fs_dir ↦ some (s, err eisdir, [])
        | fs_file ↦
            if ltb slot.inode.size offset
            then some (s, err einval, [])
            else if ltb max_content offset
            then none
            else some (set s i (accessed sys slot), ok size, read_bytes size offset slot.inode)
      ]

unfoldable pub touch : Sys → List ℕ → ℕ → SuperBlock → Outcome
touch sys path mode s = create_file sys path mode fs_file s

unfoldable pub mkdir : Sys → List ℕ → ℕ → SuperBlock → Outcome
mkdir sys path mode s = create_file sys path mode fs_dir s

unfoldable pub write : Sys → List ℕ → List ℕ → ℕ → ℕ → SuperBlock → Outcome
write sys path buffer size offset s = write_file sys path buffer size offset s

unfoldable pub unlink_cb : Sys → List ℕ → SuperBlock → Outcome
unlink_cb sys path s = unlink sys path s

unfoldable pub rmdir : Sys → List ℕ → SuperBlock → Outcome
rmdir sys path s = delete_dir sys path s

-- `ts[0]` and `ts[1]` are the new times.
unfoldable pub update_time : Sys → List ℕ → ℕ → ℕ → SuperBlock → Outcome
update_time sys path acc mod_time s =
    at_inode (get_index_inodo sys path s) s (some (s, err enoent)) λ i slot. some (
      set s i (record slot {
        inode = record (slot.inode) {
          stats_info = record (slot.inode.stats_info) { last_acc = acc; last_mod = mod_time };
        };
      }),
      ok 0,
    )

-- The content is left alone. `size` is the word of the new size: from 2^63 on it is negative, which passes
-- the test and is stored.
unfoldable pub truncate : Sys → List ℕ → ℕ → SuperBlock → Outcome
truncate sys path size s =
    if ltb max_content size && ltb size (2 ^ 63)
    then some (s, err enoent)
    else at_inode (get_index_inodo sys path s) s (some (s, err enoent)) λ i slot. some (
      set s i (record slot {
        inode = record (slot.inode) {
          size = size;
          stats_info = record (slot.inode.stats_info) { last_mod = sys.now };
        };
      }),
      ok 0,
    )

-- The disk file: it cannot be opened, or it is shorter than the super block, and its bytes overwrite the
-- beginning of the table (what they make of the table is a parameter), or it has a whole image.
data Disk : Type 0 where
  no_file : Disk
  short_file : (SuperBlock → SuperBlock) → Disk
  image : SuperBlock → Disk

init : Sys → Disk → SuperBlock → SuperBlock
init sys no_file s = initialize_fs sys
init sys (short_file overwrite) s = overwrite s
init sys (image saved) s = saved

-- The image written. Where the file does not open, the stream is null and `fwrite` faults.
destroy : Bool → SuperBlock → Option Disk
destroy true s = some (image s)
destroy false s = none
