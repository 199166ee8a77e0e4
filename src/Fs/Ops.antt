-- ===== src/Fs/Ops.antt =====
-- fisopfs/fs.c: the operations on files and directories.
use sis_ops.Common.{
  ℕ, ◌+◌, ◌-◌, ◌%◌, ◌^◌, List, [], ◌∷◌, ◌++◌, some, none, Bool, false, ◌||◌, ◌&&◌, not,
  if◌then◌else◌, ◌==◌, ltb, leb, str_eq, strlen, strncpy_bytes, replicate, length, drop, set,
  get_elem?, overwrite,
}
use sis_ops.Fs.{
  InodeType, fs_dir, fs_file, Inode, Slot, SuperBlock, Sys, Reply, Outcome, ok, err, eperm, enoent,
  enametoolong, efbig, einval, eacces, eisdir, enotdir, enomem, enotempty, max_content, max_path,
  root_path, free_slot,
}
use sis_ops.Fs.Path.{
  fault, null, str, Index, at, invalid, missing, remove_slash, at_inode, get_index_inodo,
  get_path_padre,
}
use sis_ops.Fs.Table.{next_free_inodo}

-- `strlen(path) - 1` in `size_t`.
abbrev len_less_one : List ℕ → ℕ
len_less_one path = (length path + (2 ^ 64 - 1)) % 2 ^ 64

-- An empty parent is the root.
abbrev pub or_root : List ℕ → List ℕ
or_root [] = root_path
or_root (c ∷ p) = c ∷ p

-- The new entry of `create_file` and `create_dir`.
unfoldable pub new_slot : Sys → InodeType → ℕ → List ℕ → List ℕ → Slot
new_slot sys type mode name parent = record {
  used = 1;
  inode = record {
    type = type;
    size = 0;
    id_user = sys.uid;
    id_grup = sys.gid;
    mode = mode;
    stats_info = record { last_acc = sys.now; last_mod = sys.now; creation = sys.now };
    path = name;
    content = replicate max_content 0;
    directory_path = parent;
  };
}

-- The name must fit in `path`, and a parent that is computed needs `path + 1` to fit in
-- `path_padre`; the code checks neither.
abbrev pub copies_fit : InodeType → List ℕ → List ℕ → Bool
copies_fit fs_dir path name = ltb (length name) max_path
copies_fit fs_file path name = ltb (length name) max_path && leb (length path) max_path

abbrev pub parent_of : InodeType → List ℕ → List ℕ
parent_of fs_file path = or_root (get_path_padre (drop 1 path))
parent_of fs_dir path = root_path

-- The end of a creation: a free entry is found and, if the copies fit, written.
unfoldable pub place : List ℕ → Bool → Slot → SuperBlock → Outcome
place name fits v s = elim (next_free_inodo name s) [
  | err e ↦ some (s, err e)
  | ok i ↦ if fits then some (set s i v, ok 0) else none
]

unfoldable pub create_file : Sys → List ℕ → ℕ → InodeType → SuperBlock → Outcome
unfolding new_slot place
create_file sys path mode type s =
    if ltb max_content (len_less_one path)
    then some (s, err enametoolong)
    else elim (remove_slash sys path) [
      | fault ↦ none
      | null ↦ some (s, err eperm)
      | str name ↦
          place name (copies_fit type path name) (new_slot sys type mode name (parent_of type path))
            s
    ]

unfoldable pub create_dir : Sys → List ℕ → ℕ → SuperBlock → Outcome
unfolding new_slot place
create_dir sys path mode s =
    if ltb max_content (len_less_one path)
    then some (s, err enametoolong)
    else elim (remove_slash sys path) [
      | fault ↦ none
      | null ↦ some (s, err eperm)
      | str name ↦
          place name (copies_fit fs_file path name)
            (new_slot sys fs_dir mode name (parent_of fs_file path)) s
    ]

-- The loop of `delete_file`, from index `i` on; `s` is the whole table.
delete_from : List ℕ → ℕ → SuperBlock → SuperBlock → SuperBlock × Reply
delete_from path i s [] = (s, err eperm)
delete_from path i s (slot ∷ rest) =
    let later = delete_from path (i + 1) s rest in
    if not (slot.used == 0) && str_eq slot.inode.path path
    then elim slot.inode.type [ fs_dir ↦ (s, err eperm) | fs_file ↦ (set s i free_slot, ok 0) ]
    else later

delete_file : List ℕ → SuperBlock → SuperBlock × Reply
unfolding delete_from
delete_file path s = delete_from path 0 s s

-- `content` is followed in memory by `directory_path`, into which `strlen` runs on.
unfoldable pub written : Sys → List ℕ → ℕ → ℕ → Inode → Inode
written sys buffer size offset f =
    let content = overwrite offset (strncpy_bytes size buffer) f.content in
    let new_size = strlen (content ++ f.directory_path) in
    record f {
      content = set content new_size 0;
      size = new_size;
      stats_info = record f.stats_info { last_mod = sys.now; last_acc = sys.now };
    }

-- `write_file` from the point where the index is known.
unfoldable pub write_at : Sys → List ℕ → ℕ → ℕ → ℕ → SuperBlock → Outcome
unfolding written
write_at sys buffer size offset i s = elim (get_elem? s i) [
  | none ↦ none
  | some slot ↦ if ltb slot.inode.size offset then some (s, err einval) else elim slot.inode.type [
    | fs_dir ↦ some (s, err eacces)
    | fs_file ↦
        if leb (offset + size) max_content
        then some
            (set s i (record slot { inode = written sys buffer size offset slot.inode }), ok size)
        else none
  ]
]

-- The second lookup of `write_file`, behind a successful creation.
abbrev pub write_found : Sys → List ℕ → ℕ → ℕ → Index → SuperBlock → Outcome
write_found sys buffer size offset invalid s = none
write_found sys buffer size offset missing s = some (s, err enoent)
write_found sys buffer size offset (at i) s = write_at sys buffer size offset i s

-- `offset + size` is a sum in `size_t`.
unfoldable pub write_file : Sys → List ℕ → List ℕ → ℕ → ℕ → SuperBlock → Outcome
unfolding write_at create_file
write_file sys path buffer size offset s =
    if ltb max_content ((offset + size) % 2 ^ 64)
    then some (s, err efbig)
    else elim (get_index_inodo sys path s) [
      | invalid ↦ none
      | at i ↦ write_at sys buffer size offset i s
      | missing ↦ elim (create_file sys path 0o644 fs_file s) [
        | none ↦ none
        | some (t, r) ↦ elim r [
          | err e ↦ some (t, err e)
          | ok _ ↦ write_found sys buffer size offset (get_index_inodo sys path t) t
        ]
      ]
    ]

-- `type`, `size` and `directory_path` are left as they were.
unfoldable pub unlinked : Slot → Slot
unlinked slot = record slot {
  used = 0;
  inode = record (slot.inode) { content = replicate max_content 0; path = [] };
}

unfoldable pub unlink : Sys → List ℕ → SuperBlock → Outcome
unfolding unlinked
unlink sys path s = at_inode (get_index_inodo sys path s) s (some (s, err eperm)) λ i slot.
    elim slot.inode.type [
      | fs_dir ↦ some (s, err eisdir)
      | fs_file ↦ some (set s i (unlinked slot), ok 0)
    ]

-- Whether some entry, used or not, names this directory as its own.
unfoldable pub has_entries : List ℕ → SuperBlock → Bool
has_entries name [] = false
has_entries name (slot ∷ rest) = str_eq slot.inode.directory_path name || has_entries name rest

unfoldable pub delete_dir : Sys → List ℕ → SuperBlock → Outcome
unfolding has_entries
delete_dir sys path s = at_inode (get_index_inodo sys path s) s (some (s, err eperm)) λ i slot.
    elim slot.inode.type [
      | fs_file ↦ some (s, err enotdir)
      | fs_dir ↦ elim (remove_slash sys path) [
        | fault ↦ none
        | null ↦ some (s, err enomem)
        | str name ↦
            if has_entries name s then some (s, err enotempty) else some (set s i free_slot, ok 0)
      ]
    ]
