-- ===== src/Fs/Table.antt =====
-- fisopfs/fs.c: the inode table when it is new, and the search for a free entry.
use sis_ops.Common.{
  ℕ, ◌+◌, List, [], ◌∷◌, Option, some, none, Bool, true, false, if◌then◌else◌, ◌==◌, str_eq,
  replicate,
}
use sis_ops.Fs.{
  fs_dir, Inode, Slot, SuperBlock, Sys, Reply, ok, err, eexist, enospc, max_content, max_dir_size,
  root_path, mode_dir, free_slot,
}

root_inode : Sys → Inode
root_inode sys = record {
  type = fs_dir;
  size = max_dir_size;
  id_user = sys.uid;
  id_grup = sys.gid;
  mode = mode_dir;
  stats_info = record { last_acc = sys.now; last_mod = sys.now; creation = sys.now };
  path = root_path;
  content = replicate max_content 0;
  directory_path = [];
}

-- All entries but the root are zero.
unfoldable pub initialize_fs : Sys → SuperBlock
unfolding root_inode
initialize_fs sys = record { used = 1; inode = root_inode sys } ∷ replicate 63 free_slot

-- The first free index, once found, is kept.
abbrev pub keep_first : Option ℕ → ℕ → Slot → Option ℕ
keep_first (some k) i s = some k
keep_first none i s = if s.used == 0 then some i else none

-- The loop: it stops at the first entry of that name, `existe`.
unfoldable pub scan_free : List ℕ → ℕ → Option ℕ → SuperBlock → Bool × Option ℕ
scan_free name i next [] = (false, next)
scan_free name i next (s ∷ rest) =
    let later = scan_free name (i + 1) (keep_first next i s) rest in
    if str_eq s.inode.path name then (true, keep_first next i s) else later

abbrev free_reply : Bool → Option ℕ → Reply
free_reply true next = err eexist
free_reply false none = err enospc
free_reply false (some i) = ok i

unfoldable pub next_free_inodo : List ℕ → SuperBlock → Reply
unfolding scan_free
next_free_inodo name s = let found = scan_free name 0 none s in free_reply found.0 found.1
