-- ===== src/Fs/Tests.antt =====
-- The file system on small inputs: the theorems at tables where their hypotheses hold.
use sis_ops.Common.{
  ℕ, ◌≤◌, ◌≡◌, ◌↔◌, refl, List, [], ◌∷◌, ◌++◌, some, true, arith, replicate, get_elem?, str_eq,
  after_last, before_last, strlen, drop,
}
use sis_ops.Fs.{
  InodeType, fs_dir, fs_file, Slot, SuperBlock, Sys, ok, err, eexist, enotempty, root_path, slash,
  max_content, free_slot,
}
use sis_ops.Fs.Path.{remove_slash, get_index_inodo, get_path_padre, index_from}
use sis_ops.Fs.Table.{initialize_fs, next_free_inodo}
use sis_ops.Fs.Ops.{create_file, write_file, unlink, unlinked, delete_dir}
use sis_ops.Fs.Fuse.{read, readdir, dots, touch, mkdir}
use sis_ops.Fs.Step.{op_create, op_mkdir, step, Reach, here, next}
use sis_ops.Fs.Invariant.{IsValid}
use sis_ops.Fs.Adds.{initialize-IsValid}
use sis_ops.Fs.Keeps.{step-IsValid, Reach-IsValid}
use sis_ops.Fs.Creation.{Created, create_file-Created}
use sis_ops.Fs.WriteRead.{IsSized, read-write_file}
use sis_ops.Fs.Removal.{Unlinked, unlink-Unlinked, delete_dir-unlink}
use sis_ops.Fs.Sharing.{child, create_file_twice}
use sis_ops.Fs.Listing.{In, Bears, readdir-In}

abbrev sys : Sys
sys = record { now = 7; uid = 1000; gid = 100; mem = λ n. true }

abbrev root_slot : Slot
root_slot = record {
  used = 1;
  inode = record {
    type = fs_dir;
    size = 1024;
    id_user = 1000;
    id_grup = 100;
    mode = 0o40755;
    stats_info = record { last_acc = 7; last_mod = 7; creation = 7 };
    path = root_path;
    content = replicate max_content 0;
    directory_path = [];
  };
}

abbrev fresh : SuperBlock
fresh = root_slot ∷ replicate 63 free_slot

-- "/d", "/d/f", "/e"
abbrev d : List ℕ
d = b'd' ∷ []

abbrev f : List ℕ
f = b'f' ∷ []

abbrev dir : List ℕ
dir = slash ∷ d

abbrev file : List ℕ
file = slash ∷ b'd' ∷ slash ∷ f

abbrev entry_of : InodeType → ℕ → List ℕ → List ℕ → Slot
entry_of type mode name parent = record {
  used = 1;
  inode = record {
    type = type;
    size = 0;
    id_user = 1000;
    id_grup = 100;
    mode = mode;
    stats_info = record { last_acc = 7; last_mod = 7; creation = 7 };
    path = name;
    content = replicate max_content 0;
    directory_path = parent;
  };
}

abbrev with_dir : SuperBlock
with_dir = root_slot ∷ entry_of fs_dir 0o755 d root_path ∷ replicate 62 free_slot

abbrev with_file : SuperBlock
with_file =
    root_slot
    ∷ entry_of fs_dir 0o755 d root_path
    ∷ entry_of fs_file 0o644 f d
    ∷ replicate 61 free_slot

fresh_lem : initialize_fs sys ≡ fresh
unfolding initialize_fs
fresh_lem = refl

fresh-IsValid : IsValid fresh
unfolding initialize_fs
fresh-IsValid = initialize-IsValid sys

mkdir_step : step sys (op_mkdir dir 0o755) fresh ≡ some (with_dir, ok 0)
unfolding step mkdir create_file remove_slash next_free_inodo str_eq after_last
mkdir_step = refl

create_step : step sys (op_create file 0o644) with_dir ≡ some (with_file, ok 0)
unfolding step touch create_file remove_slash next_free_inodo str_eq after_last get_path_padre
    before_last
create_step = refl

with_file-Reach : Reach fresh with_file
with_file-Reach =
    next sys (op_create file 0o644) (ok 0) (next sys (op_mkdir dir 0o755) (ok 0) here mkdir_step)
      create_step

with_file-IsValid : IsValid with_file
with_file-IsValid = Reach-IsValid fresh-IsValid with_file-Reach

step-IsValid_example : IsValid with_dir
step-IsValid_example =
    step-IsValid sys (op_mkdir dir 0o755) fresh with_dir (ok 0) fresh-IsValid mkdir_step

create_file-Created_example : Created sys dir 0o755 fs_dir fresh with_dir
unfolding create_file remove_slash next_free_inodo str_eq after_last
create_file-Created_example =
    create_file-Created sys dir 0o755 fs_dir fresh with_dir 0 fresh-IsValid refl

abbrev hi : List ℕ
hi = b'h' ∷ b'i' ∷ []

read-write_file_example :
    (t u : SuperBlock) × (after : Slot) × (write_file sys file hi 2 0 with_file ≡ some (t, ok 2))
    × (read sys file 2 0 t ≡ some (u, ok 2, hi))
    × (get_elem? t 2 ≡ some after)
    × IsSized after.inode
    × (2 ≤ after.inode.size)
unfolding get_index_inodo remove_slash index_from str_eq after_last strlen
read-write_file_example =
    read-write_file sys file hi 0 2 (entry_of fs_file 0o644 f d) with_file refl refl refl refl refl
      (omega arith) (omega arith) (omega arith)

abbrev freed : Slot
freed = record {
  used = 0;
  inode = record {
    type = fs_file;
    size = 0;
    id_user = 1000;
    id_grup = 100;
    mode = 0o644;
    stats_info = record { last_acc = 7; last_mod = 7; creation = 7 };
    path = [];
    content = replicate max_content 0;
    directory_path = d;
  };
}

abbrev without_file : SuperBlock
without_file = root_slot ∷ entry_of fs_dir 0o755 d root_path ∷ freed ∷ replicate 61 free_slot

unlink-Unlinked_example : Unlinked sys file with_file without_file
unfolding unlink unlinked get_index_inodo remove_slash index_from str_eq after_last
unlink-Unlinked_example = unlink-Unlinked sys file with_file without_file 0 with_file-IsValid refl

delete_dir-unlink_example : delete_dir sys dir without_file ≡ some (without_file, err enotempty)
unfolding unlink unlinked get_index_inodo remove_slash index_from str_eq after_last
delete_dir-unlink_example =
    delete_dir-unlink sys file dir d with_file without_file 2 1 (entry_of fs_file 0o644 f d)
      (entry_of fs_dir 0o755 d root_path) 0 with_file-IsValid refl refl refl refl refl refl refl
      refl

create_file_twice_example :
    create_file sys (child (slash ∷ b'e' ∷ []) f) 0o600 fs_file with_file
    ≡ some (with_file, err eexist)
unfolding create_file remove_slash next_free_inodo str_eq after_last get_path_padre before_last
create_file_twice_example =
    create_file_twice sys dir (slash ∷ b'e' ∷ []) f 0o644 0o600 fs_file fs_file with_dir with_file 0
      step-IsValid_example (λ n. refl) (omega arith) (omega arith) refl

readdir-In_example :
    (names : List (List ℕ)) × (readdir sys dir with_file ≡ some (dots ++ names, ok 0))
    × (In f names ↔ Bears d f (drop 1 with_file))
unfolding get_index_inodo remove_slash index_from str_eq after_last
readdir-In_example =
    readdir-In sys dir f 1 (entry_of fs_dir 0o755 d root_path) with_file refl refl refl
