-- ===== src/Fs.antt =====
-- fisopfs/fs.h: the data of the file system and what its functions return.
pub mod Path
pub mod Table
pub mod Ops
pub mod Fuse
pub mod Lookup
pub mod Names
pub mod Step
mod Tests
pub mod Listing
pub mod Sharing
pub mod Limits
pub mod Removal
pub mod Bytes
pub mod WriteRead
pub mod Creation
pub mod Adds
pub mod Keeps
pub mod FreeEntry
pub mod Invariant
use sis_ops.Common.{ℕ, List, Option, [], ◌∷◌, replicate, Bool}

pub data InodeType : Type 0 where
  fs_dir fs_file : InodeType

pub record Stats : Type 0 where
  pub last_acc : ℕ
  pub last_mod : ℕ
  pub creation : ℕ

-- `path` and `directory_path` are C strings in arrays of `max_path` bytes, `content` is the whole
-- array. `link_num` is left out: no function reads or writes it.
pub record Inode : Type 0 where
  pub type : InodeType
  pub size : ℕ
  pub id_user : ℕ
  pub id_grup : ℕ
  pub mode : ℕ
  pub stats_info : Stats
  pub path : List ℕ
  pub content : List ℕ
  pub directory_path : List ℕ

-- `inodes[i]` with `bitmap_inodes[i]`.
pub record Slot : Type 0 where
  pub used : ℕ
  pub inode : Inode

abbrev pub SuperBlock : Type 0
SuperBlock = List Slot

abbrev pub max_inodes : ℕ
max_inodes = 64

abbrev pub max_dir_size : ℕ
max_dir_size = 1024

abbrev pub max_path : ℕ
max_path = 200

abbrev pub max_content : ℕ
max_content = 1024

abbrev pub slash : ℕ
slash = b'/'

abbrev pub root_path : List ℕ
root_path = slash ∷ []

-- The error numbers returned; `eperm` is the bare -1.
pub data Errno : Type 0 where
  eperm enoent eexist enotdir eisdir einval efbig enospc enametoolong enotempty eacces enomem :
      Errno

pub data Result {ℓ} (A : Type ℓ) : Type ℓ where
  ok : A → Result A
  err : Errno → Result A

abbrev pub Reply : Type 0
Reply = Result ℕ

-- What an operation asks of the system: the clock, the caller's ids, and whether an allocation of
-- so many bytes succeeds.
pub record Sys : Type 0 where
  pub now : ℕ
  pub uid : ℕ
  pub gid : ℕ
  pub mem : ℕ → Bool

-- An operation that accesses memory out of bounds has no outcome: `none`.
abbrev pub Outcome : Type 0
Outcome = Option (SuperBlock × Reply)

abbrev zero_inode : Inode
zero_inode = record {
  type = fs_dir;
  size = 0;
  id_user = 0;
  id_grup = 0;
  mode = 0;
  stats_info = record { last_acc = 0; last_mod = 0; creation = 0 };
  path = [];
  content = replicate max_content 0;
  directory_path = [];
}

abbrev pub free_slot : Slot
free_slot = record { used = 0; inode = zero_inode }

-- S_IFDIR | 0755 and S_IFREG | 0644
abbrev pub mode_dir : ℕ
mode_dir = 0o40755

abbrev pub mode_file : ℕ
mode_file = 0o100644
