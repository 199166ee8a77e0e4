-- ===== src/Fs/Step.antt =====
-- fisopfs/fisopfs.c: the callbacks that change the table, as one step of the file system.
use sis_ops.Common.{ℕ, ◌≡◌, List, Option, some, none}
use sis_ops.Fs.{SuperBlock, Sys, Outcome, Reply}
use sis_ops.Fs.Fuse.{touch, mkdir, read, write, unlink_cb, rmdir, update_time, truncate}

-- `struct fuse_operations`, less those that only look.
pub data Op : Type 0 where
  op_create op_mkdir : List ℕ → ℕ → Op
  op_read : List ℕ → ℕ → ℕ → Op
  op_write : List ℕ → List ℕ → ℕ → ℕ → Op
  op_unlink op_rmdir : List ℕ → Op
  op_utimens : List ℕ → ℕ → ℕ → Op
  op_truncate : List ℕ → ℕ → Op

abbrev read_outcome : Option (SuperBlock × Reply × List ℕ) → Outcome
read_outcome none = none
read_outcome (some (s, r, bytes)) = some (s, r)

unfoldable pub step : Sys → Op → SuperBlock → Outcome
step sys (op_create path mode) s = touch sys path mode s
step sys (op_mkdir path mode) s = mkdir sys path mode s
step sys (op_read path size offset) s = read_outcome (read sys path size offset s)
step sys (op_write path buffer size offset) s = write sys path buffer size offset s
step sys (op_unlink path) s = unlink_cb sys path s
step sys (op_rmdir path) s = rmdir sys path s
step sys (op_utimens path acc mod_time) s = update_time sys path acc mod_time s
step sys (op_truncate path size) s = truncate sys path size s

-- The tables that a mounted file system can come to from `s`; no step goes on from a fault.
pub data Reach (s : SuperBlock) : SuperBlock → Type 0 where
  here : Reach s s
  next :
      {t u : SuperBlock} (sys : Sys) (op : Op) (r : Reply)
      → Reach s t
      → step sys op t ≡ some (u, r)
      → Reach s u
