-- ===== src/Fs/Limits.antt =====
-- What `truncate` leaves of a file.
use sis_ops.Common.{
  ℕ, ◌≤◌, ◌≡◌, refl, ap, ◌∙◌, List, some, arith, set, get_elem?, get_elem?-set_self,
}
use sis_ops.Fs.{fs_file, Slot, SuperBlock, Sys, ok, max_content}
use sis_ops.Fs.Path.{at, get_index_inodo}
use sis_ops.Fs.Fuse.{read, read_bytes, truncate, accessed}
use sis_ops.Fs.WriteRead.{get_index-set, read-found}
use sis_ops.Fs.Creation.{get_elem?-lt}

-- A file cut down by `truncate` still gives out its old bytes: with any new size that `truncate`
-- accepts, a read at an offset within it returns what it returned before, whatever the new size.
read-truncate :
    (sys : Sys) (path : List ℕ) (new_size size offset i : ℕ) (slot : Slot) (s : SuperBlock)
    → get_index_inodo sys path s ≡ at i
    → get_elem? s i ≡ some slot
    → slot.inode.type ≡ fs_file
    → new_size ≤ max_content
    → offset ≤ new_size
    → (t u : SuperBlock) × (truncate sys path new_size s ≡ some (t, ok 0))
      × (read sys path size offset t ≡ some (u, ok size, read_bytes size offset slot.inode))
read-truncate sys path new_size size offset i slot s p found is_file small le =
    let after : Slot = record slot {
      inode = record (slot.inode) {
        size = new_size;
        stats_info = record (slot.inode.stats_info) { last_mod = sys.now };
      };
    } in
    let t = set s i after in
    let cut : truncate sys path new_size s ≡ some (t, ok 0) = unfold truncate in ground arith in
    let found' : get_index_inodo sys path t ≡ at i =
      get_index-set sys path s i slot after found refl ∙ p in
    let same_bytes : read_bytes size offset after.inode ≡ read_bytes size offset slot.inode =
      unfold read_bytes in refl in
    let holds = get_elem?-set_self s i after (get_elem?-lt s i slot found) in
    (
      t,
      set t i (accessed sys after),
      cut,
      read-found sys path size offset i after t found' holds is_file le (omega arith)
          ∙ ap (λ b. some (set t i (accessed sys after), ok size, b)) same_bytes,
    )
