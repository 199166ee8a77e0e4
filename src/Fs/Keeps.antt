-- ===== src/Fs/Keeps.antt =====
-- Every operation keeps the invariant of the inode table.
use sis_ops.Common.{
  ◌^◌, ◌&&◌, ℕ, ◌≡◌, ◌≢◌, refl, sym, ◌∙◌, inl, inr, List, [], ◌∷◌, some, true, false, arith,
  get_elem?, set, Bool-cases, Option-cases, str_eq, str_eq→eq, str_eq_refl, ltb,
}
use sis_ops.Fs.{
  fs_dir, fs_file, Slot, SuperBlock, Sys, Outcome, Reply, ok, err, enoent, max_content, root_path,
  slash, free_slot,
}
use sis_ops.Fs.Path.{
  str, Index, at, missing, invalid, at_inode, get_index_inodo, remove_slash, index_from,
}
use sis_ops.Fs.Ops.{unlink, unlinked, delete_dir, has_entries}
use sis_ops.Fs.Fuse.{read, touch, mkdir, write, unlink_cb, rmdir, update_time, truncate}
use sis_ops.Fs.Step.{
  Op, op_create, op_mkdir, op_read, op_write, op_unlink, op_rmdir, op_utimens, op_truncate, step,
  Reach, here, next,
}
use sis_ops.Fs.Lookup.{index_from-At}
use sis_ops.Fs.Names.{NoByte, remove_slash-NoByte, root_path-name}
use sis_ops.Fs.Invariant.{
  IsEntry, IsValid, HasRoot, HasRoot-get, Same, set-Same-IsValid, set_free-IsValid, not_root, entry,
}
use sis_ops.Fs.Adds.{
  Name-cases, Index-cases, create_file-IsValid, write_file-IsValid, free_slot-IsEntry,
}

-- An operation that looks up one inode keeps the invariant if it does so at the inode found.
at_inode-IsValid :
    (x : Index) (s t : SuperBlock) (r : Reply) (m : Outcome) (k : ℕ → Slot → Outcome)
    → (m ≡ some (t, r) → IsValid t)
    → ((i : ℕ) (slot : Slot)
        → x ≡ at i
        → get_elem? s i ≡ some slot
        → k i slot ≡ some (t, r)
        → IsValid t)
    → at_inode x s m k ≡ some (t, r)
    → IsValid t
at_inode-IsValid invalid s t r m k hm hk e = cc
at_inode-IsValid missing s t r m k hm hk e = hm e
at_inode-IsValid (at i) s t r m k hm hk e = elim (Option-cases (get_elem? s i)) [
  | inl p ↦ absurd (ground arith)
  | inr (slot, p) ↦ hk i slot refl p (ground arith)
]

unlinked-IsEntry : (slot : Slot) → IsEntry slot → IsEntry (unlinked slot)
unfolding unlinked
unlinked-IsEntry slot k = record {
  named = λ h. absurd (h refl);
  unnamed = λ _. refl;
  content_length = refl;
  path_fits = omega arith;
  directory_fits = k.directory_fits;
}

unlinked-path : (slot : Slot) → (unlinked slot).inode.path ≡ []
unfolding unlinked
unlinked-path slot = refl

unlink-IsValid :
    (sys : Sys) (path : List ℕ) (s t : SuperBlock) (r : Reply)
    → IsValid s
    → unlink sys path s ≡ some (t, r)
    → IsValid t
unfolding unlink
unlink-IsValid sys path s t r valid e =
    at_inode-IsValid (get_index_inodo sys path s) s t r _ _ (λ p. ground arith)
      (λ i slot at_i found h.
        let ne = λ (p : slot.inode.type ≢ fs_dir). not_root s valid i slot slot found (inl p) in
        let new = λ (p : i ≢ 0).
          set_free-IsValid s valid i slot (unlinked slot) found p (unlinked-path slot)
            (unlinked-IsEntry slot (entry s valid i slot slot found)) in
        ground (arith, ne, new))
      e

has_entries-root : (s : SuperBlock) → HasRoot s → has_entries [] s ≡ true
unfolding has_entries
has_entries-root [] h = absurd h
has_entries-root (t ∷ rest) h = ground (arith, h.no_parent, str_eq_refl [])

-- The entry that `delete_dir` clears is not the root: the root lies in the directory named "".
removed-ne-root :
    (sys : Sys) (path name : List ℕ) (s : SuperBlock) (i : ℕ)
    → IsValid s
    → get_index_inodo sys path s ≡ at i
    → remove_slash sys path ≡ str name
    → has_entries name s ≡ false
    → i ≢ 0
unfolding get_index_inodo
removed-ne-root sys path name s i valid p q h z = elim (Bool-cases (str_eq path root_path)) [
  | inl hit ↦
      let e = str_eq→eq path root_path hit in
      let empty = root_path-name sys name (rw (← e) q) in cc (has_entries-root s valid.root)
  | inr miss ↦ elim (Option-cases (index_from name 0 s)) [
    | inl none_found ↦ ground arith
    | inr (k, found) ↦
        let (d, kd, a) = index_from-At name 0 s k found in
        let k_zero : d ≡ 0 = ground arith in
        let root = HasRoot-get s a.slot valid.root (rw k_zero at a.found) in
        let slashed : name ≡ root_path = sym a.named ∙ root.is_root in
        let free : NoByte slash root_path = rw slashed at (remove_slash-NoByte sys path name q) in
        absurd (free.0 refl)
  ]
]

delete_dir-IsValid :
    (sys : Sys) (path : List ℕ) (s t : SuperBlock) (r : Reply)
    → IsValid s
    → delete_dir sys path s ≡ some (t, r)
    → IsValid t
unfolding delete_dir
delete_dir-IsValid sys path s t r valid e =
    at_inode-IsValid (get_index_inodo sys path s) s t r _ _ (λ p. ground arith)
      (λ i slot at_i found h. elim (Name-cases (remove_slash sys path)) [
        | inl p ↦ ground arith
        | inr (inl p) ↦ ground arith
        | inr (inr (name, p)) ↦
            let ne = removed-ne-root sys path name s i valid at_i p in
            let new = λ (q : i ≢ 0).
              set_free-IsValid s valid i slot free_slot found q refl free_slot-IsEntry in
            ground (arith, ne, new)
      ])
      e

-- A change of sizes and times only.
Same_lem :
    (slot : Slot) (n acc mod_time born : ℕ)
    → Same slot (record slot {
      inode = record (slot.inode) {
        size = n;
        stats_info = record { last_acc = acc; last_mod = mod_time; creation = born };
      };
    })
Same_lem slot n acc mod_time born = record {
  same_used = refl;
  same_type = refl;
  same_path = refl;
  same_directory = refl;
  same_length = refl;
}

update_time-IsValid :
    (sys : Sys) (path : List ℕ) (acc mod_time : ℕ) (s t : SuperBlock) (r : Reply)
    → IsValid s
    → update_time sys path acc mod_time s ≡ some (t, r)
    → IsValid t
unfolding update_time
update_time-IsValid sys path acc mod_time s t r valid e =
    at_inode-IsValid (get_index_inodo sys path s) s t r _ _ (λ p. ground arith)
      (λ i slot at_i found h. ground (
        arith,
        set-Same-IsValid s valid i slot _ found
            (Same_lem slot slot.inode.size acc mod_time slot.inode.stats_info.creation),
      ))
      e

-- The update of `truncate`.
abbrev resized : Sys → ℕ → SuperBlock → ℕ → Slot → Outcome
resized sys size s i slot = some (
  set s i (record slot {
    inode = record (slot.inode) {
      size = size;
      stats_info = record (slot.inode.stats_info) { last_mod = sys.now };
    };
  }),
  ok 0,
)

truncate-IsValid :
    (sys : Sys) (path : List ℕ) (size : ℕ) (s t : SuperBlock) (r : Reply)
    → IsValid s
    → truncate sys path size s ≡ some (t, r)
    → IsValid t
unfolding truncate
truncate-IsValid sys path size s t r valid e =
    elim (Bool-cases (ltb max_content size && ltb size (2 ^ 63))) [
      | inl big ↦ ground arith
      | inr small ↦
          at_inode-IsValid (get_index_inodo sys path s) s t r (some (s, err enoent))
            (resized sys size s) (λ p. ground arith)
            (λ i slot at_i found h. ground (
              arith,
              set-Same-IsValid s valid i slot _ found (
                  Same_lem slot size slot.inode.stats_info.last_acc sys.now
                    slot.inode.stats_info.creation),
            ))
            (ground arith)
    ]

read-IsValid :
    (sys : Sys) (path : List ℕ) (size offset : ℕ) (s t : SuperBlock) (r : Reply) (bytes : List ℕ)
    → IsValid s
    → read sys path size offset s ≡ some (t, r, bytes)
    → IsValid t
unfolding read
read-IsValid sys path size offset s t r bytes valid e =
    elim (Index-cases (get_index_inodo sys path s)) [
      | inl p ↦ ground arith
      | inr (inl p) ↦ ground arith
      | inr (inr (i, p)) ↦ elim (Option-cases (get_elem? s i)) [
        | inl q ↦ ground arith
        | inr (slot, found) ↦ ground (
          arith,
          set-Same-IsValid s valid i slot _ found (
              Same_lem slot slot.inode.size sys.now slot.inode.stats_info.last_mod
                slot.inode.stats_info.creation),
        )
      ]
    ]

-- Each operation of the mounted file system keeps the table valid: 64 entries, entry 0 the root
-- directory, a free entry nameless and an entry in use named, no name twice, and every string
-- within its array; whatever the operation's arguments, and whether it succeeds or fails.
pub step-IsValid :
    (sys : Sys) (op : Op) (s t : SuperBlock) (r : Reply)
    → IsValid s
    → step sys op s ≡ some (t, r)
    → IsValid t
unfolding step touch mkdir write unlink_cb rmdir
step-IsValid sys (op_create path mode) s t r valid e =
    create_file-IsValid sys path mode fs_file s t r valid e
step-IsValid sys (op_mkdir path mode) s t r valid e =
    create_file-IsValid sys path mode fs_dir s t r valid e
step-IsValid sys (op_read path size offset) s t r valid e =
    elim (Option-cases (read sys path size offset s)) [
      | inl p ↦ ground arith
      | inr ((u, y, bytes), p) ↦
          let done = read-IsValid sys path size offset s u y bytes valid p in ground arith
    ]
step-IsValid sys (op_write path buffer size offset) s t r valid e =
    write_file-IsValid sys path buffer size offset s t r valid e
step-IsValid sys (op_unlink path) s t r valid e = unlink-IsValid sys path s t r valid e
step-IsValid sys (op_rmdir path) s t r valid e = delete_dir-IsValid sys path s t r valid e
step-IsValid sys (op_utimens path acc mod_time) s t r valid e =
    update_time-IsValid sys path acc mod_time s t r valid e
step-IsValid sys (op_truncate path size) s t r valid e =
    truncate-IsValid sys path size s t r valid e

-- Every table that the operations can come to from a valid one, in any order and under any clock, is
-- valid.
pub Reach-IsValid : {s t : SuperBlock} → IsValid s → Reach s t → IsValid t
Reach-IsValid valid here = valid
Reach-IsValid valid (next sys op r path e) = step-IsValid sys op _ _ r (Reach-IsValid valid path) e
