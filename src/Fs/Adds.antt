-- ===== src/Fs/Adds.antt =====
-- A fresh table, creation and writing keep the invariant of the inode table.
use sis_ops.Common.{
  ℕ, ◌<◌, ◌≡◌, ◌≢◌, refl, sym, ◌∙◌, ◌⊎◌, inl, inr, List, [], ◌∷◌, some, none, Bool, true, arith,
  get_elem?, All-get, All-replicate, length, length-set, overwrite, length-overwrite, strncpy_bytes,
  Option-cases,
}
use sis_ops.Fs.{
  InodeType, fs_dir, fs_file, Slot, SuperBlock, Sys, Outcome, Reply, max_path, root_path, free_slot,
}
use sis_ops.Fs.Path.{
  str, null, fault, Index, at, missing, invalid, get_index_inodo, remove_slash, Name,
}
use sis_ops.Fs.Table.{initialize_fs, next_free_inodo}
use sis_ops.Fs.Ops.{
  create_file, create_dir, new_slot, copies_fit, parent_of, write_file, write_at, write_found,
  written, place,
}
use sis_ops.Fs.FreeEntry.{FreeSpec, taken, full, free, next_free_inodo-FreeSpec}
use sis_ops.Fs.Names.{length-parent}
use sis_ops.Fs.Invariant.{
  IsEntry, IsValid, Same, set-Same-IsValid, set_new-IsValid, entry, Distinct-free,
}

pub free_slot-IsEntry : IsEntry free_slot
free_slot-IsEntry = record {
  named = λ h. absurd (h refl);
  unnamed = λ _. refl;
  content_length = refl;
  path_fits = omega arith;
  directory_fits = omega arith;
}

-- The table that `initialize_fs` makes is valid.
pub initialize-IsValid : (sys : Sys) → IsValid (initialize_fs sys)
unfolding initialize_fs
initialize-IsValid sys = record {
  count = refl;
  root = record { in_use = refl; is_dir = refl; is_root = refl; no_parent = refl };
  entries = (
    record {
      named = λ _ e. cc e;
      unnamed = λ e. absurd (omega arith);
      content_length = refl;
      path_fits = omega arith;
      directory_fits = omega arith;
    },
    All-replicate IsEntry 63 free_slot free_slot-IsEntry,
  );
  distinct = (
    λ _. All-replicate (λ t. t.inode.path ≢ root_path) 63 free_slot (λ e. cc e),
    Distinct-free 63,
  );
}

-- The new entry that a creation writes, if the copies fit.
new_slot-IsEntry :
    (sys : Sys) (type : InodeType) (mode : ℕ) (name parent : List ℕ)
    → name ≢ []
    → length name < max_path
    → length parent < max_path
    → IsEntry (new_slot sys type mode name parent)
unfolding new_slot
new_slot-IsEntry sys type mode name parent ne h k = record {
  named = λ _. ne;
  unnamed = λ e. absurd (omega arith);
  content_length = refl;
  path_fits = h;
  directory_fits = k;
}

place-IsValid :
    (s t : SuperBlock) (r : Reply) (name : List ℕ) (fits : Bool) (v : Slot)
    → IsValid s
    → v.inode.path ≡ name
    → (fits ≡ true → name ≢ [] → IsEntry v)
    → place name fits v s ≡ some (t, r)
    → IsValid t
unfolding place
place-IsValid s t r name fits v valid named ok_v e =
    go (next_free_inodo name s) refl (next_free_inodo-FreeSpec name s)
  where
    go : (x : Reply) → next_free_inodo name s ≡ x → FreeSpec name s x → IsValid t
    go x p (taken i a) = ground arith
    go x p (full a all) = ground arith
    go x p (free i a first) =
        let u_ok = entry s valid i first.slot v first.found in
        let ne : name ≢ [] = λ q.
          All-get (λ t. t.inode.path ≢ name) s i first.slot a first.found
            (u_ok.unnamed first.free ∙ sym q) in
        let new = λ (f : fits ≡ true).
          set_new-IsValid s valid i first.slot v first.found first.free (rw named a) (ok_v f ne) in
        ground (arith, new)

copied_dir-IsEntry :
    (sys : Sys) (mode c : ℕ) (rest name : List ℕ)
    → copies_fit fs_file (c ∷ rest) name ≡ true
    → name ≢ []
    → IsEntry (new_slot sys fs_dir mode name (parent_of fs_file (c ∷ rest)))
copied_dir-IsEntry sys mode c rest name fits ne =
    new_slot-IsEntry sys fs_dir mode name _ ne (ground arith) (length-parent c rest (ground arith))

copies_fit-IsEntry :
    (sys : Sys) (type : InodeType) (mode c : ℕ) (rest name : List ℕ)
    → copies_fit type (c ∷ rest) name ≡ true
    → name ≢ []
    → IsEntry (new_slot sys type mode name (parent_of type (c ∷ rest)))
copies_fit-IsEntry sys fs_dir mode c rest name fits ne =
    new_slot-IsEntry sys fs_dir mode name root_path ne (ground arith) (omega arith)
copies_fit-IsEntry sys fs_file mode c rest name fits ne =
    new_slot-IsEntry sys fs_file mode name _ ne (ground arith) (length-parent c rest (ground arith))

written-Same :
    (sys : Sys) (buffer : List ℕ) (size offset : ℕ) (slot : Slot)
    → Same slot (record slot { inode = written sys buffer size offset slot.inode })
unfolding written
written-Same sys buffer size offset slot = record {
  same_used = refl;
  same_type = refl;
  same_path = refl;
  same_directory = refl;
  same_length =
      length-set (overwrite offset (strncpy_bytes size buffer) slot.inode.content) _ 0
      ∙ length-overwrite offset (strncpy_bytes size buffer) slot.inode.content;
}

write_at-IsValid :
    (sys : Sys) (buffer : List ℕ) (size offset i : ℕ) (s t : SuperBlock) (r : Reply)
    → IsValid s
    → write_at sys buffer size offset i s ≡ some (t, r)
    → IsValid t
unfolding write_at
write_at-IsValid sys buffer size offset i s t r valid e = elim (Option-cases (get_elem? s i)) [
  | inl p ↦ absurd (ground arith)
  | inr (slot, found) ↦
      ground
        (arith, set-Same-IsValid s valid i slot _ found (written-Same sys buffer size offset slot))
]

pub Name-cases : (n : Name) → (n ≡ fault) ⊎ (n ≡ null) ⊎ ((name : List ℕ) × (n ≡ str name))
Name-cases fault = inl refl
Name-cases null = inr (inl refl)
Name-cases (str name) = inr (inr (name, refl))

pub Index-cases : (x : Index) → (x ≡ invalid) ⊎ (x ≡ missing) ⊎ ((i : ℕ) × (x ≡ at i))
Index-cases invalid = inl refl
Index-cases missing = inr (inl refl)
Index-cases (at i) = inr (inr (i, refl))

Outcome-cases : (x : Outcome) → (x ≡ none) ⊎ ((t : SuperBlock) × (r : Reply) × (x ≡ some (t, r)))
Outcome-cases none = inl refl
Outcome-cases (some (t, r)) = inr (t, r, refl)

pub create_file-IsValid :
    (sys : Sys) (path : List ℕ) (mode : ℕ) (type : InodeType) (s t : SuperBlock) (r : Reply)
    → IsValid s
    → create_file sys path mode type s ≡ some (t, r)
    → IsValid t
unfolding create_file
create_file-IsValid sys [] mode type s t r valid e = ground arith
create_file-IsValid sys (c ∷ rest) mode type s t r valid e =
    elim (Name-cases (remove_slash sys (c ∷ rest))) [
      | inl p ↦ ground arith
      | inr (inl p) ↦ ground arith
      | inr (inr (name, p)) ↦ ground (
        arith,
        place-IsValid s t r name (copies_fit type (c ∷ rest) name) _ valid refl
            (copies_fit-IsEntry sys type mode c rest name),
      )
    ]

create_dir-IsValid :
    (sys : Sys) (path : List ℕ) (mode : ℕ) (s t : SuperBlock) (r : Reply)
    → IsValid s
    → create_dir sys path mode s ≡ some (t, r)
    → IsValid t
unfolding create_dir
create_dir-IsValid sys [] mode s t r valid e = ground arith
create_dir-IsValid sys (c ∷ rest) mode s t r valid e =
    elim (Name-cases (remove_slash sys (c ∷ rest))) [
      | inl p ↦ ground arith
      | inr (inl p) ↦ ground arith
      | inr (inr (name, p)) ↦ ground (
        arith,
        place-IsValid s t r name (copies_fit fs_file (c ∷ rest) name) _ valid refl
            (copied_dir-IsEntry sys mode c rest name),
      )
    ]

write_found-IsValid :
    (sys : Sys) (buffer : List ℕ) (size offset : ℕ) (x : Index) (s t : SuperBlock) (r : Reply)
    → IsValid s
    → write_found sys buffer size offset x s ≡ some (t, r)
    → IsValid t
write_found-IsValid sys buffer size offset invalid s t r valid e = cc
write_found-IsValid sys buffer size offset missing s t r valid e = ground arith
write_found-IsValid sys buffer size offset (at i) s t r valid e =
    write_at-IsValid sys buffer size offset i s t r valid e

pub write_file-IsValid :
    (sys : Sys) (path buffer : List ℕ) (size offset : ℕ) (s t : SuperBlock) (r : Reply)
    → IsValid s
    → write_file sys path buffer size offset s ≡ some (t, r)
    → IsValid t
unfolding write_file
write_file-IsValid sys path buffer size offset s t r valid e =
    elim (Index-cases (get_index_inodo sys path s)) [
      | inl p ↦ ground arith
      | inr (inl p) ↦ elim (Outcome-cases (create_file sys path 0o644 fs_file s)) [
        | inl q ↦ ground arith
        | inr (u, y, q) ↦
            let made = create_file-IsValid sys path 0o644 fs_file s u y valid q in
            ground (
              arith,
              made,
              write_found-IsValid sys buffer size offset (get_index_inodo sys path u) u t r made,
            )
      ]
      | inr (inr (i, p)) ↦ ground (arith, write_at-IsValid sys buffer size offset i s t r valid)
    ]
