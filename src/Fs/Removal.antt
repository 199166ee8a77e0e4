-- ===== src/Fs/Removal.antt =====
-- What `unlink` and `rmdir` take away, and what they leave.
use sis_ops.Common.{
  ℕ, zero, suc, ◌≡◌, ◌≢◌, sym, ap, ◌∙◌, inl, inr, List, [], ◌∷◌, some, true, arith, get_elem?, set,
  All-get, option_eq, get_elem?-set_self, get_elem?-set_ne, Option-cases, str_eq_refl,
}
use sis_ops.Fs.{fs_dir, fs_file, Slot, SuperBlock, Sys, ok, err, enotempty}
use sis_ops.Fs.Path.{at, missing, str, get_index_inodo, remove_slash, index_from}
use sis_ops.Fs.Ops.{unlink, unlinked, delete_dir, has_entries}
use sis_ops.Fs.Lookup.{Absent, Distinct, At, index_from-none, index_from-At}
use sis_ops.Fs.Invariant.{IsValid}
use sis_ops.Fs.Adds.{Index-cases}
use sis_ops.Fs.Creation.{get_elem?-lt, get_index-name}

-- Once its bearer is renamed, a name is nowhere in a table of distinct names.
Absent-set :
    (name : List ℕ) (i : ℕ) (s : SuperBlock) (v : Slot)
    → Distinct s
    → name ≢ []
    → At name s i
    → v.inode.path ≢ name
    → Absent name (set s i v)
Absent-set name i [] v d ne a nv = tt
Absent-set name zero (t ∷ rest) v d ne a nv =
    let p : t.inode.path ≡ name = ap (λ w. w.inode.path) (option_eq t a.slot a.found) ∙ a.named in
    (nv, rw p at (d.0 (λ q. ne (sym p ∙ q))))
Absent-set name (suc i) (t ∷ rest) v d ne a nv =
    let a' : At name rest i = record { slot = a.slot; found = a.found; named = a.named } in
    (
      λ p.
          All-get (λ w. w.inode.path ≢ t.inode.path) rest i a.slot (d.0 (λ q. ne (sym p ∙ q)))
            a.found (a.named ∙ sym p),
      Absent-set name i rest v d.1 ne a' nv,
    )

-- What a lookup of a nonempty name means.
get_index-At :
    (sys : Sys) (path name : List ℕ) (s : SuperBlock) (i : ℕ)
    → remove_slash sys path ≡ str name
    → name ≢ []
    → get_index_inodo sys path s ≡ at i
    → At name s i
get_index-At sys path name s i p ne e = elim (Option-cases (index_from name 0 s)) [
  | inl q ↦ absurd (cc ((get_index-name sys path name s p ne).0 q))
  | inr (k, q) ↦
      let (d, kd, a) = index_from-At name 0 s k q in
      let e' = (get_index-name sys path name s p ne).1 k q in
      let same : d ≡ i = ground arith in rw same at a
]

-- The result of an `unlink`.
pub record Unlinked (sys : Sys) (path : List ℕ) (s t : SuperBlock) : Type 0 where
  pub index : ℕ
  pub slot : Slot
  pub was_found : get_index_inodo sys path s ≡ at index
  pub held : get_elem? s index ≡ some slot
  pub was_file : slot.inode.type ≡ fs_file
  pub now_holds : get_elem? t index ≡ some (unlinked slot)
  pub others : (j : ℕ) → index ≢ j → get_elem? t j ≡ get_elem? s j
  pub now_missing :
      (name : List ℕ)
      → remove_slash sys path ≡ str name
      → name ≢ []
      → get_index_inodo sys path t ≡ missing

-- An `unlink` that succeeds was of a file; it has freed that file's entry and no other, and a path
-- whose last component is not empty leads nowhere any more.
pub unlink-Unlinked :
    (sys : Sys) (path : List ℕ) (s t : SuperBlock) (r : ℕ)
    → IsValid s
    → unlink sys path s ≡ some (t, ok r)
    → Unlinked sys path s t
unfolding unlink
unlink-Unlinked sys path s t r valid e = elim (Index-cases (get_index_inodo sys path s)) [
  | inl p ↦ absurd (ground arith)
  | inr (inl p) ↦ absurd (ground arith)
  | inr (inr (i, p)) ↦ elim (Option-cases (get_elem? s i)) [
    | inl q ↦ absurd (ground arith)
    | inr (slot, q) ↦
        let table : t ≡ set s i (unlinked slot) = ground arith in
        record {
          index = i;
          slot = slot;
          was_found = p;
          held = q;
          was_file = ground arith;
          now_holds = rw table (get_elem?-set_self s i (unlinked slot) (get_elem?-lt s i slot q));
          others = λ j k. rw table (get_elem?-set_ne s (unlinked slot) k);
          now_missing = λ name n ne.
              let a = get_index-At sys path name s i n ne p in
              (get_index-name sys path name t n ne).0 (
                index_from-none name 0 t (
                  rw table (
                    Absent-set name i s (unlinked slot) valid.distinct ne a
                      (unfold unlinked in λ c. ne (sym c)))));
        }
  ]
]

has_entries-at :
    (name : List ℕ) (s : SuperBlock) (i : ℕ) (slot : Slot)
    → get_elem? s i ≡ some slot
    → slot.inode.directory_path ≡ name
    → has_entries name s ≡ true
unfolding has_entries
has_entries-at name [] i slot e p = cc
has_entries-at name (t ∷ rest) zero slot e p = ground (arith, str_eq_refl name)
has_entries-at name (t ∷ rest) (suc i) slot e p =
    ground (arith, has_entries-at name rest i slot e p)

-- In a valid table, after an unlink of a file whose directory_path is the last component of the path of a directory, as it
-- is for a file of a directory directly under the root, that directory cannot be removed, even if that was
-- its only file: the freed entry still names it. (`dir` is the directory's path and `name` its last
-- component.)
pub delete_dir-unlink :
    (sys : Sys) (path dir name : List ℕ) (s t : SuperBlock) (i j : ℕ) (file folder : Slot) (r : ℕ)
    → IsValid s
    → unlink sys path s ≡ some (t, ok r)
    → get_index_inodo sys path s ≡ at i
    → get_elem? s i ≡ some file
    → file.inode.directory_path ≡ name
    → remove_slash sys dir ≡ str name
    → get_index_inodo sys dir t ≡ at j
    → get_elem? t j ≡ some folder
    → folder.inode.type ≡ fs_dir
    → delete_dir sys dir t ≡ some (t, err enotempty)
unfolding delete_dir unlinked
delete_dir-unlink sys path dir name s t i j file folder r valid e p held inside n q found is_dir =
    let u = unlink-Unlinked sys path s t r valid e in
    let same : u.index ≡ i = ground (arith, u.was_found) in
    let same_slot : u.slot ≡ file = ground (arith, u.held) in
    let stale = has_entries-at name t u.index (unlinked u.slot) u.now_holds (rw same_slot inside) in
    ground (arith, stale)
