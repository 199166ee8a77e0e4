-- ===== src/Fs/Creation.antt =====
-- What a creation does to the table, and which creations fail.
use sis_ops.Common.{
  ℕ, zero, suc, ◌<◌, ◌≡◌, ◌≢◌, refl, sym, ap, ◌∙◌, inl, inr, List, [], ◌∷◌, some, none, Bool, arith,
  get_elem?, set, All-get, length, get_elem?-set_self, get_elem?-set_ne, Bool-cases, str_eq,
  str_eq→eq,
}
use sis_ops.Fs.{InodeType, Slot, SuperBlock, Sys, Reply, ok, root_path}
use sis_ops.Fs.Path.{str, at, missing, get_index_inodo, remove_slash, index_from}
use sis_ops.Fs.Table.{next_free_inodo}
use sis_ops.Fs.Ops.{create_file, new_slot, place, copies_fit, parent_of}
use sis_ops.Fs.Lookup.{Absent, At, At-index_from, index_from-none}
use sis_ops.Fs.FreeEntry.{FreeSpec, FirstFree, taken, full, free, next_free_inodo-FreeSpec}
use sis_ops.Fs.Names.{root_path-name}
use sis_ops.Fs.Invariant.{IsValid, entry}
use sis_ops.Fs.Adds.{Name-cases, create_file-IsValid}

pub get_elem?-lt {ℓ} :
    {A : Type ℓ} (xs : List A) (i : ℕ) (v : A) → get_elem? xs i ≡ some v → i < length xs
get_elem?-lt [] i v e = cc
get_elem?-lt (x ∷ xs) zero v e = omega arith
get_elem?-lt (x ∷ xs) (suc i) v e = omega (arith, get_elem?-lt xs i v e)

-- A successful creation has written the entry `v` over the first free one.
record Placed (name : List ℕ) (v : Slot) (s t : SuperBlock) : Type 0 where
  index : ℕ
  absent : Absent name s
  first : FirstFree s index
  table : t ≡ set s index v

place-Placed :
    (name : List ℕ) (fits : Bool) (v : Slot) (s t : SuperBlock) (r : ℕ)
    → place name fits v s ≡ some (t, ok r)
    → Placed name v s t
unfolding place
place-Placed name fits v s t r e =
    go (next_free_inodo name s) refl (next_free_inodo-FreeSpec name s)
  where
    go : (x : Reply) → next_free_inodo name s ≡ x → FreeSpec name s x → Placed name v s t
    go x p (taken i a) = absurd (ground arith)
    go x p (full a all) = absurd (ground arith)
    go x p (free i a f) = record { index = i; absent = a; first = f; table = ground arith }

-- The result of a creation, beside the table that it started from.
pub record Created (sys : Sys) (path : List ℕ) (mode : ℕ) (type : InodeType) (s t : SuperBlock)
    : Type 0 where
  pub index : ℕ
  pub name : List ℕ
  pub named : remove_slash sys path ≡ str name
  pub nonempty : name ≢ []
  pub was_missing : get_index_inodo sys path s ≡ missing
  pub first : FirstFree s index
  pub now_found : get_index_inodo sys path t ≡ at index
  pub holds : get_elem? t index ≡ some (new_slot sys type mode name (parent_of type path))
  pub others : (j : ℕ) → index ≢ j → get_elem? t j ≡ get_elem? s j

pub new_slot-path :
    (sys : Sys) (type : InodeType) (mode : ℕ) (name parent : List ℕ)
    → (new_slot sys type mode name parent).inode.path ≡ name
unfolding new_slot
new_slot-path sys type mode name parent = refl

pub get_index-name :
    (sys : Sys) (path name : List ℕ) (s : SuperBlock)
    → remove_slash sys path ≡ str name
    → name ≢ []
    → (index_from name 0 s ≡ none → get_index_inodo sys path s ≡ missing)
      × ((i : ℕ) → index_from name 0 s ≡ some i → get_index_inodo sys path s ≡ at i)
unfolding get_index_inodo
get_index-name sys path name s p ne = elim (Bool-cases (str_eq path root_path)) [
  | inl hit ↦
      let e = str_eq→eq path root_path hit in absurd (ne (root_path-name sys name (rw (← e) p)))
  | inr miss ↦ (λ e. ground arith, λ i e. ground arith)
]

-- A creation that succeeds found no inode at the path; it has filled the first free entry with an
-- empty inode of the given type and mode, owned by the caller, that the path leads to from now on,
-- and every other entry is as it was.
pub create_file-Created :
    (sys : Sys) (path : List ℕ) (mode : ℕ) (type : InodeType) (s t : SuperBlock) (r : ℕ)
    → IsValid s
    → create_file sys path mode type s ≡ some (t, ok r)
    → Created sys path mode type s t
create_file-Created sys path mode type s t r valid e = elim (Name-cases (remove_slash sys path)) [
  | inl p ↦ absurd (unfold create_file in ground arith)
  | inr (inl p) ↦ absurd (unfold create_file in ground arith)
  | inr (inr (name, p)) ↦ go name p
]
  where
    go : (name : List ℕ) → remove_slash sys path ≡ str name → Created sys path mode type s t
    go name p =
        let v = new_slot sys type mode name (parent_of type path) in
        let placed : Placed name v s t =
          place-Placed name (copies_fit type path name) v s t r
            (unfold create_file in ground arith) in
        let i = placed.index in
        let u = placed.first.slot in
        let old = placed.first.found in
        let ne : name ≢ [] = λ q.
          All-get (λ w. w.inode.path ≢ name) s i u placed.absent old
            ((entry s valid i u u old).unnamed placed.first.free ∙ sym q) in
        let holds : get_elem? t i ≡ some v =
          rw placed.table (get_elem?-set_self s i v (get_elem?-lt s i u old)) in
        let at_i : At name t i = record {
          slot = v;
          found = holds;
          named = new_slot-path sys type mode name (parent_of type path);
        } in
        let valid' = create_file-IsValid sys path mode type s t (ok r) valid e in
        record {
          index = i;
          name = name;
          named = p;
          nonempty = ne;
          was_missing =
              (get_index-name sys path name s p ne).0 (index_from-none name 0 s placed.absent);
          first = placed.first;
          now_found =
              (get_index-name sys path name t p ne).1 i
                (At-index_from name 0 t i valid'.distinct ne at_i ∙ ap some (omega arith));
          holds = holds;
          others = λ j k. rw placed.table (get_elem?-set_ne s v k);
        }
