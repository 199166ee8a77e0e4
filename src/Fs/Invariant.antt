-- ===== src/Fs/Invariant.antt =====
-- The invariant of the inode table, and what keeps it when one entry is written.
use sis_ops.Common.{
  ℕ, zero, suc, ◌<◌, ◌≡◌, ◌≢◌, refl, sym, ◌∙◌, ◌⊎◌, inr, [], ◌∷◌, some, arith, get_elem?, set, All,
  All-get, All-set, length, length-set, replicate,
}
use sis_ops.Fs.{fs_dir, Slot, SuperBlock, max_inodes, max_path, max_content, root_path, free_slot}
use sis_ops.Fs.Lookup.{Absent, Distinct}

-- A free entry has the empty name, and an entry in use another; every string fits in its array.
pub record IsEntry (t : Slot) : Type 0 where
  pub named : t.used ≢ 0 → t.inode.path ≢ []
  pub unnamed : t.used ≡ 0 → t.inode.path ≡ []
  pub content_length : length t.inode.content ≡ max_content
  pub path_fits : length t.inode.path < max_path
  pub directory_fits : length t.inode.directory_path < max_path

pub record IsRoot (t : Slot) : Type 0 where
  pub in_use : t.used ≡ 1
  pub is_dir : t.inode.type ≡ fs_dir
  pub is_root : t.inode.path ≡ root_path
  pub no_parent : t.inode.directory_path ≡ []

abbrev pub HasRoot : SuperBlock → Type 0
HasRoot [] = ⊥
HasRoot (t ∷ rest) = IsRoot t

-- 64 entries, the first one the root, with no name twice.
pub record IsValid (s : SuperBlock) : Type 0 where
  pub count : length s ≡ max_inodes
  pub root : HasRoot s
  pub entries : All IsEntry s
  pub distinct : Distinct s

HasRoot-set :
    (s : SuperBlock) (i : ℕ) (v : Slot) → HasRoot s → (i ≡ 0 → IsRoot v) → HasRoot (set s i v)
HasRoot-set [] i v h k = h
HasRoot-set (t ∷ rest) zero v h k = k refl
HasRoot-set (t ∷ rest) (suc i) v h k = h

pub HasRoot-get : (s : SuperBlock) (t : Slot) → HasRoot s → get_elem? s 0 ≡ some t → IsRoot t
HasRoot-get [] t h e = absurd h
HasRoot-get (r ∷ rest) t h e = let p : r ≡ t = cc in rw (← p) h

pub Distinct-free : (n : ℕ) → Distinct (replicate n free_slot)
Distinct-free zero = tt
Distinct-free (suc n) = (λ ne. absurd (ne refl), Distinct-free n)

Distinct-set_new :
    (s : SuperBlock) (i : ℕ) (v : Slot) → Distinct s → Absent v.inode.path s → Distinct (set s i v)
Distinct-set_new [] i v d a = tt
Distinct-set_new (t ∷ rest) zero v d a = (λ _. a.1, d.1)
Distinct-set_new (t ∷ rest) (suc i) v d a = (
  λ ne. All-set (λ u. u.inode.path ≢ t.inode.path) rest i v (d.0 ne) (λ e. a.0 (sym e)),
  Distinct-set_new rest i v d.1 a.1,
)

Distinct-set_empty :
    (s : SuperBlock) (i : ℕ) (v : Slot) → Distinct s → v.inode.path ≡ [] → Distinct (set s i v)
Distinct-set_empty [] i v d a = tt
Distinct-set_empty (t ∷ rest) zero v d a = (λ ne. absurd (ne a), d.1)
Distinct-set_empty (t ∷ rest) (suc i) v d a = (
  λ ne. All-set (λ u. u.inode.path ≢ t.inode.path) rest i v (d.0 ne) (λ e. ne (sym e ∙ a)),
  Distinct-set_empty rest i v d.1 a,
)

Distinct-set_same :
    (s : SuperBlock) (i : ℕ) (u v : Slot)
    → Distinct s
    → get_elem? s i ≡ some u
    → v.inode.path ≡ u.inode.path
    → Distinct (set s i v)
Distinct-set_same [] i u v d e p = tt
Distinct-set_same (t ∷ rest) zero u v d e p =
    let q : t ≡ u = cc in let r : v.inode.path ≡ t.inode.path = rw q p in rw r d
Distinct-set_same (t ∷ rest) (suc i) u v d e p = (
  λ ne.
      All-set (λ w. w.inode.path ≢ t.inode.path) rest i v (d.0 ne)
        (λ q. All-get (λ w. w.inode.path ≢ t.inode.path) rest i u (d.0 ne) e (sym p ∙ q)),
  Distinct-set_same rest i u v d.1 e p,
)

-- An update that leaves the identity of an entry alone.
pub record Same (u v : Slot) : Type 0 where
  pub same_used : v.used ≡ u.used
  pub same_type : v.inode.type ≡ u.inode.type
  pub same_path : v.inode.path ≡ u.inode.path
  pub same_directory : v.inode.directory_path ≡ u.inode.directory_path
  pub same_length : length v.inode.content ≡ length u.inode.content

Same-IsEntry : (u v : Slot) → Same u v → IsEntry u → IsEntry v
Same-IsEntry u v m k = record {
  named = λ h. rw m.same_path (k.named (ground arith));
  unnamed = λ h. rw m.same_path (k.unnamed (ground arith));
  content_length = m.same_length ∙ k.content_length;
  path_fits = rw m.same_path k.path_fits;
  directory_fits = rw m.same_directory k.directory_fits;
}

Same-IsRoot : (u v : Slot) → Same u v → IsRoot u → IsRoot v
Same-IsRoot u v m k = record {
  in_use = m.same_used ∙ k.in_use;
  is_dir = m.same_type ∙ k.is_dir;
  is_root = m.same_path ∙ k.is_root;
  no_parent = m.same_directory ∙ k.no_parent;
}

module _ (s : SuperBlock) (valid : IsValid s) (i : ℕ) (u v : Slot)
    (found : get_elem? s i ≡ some u) where
  pub entry : IsEntry u
  entry = All-get IsEntry s i u valid.entries found

  pub set-Same-IsValid : Same u v → IsValid (set s i v)
  set-Same-IsValid m = record {
    count = length-set s i v ∙ valid.count;
    root =
        HasRoot-set s i v valid.root
          (λ p. Same-IsRoot u v m (HasRoot-get s u valid.root (rw p at found)));
    entries = All-set IsEntry s i v valid.entries (Same-IsEntry u v m entry);
    distinct = Distinct-set_same s i u v valid.distinct found m.same_path;
  }

  pub not_root : (u.inode.type ≢ fs_dir) ⊎ (u.used ≡ 0) → i ≢ 0
  not_root h p =
      let r = HasRoot-get s u valid.root (rw p at found) in ground (arith, r.is_dir, r.in_use)

  pub set_new-IsValid : u.used ≡ 0 → Absent v.inode.path s → IsEntry v → IsValid (set s i v)
  set_new-IsValid free absent ok = record {
    count = length-set s i v ∙ valid.count;
    root = HasRoot-set s i v valid.root (λ p. absurd (not_root (inr free) p));
    entries = All-set IsEntry s i v valid.entries ok;
    distinct = Distinct-set_new s i v valid.distinct absent;
  }

  pub set_free-IsValid : i ≢ 0 → v.inode.path ≡ [] → IsEntry v → IsValid (set s i v)
  set_free-IsValid ne empty ok = record {
    count = length-set s i v ∙ valid.count;
    root = HasRoot-set s i v valid.root (λ p. absurd (ne p));
    entries = All-set IsEntry s i v valid.entries ok;
    distinct = Distinct-set_empty s i v valid.distinct empty;
  }
