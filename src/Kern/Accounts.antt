-- ===== src/Kern/Accounts.antt =====
-- The memory with the page directories of all environments: the reference count of each page is the
-- number of references there are.
use sis_ops.Common.{
  ℕ, ◌+◌, ◌%◌, ◌<◌, ◌≤◌, ◌≡◌, ◌≢◌, refl, inl, inr, List, [], ◌∷◌, none, true, ◌==◌, ltb, some, ◌⊎◌,
  arith, Bool-cases, get_elem?,
}
use sis_ops.Kern.Links.{Distinct}
use sis_ops.Kern.Pages.{PageInfo, Pages}
use sis_ops.Kern.FreePages.{Free}
use sis_ops.Kern.Paging.{pgnum, Memory}
use sis_ops.Kern.AddressMap.{user_tables, Words}
use sis_ops.Kern.Mapping.{Used, IsSpace}
use sis_ops.Kern.Walking.{Used-busy}
use sis_ops.Kern.Counting.{In, times, rows, rows-pos, In-differs}

-- How often a page is referred to: as a directory, in the user's part of a directory, and in a table.
abbrev pub refs : Words → List ℕ → List ℕ → ℕ → ℕ
refs w ds ts p = times p ds + rows w user_tables ds p + rows w 1024 ts p

-- The directories `ds` and the page tables `ts`: each table is that of one entry of one directory, and an
-- entry that is not zero has PTE_P.
pub record Shape (w : Words) (ds ts : List ℕ) : Type 0 where
  pub dirs : Distinct ds
  pub tables : Distinct ts
  pub apart : (t d : ℕ) → In t ts → In d ds → t ≢ d
  pub table : (d i : ℕ) → In d ds → i < user_tables → w d i ≢ 0 → In (pgnum (w d i)) ts
  pub once :
      (d e i k : ℕ)
      → In d ds
      → In e ds
      → i < user_tables
      → k < user_tables
      → w d i ≢ 0
      → w e k ≢ 0
      → pgnum (w d i) ≡ pgnum (w e k)
      → (d ≡ e) × (i ≡ k)
  pub owned :
      (t : ℕ)
      → In t ts
      → (d : ℕ) × (i : ℕ) × In d ds × (i < user_tables) × (w d i ≢ 0) × (pgnum (w d i) ≡ t)
  pub wide : (t j : ℕ) → In t ts → 1024 ≤ j → w t j ≡ 0
  pub odd_dir : (d i : ℕ) → In d ds → i < user_tables → w d i ≢ 0 → w d i % 2 ≡ 1
  pub odd_table : (t j : ℕ) → In t ts → w t j ≢ 0 → w t j % 2 ≡ 1

-- What a page that is referred to so often is like.
abbrev pub Counted : Pages → ℕ → ℕ → Type 0
Counted k p n =
    0 < n
    → (i : PageInfo) × (get_elem? k.pages p ≡ some i)
      × (i.pp_link ≡ none)
      × (i.pp_ref ≡ n)
      × (i.pp_ref < 65536)

-- The directories and tables, with the free pages `is`. `held` has the references that the kernel holds
-- besides, while it works.
pub record IsMemory (m : Memory) (ds ts is : List ℕ) (held : ℕ → ℕ) : Type 0 where
  pub free : Free m.alloc is
  pub shape : Shape m.words ds ts
  pub open shape use *
  pub counted : (p : ℕ) → Counted m.alloc p (refs m.words ds ts p + held p)

-- A page that is not lost: it is free, or it is referred to.
abbrev pub Live : Words → List ℕ → List ℕ → List ℕ → (ℕ → ℕ) → ℕ → Type 0
Live w ds ts is held p = In p is ⊎ (0 < refs w ds ts p + held p)

times-pos : (p : ℕ) (qs : List ℕ) → In p qs → 0 < times p qs
unfolding times
times-pos p [] i = absurd i
times-pos p (q ∷ qs) (inl e) = let t : (q == p) ≡ true = ground arith in rw t (omega arith)
times-pos p (q ∷ qs) (inr i) = let rest = times-pos p qs i in omega (arith, rest)

module _ (m : Memory) (ds ts is : List ℕ) (held : ℕ → ℕ) (v : IsMemory m ds ts is held) where
  pub counted-Used : (p : ℕ) → 0 < refs m.words ds ts p + held p → Used m.alloc p
  counted-Used p h = let c = v.counted p h in (c.0, c.1, c.2, (let e = c.3 in omega arith), c.4)

  pub dir-refs : (d : ℕ) → In d ds → 0 < refs m.words ds ts d
  dir-refs d i = let t = times-pos d ds i in omega (arith, t)

  pub table-refs : (t : ℕ) → In t ts → 0 < refs m.words ds ts t
  table-refs t i =
      let o = v.owned t i in
      let r = rows-pos m.words user_tables ds o.0 o.1 o.2 o.3 o.4 in
      let h : 0 < rows m.words user_tables ds t = rw (← o.5) r in omega (arith, h)

  pub mapped-refs :
      (t j : ℕ) → In t ts → m.words t j ≢ 0 → 0 < refs m.words ds ts (pgnum (m.words t j))
  mapped-refs t j i e = elim (Bool-cases (ltb j 1024)) [
    | inl low ↦ let r = rows-pos m.words 1024 ts t j i (ground arith) e in omega (arith, r)
    | inr high ↦ absurd (e (v.wide t j i (ground arith)))
  ]

  -- A free page is not referred to.
  pub free-refs : (p : ℕ) → In p is → refs m.words ds ts p + held p ≡ 0
  free-refs p i = elim (Bool-cases (ltb 0 (refs m.words ds ts p + held p))) [
    | inl some_ ↦
        let u = counted-Used p (ground arith) in
        absurd (In-differs p p is (Used-busy m.alloc p is v.free u) i refl)
    | inr none_ ↦ ground arith
  ]

  -- Each directory is a space of its own.
  pub IsMemory-IsSpace : (d : ℕ) → In d ds → IsSpace m d is
  IsMemory-IsSpace d i = record {
    free = v.free;
    dir = counted-Used d (let r = dir-refs d i in omega (arith, r));
    tables = record {
      apart = λ k h e. v.apart (pgnum (m.words d k)) d (v.table d k i h e) i;
      distinct = λ k l hk hl ek el same. (v.once d d k l i i hk hl ek el same).1;
    };
    table = λ k h e.
        let r = table-refs (pgnum (m.words d k)) (v.table d k i h e) in
        counted-Used (pgnum (m.words d k)) (omega (arith, r));
    mapped = λ k j h e n.
        let r = mapped-refs (pgnum (m.words d k)) j (v.table d k i h e) n in
        counted-Used (pgnum (m.words (pgnum (m.words d k)) j)) (omega (arith, r));
  }
