-- ===== src/Kern/Insertion.antt =====
-- `page_insert` of sched/kern/pmap.c, as an update of the map that a page directory stands for.
use Prim.Native.Nat.{bit_or}
use sis_ops.Common.{
  ◌⊎◌, ℕ, ◌+◌, ◌*◌, ◌/◌, ◌%◌, ◌<◌, ◌≡◌, ◌≢◌, sym, ap, ◌∙◌, inl, inr, List, [], Option, some, none,
  Bool, true, false, if◌then◌else◌, ◌==◌, arith, Bool-cases, length, get_elem?, All,
}
use sis_ops.Common.Bits.{bit_or-page, bit_or-one, bit_or-zero}
use sis_ops.Kern.{e_no_mem}
use sis_ops.Kern.Pages.{PageInfo, Pages, done}
use sis_ops.Kern.FreePages.{Free, get_elem?-lt}
use sis_ops.Kern.Paging.{
  pdx, ptx, pgnum, pte_p, Memory, store, incref, pgdir_walk, page_remove, page_insert,
}
use sis_ops.Kern.AddressMap.{
  utop, user_tables, Words, same_page, nonzero, entry_of, Tables, put, entry_of-put,
}
use sis_ops.Kern.Mapping.{Used, Used-lt, IsSpace, Removed, incref-Used, page_remove-Removed}
use sis_ops.Kern.Walking.{Walked, Used-others, walk_create}

-- `page2pa(pp) | perm | PTE_P`
abbrev pub page_entry : ℕ → ℕ → ℕ
page_entry pp perm = bit_or (bit_or (pp * 4096) perm) pte_p

page_entry_flags : (pp perm : ℕ) → perm < 4096 → page_entry pp perm ≡ pp * 4096 + perm / 2 * 2 + 1
page_entry_flags pp perm h =
    let z : perm / 4096 ≡ 0 = omega arith in
    let flags = bit_or-page pp perm in
    let high = ap (bit_or pp) z ∙ bit_or-zero pp in
    omega (arith, bit_or-one (bit_or (pp * 4096) perm))

-- Flags past the low 12 bits change the page.
pub pgnum-page_entry : (pp perm : ℕ) → pgnum (page_entry pp perm) ≡ bit_or pp (perm / 4096)
pgnum-page_entry pp perm = omega (arith, bit_or-page pp perm, bit_or-one (bit_or (pp * 4096) perm))

pub page_entry-ne-zero : (pp perm : ℕ) → page_entry pp perm ≢ 0
page_entry-ne-zero pp perm = λ e. omega (arith, bit_or-one (bit_or (pp * 4096) perm))

pub odd_page_entry : (pp perm : ℕ) → page_entry pp perm % 2 ≡ 1
odd_page_entry pp perm = omega (arith, bit_or-one (bit_or (pp * 4096) perm))

pub page_insert-none :
    (m m' : Memory) (d pp va perm : ℕ)
    → pgdir_walk m d va true ≡ done (none, m')
    → page_insert m d pp va perm ≡ done (some e_no_mem, m')
unfolding page_insert
page_insert-none m m' d pp va perm e = ground arith

pub page_insert-some :
    (m m1 m2 : Memory) (k : Pages) (d pp va perm t j : ℕ)
    → pgdir_walk m d va true ≡ done (some (t, j), m1)
    → incref pp m1.alloc ≡ done k
    → page_remove (record m1 { alloc = k }) d va ≡ done m2
    → page_insert m d pp va perm ≡ done (none, store m2 t j (page_entry pp perm))
unfolding page_insert
page_insert-some m m1 m2 k d pp va perm t j a b c = ground arith

Tables-same : (w x : Words) (d : ℕ) → ((i : ℕ) → x d i ≡ w d i) → Tables w d → Tables x d
Tables-same w x d e t = record {
  apart = λ i h n. let same = e i in rw same (t.apart i h (λ z. n (same ∙ z)));
  distinct = λ i k hi hk ni nk s.
      t.distinct i k hi hk (λ z. ni (e i ∙ z)) (λ z. nk (e k ∙ z))
        (ap pgnum (sym (e i)) ∙ s ∙ ap pgnum (e k));
}

-- What an insertion that succeeds leaves: the map with the new entry, in a table among the pages.
pub record Inserted (m : Memory) (d pp va perm : ℕ) (m' : Memory) : Type 0 where
  pub done_ : page_insert m d pp va perm ≡ done (none, m')
  pub entries :
      (vb : ℕ)
      → vb < utop
      → entry_of m'.words d vb
        ≡ (if same_page va vb then some (page_entry pp perm) else entry_of m.words d vb)
  pub table : pgnum (m'.words d (pdx va)) < length m'.alloc.pages
  pub page : pp < length m'.alloc.pages

nonzero-page_entry : (pp perm : ℕ) → nonzero (page_entry pp perm) ≡ some (page_entry pp perm)
nonzero-page_entry pp perm = let n = page_entry-ne-zero pp perm in ground arith

-- Removal and then entry is entry.
over :
    (pp perm : ℕ) (after before : Option ℕ) (same : Bool)
    → after ≡ (if same then none else before)
    → (if same then nonzero (page_entry pp perm) else after)
      ≡ (if same then some (page_entry pp perm) else before)
over pp perm after before true e = nonzero-page_entry pp perm
over pp perm after before false e = e

module _ (m : Memory) (d va pp perm : ℕ) (p : PageInfo) (is : List ℕ) (h : va < utop)
    (busy : All (λ i. i ≢ pp) is) (here : get_elem? m.alloc.pages pp ≡ some p)
    (alone : p.pp_link ≡ none) (room : p.pp_ref < 65535) where
  -- Once the entry is at hand, the rest of `page_insert` cannot fail.
  insert-Walked : Walked m d va is → (m' : Memory) × Inserted m d pp va perm m'
  insert-Walked g = (
    store m2 t (ptx va) (page_entry pp perm),
    record {
      done_ = inserted;
      entries = entries;
      table = rw (same_dir, same_count, dir) (Used-lt m1.alloc _ (g.space.table (pdx va) i g.here));
      page = rw (same_count) (get_elem?-lt m1.alloc.pages pp p (g.others pp busy ∙ here));
    },
  )
    where
      m1 : Memory
      m1 = g.mem

      bumped :
          (k' : Pages) × (incref pp m1.alloc ≡ done k')
          × Free k' g.left
          × (length k'.pages ≡ length m1.alloc.pages)
          × Used k' pp
          × ((j : ℕ) → j ≢ pp → get_elem? k'.pages j ≡ get_elem? m1.alloc.pages j)
      bumped =
          incref-Used m1.alloc pp p g.left g.space.free (g.fewer pp busy) (g.others pp busy ∙ here)
            alone room

      used : (x : ℕ) → Used m1.alloc x → Used bumped.0 x
      used x u = elim (Bool-cases (x == pp)) [
        | inl at ↦ let e : x ≡ pp = ground arith in rw e bumped.4
        | inr off ↦ Used-others m1.alloc bumped.0 x (bumped.5 x (λ e. ground arith)) u
      ]

      i : pdx va < user_tables
      i = omega arith

      removed :
          (m2 : Memory) × (page_remove (record m1 { alloc = bumped.0 }) d va ≡ done m2)
          × Removed (record m1 { alloc = bumped.0 }) d va m2
      removed =
          page_remove-Removed (record m1 { alloc = bumped.0 }) d va g.left h bumped.2 g.space.tables
            (λ e. used _ (g.space.table (pdx va) i e))
            (λ e n. used _ (g.space.mapped (pdx va) (ptx va) i e n))

      m2 : Memory
      m2 = removed.0

      dir : m2.words d (pdx va) ≡ m1.words d (pdx va)
      dir = removed.2.dirs (pdx va)

      t : ℕ
      t = pgnum (m2.words d (pdx va))

      same_dir : put m2.words t (ptx va) (page_entry pp perm) d (pdx va) ≡ m2.words d (pdx va)
      same_dir = let apart = g.space.tables.apart (pdx va) i g.here in ground (arith, dir)

      same_count : length m2.alloc.pages ≡ length m1.alloc.pages
      same_count = removed.2.count ∙ bumped.3

      inserted : page_insert m d pp va perm ≡ done (none, store m2 t (ptx va) (page_entry pp perm))
      inserted =
          page_insert-some m m1 m2 bumped.0 d pp va perm t (ptx va)
            (g.walk ∙ ap (λ (x : ℕ). done (some (pgnum x, ptx va), m1)) (sym dir)) bumped.1
            removed.1

      entries :
          (vb : ℕ)
          → vb < utop
          → entry_of (put m2.words t (ptx va) (page_entry pp perm)) d vb
            ≡ (if same_page va vb then some (page_entry pp perm) else entry_of m.words d vb)
      entries vb hb =
          entry_of-put m2.words d va vb (page_entry pp perm)
            (Tables-same m1.words m2.words d removed.2.dirs g.space.tables) h hb
            (λ z. g.here (sym dir ∙ z))
          ∙ over pp perm (entry_of m2.words d vb) (entry_of m.words d vb) (same_page va vb) (
              removed.2.entries vb hb
              ∙ ap (λ (o : Option ℕ). if same_page va vb then none else o) (g.entries vb hb))

  -- `page_insert` maps the page at the address, leaving every other address; it fails, and changes
  -- nothing, only where a page table is missing and no page is free.
  pub page_insert-Inserted :
      IsSpace m d is
      → ((m' : Memory) × Inserted m d pp va perm m')
        ⊎ ((is ≡ [])
            × (m.words d (pdx va) ≡ 0)
            × (page_insert m d pp va perm ≡ done (some e_no_mem, m)))
  page_insert-Inserted s = elim (walk_create m d va is s h) [
    | inl g ↦ inl (insert-Walked g)
    | inr r ↦ inr (r.0, r.1, page_insert-none m m d pp va perm r.2)
  ]
