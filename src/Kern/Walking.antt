-- ===== src/Kern/Walking.antt =====
-- The page table that `pgdir_walk` adds where there is none.
use sis_ops.Common.{
  ◌⊎◌, ℕ, ◌<◌, ◌≡◌, ◌≢◌, refl, sym, ap, ◌∙◌, inl, inr, List, [], ◌∷◌, some, true, if◌then◌else◌,
  ◌==◌, arith, Bool-cases, length, length-set, get_elem?, set, get_elem?-set_self, get_elem?-set_ne,
  ◌+◌, ◌%◌, none, All,
}
use sis_ops.Kern.Pages.{PageInfo, Pages, done, page_alloc}
use sis_ops.Kern.FreePages.{
  Free, Free-set, in_use, page_alloc-Free, page_alloc-others, get_elem?-lt,
}
use sis_ops.Kern.Paging.{
  pdx, ptx, pgnum, Memory, clear, incref, page_alloc_zero, table_entry, add_table, pgdir_walk,
}
use sis_ops.Kern.AddressMap.{
  utop, user_tables, entry_of, Tables, grown, pgnum-table_entry, grown-dir, grown-old, grown-new,
  grown-Tables, entry_of-grown,
}
use sis_ops.Kern.Mapping.{Used, Used-lt, IsSpace, incref-some, walk_present}

pub Used-busy : (k : Pages) (i : ℕ) (is : List ℕ) → Free k is → Used k i → All (λ j. j ≢ i) is
Used-busy k i is f u = in_use k i u.0 is u.1 u.3 f.unused

pub page_alloc_zero-some :
    (m : Memory) (p : ℕ) (k : Pages)
    → page_alloc m.alloc ≡ done (some p, k)
    → page_alloc_zero m ≡ done (some p, clear (record m { alloc = k }) p)
unfolding page_alloc_zero
page_alloc_zero-some m p k e = ground arith

pub page_alloc_zero-none :
    (m : Memory) → page_alloc m.alloc ≡ done (none, m.alloc) → page_alloc_zero m ≡ done (none, m)
unfolding page_alloc_zero
page_alloc_zero-none m e = ground arith

abbrev pub with_table : Memory → ℕ → ℕ → ℕ → Pages → Memory
with_table m d va p k = record m { alloc = k; words = grown m.words d (pdx va) p }

pub add_table-some :
    (m : Memory) (d va p : ℕ) (k k' : Pages)
    → m.words d (pdx va) ≡ 0
    → page_alloc_zero m ≡ done (some p, clear (record m { alloc = k }) p)
    → incref p k ≡ done k'
    → add_table m d va true ≡ done (with_table m d va p k')
unfolding add_table
add_table-some m d va p k k' z a i = ground arith

pub add_table-none :
    (m : Memory) (d va : ℕ)
    → m.words d (pdx va) ≡ 0
    → page_alloc_zero m ≡ done (none, m)
    → add_table m d va true ≡ done m
unfolding add_table
add_table-none m d va z a = ground arith

pub pgdir_walk-table :
    (m m' : Memory) (d va : ℕ)
    → add_table m d va true ≡ done m'
    → m'.words d (pdx va) ≢ 0
    → pgnum (m'.words d (pdx va)) < length m'.alloc.pages
    → pgdir_walk m d va true ≡ done (some (pgnum (m'.words d (pdx va)), ptx va), m')
unfolding pgdir_walk
pgdir_walk-table m m' d va a e h = ground arith

pub pgdir_walk-none :
    (m m' : Memory) (d va : ℕ)
    → add_table m d va true ≡ done m'
    → m'.words d (pdx va) ≡ 0
    → pgdir_walk m d va true ≡ done (none, m')
unfolding pgdir_walk
pgdir_walk-none m m' d va a e = ground arith

-- A free page, taken and referred to once.
pub record Taken (k : Pages) (p : ℕ) (ps : List ℕ) : Type 0 where
  pub got : Pages
  pub held : Pages
  pub alloc : page_alloc k ≡ done (some p, got)
  pub refer : incref p got ≡ done held
  pub free : Free held ps
  pub used : Used held p
  pub once :
      (i : PageInfo) × (get_elem? held.pages p ≡ some i) × (i.pp_link ≡ none) × (i.pp_ref ≡ 1)
  pub count : length held.pages ≡ length k.pages
  pub others : (j : ℕ) → j ≢ p → get_elem? held.pages j ≡ get_elem? k.pages j

pub take_page : (k : Pages) (p : ℕ) (ps : List ℕ) → Free k (p ∷ ps) → Taken k p ps
take_page k p ps f =
    let h = page_alloc-Free k (p ∷ ps) f in
    let i : PageInfo = record h.3.0 { pp_ref = (h.3.0.pp_ref + 1) % 65536 } in
    let here = get_elem?-set_self h.0.pages p i (get_elem?-lt h.0.pages p h.3.0 h.3.1) in
    let one : i.pp_ref ≡ 1 = omega (arith, h.3.3) in
    record {
      got = h.0;
      held = record h.0 { pages = set h.0.pages p i };
      alloc = h.1;
      refer = incref-some h.0 p h.3.0 h.3.1;
      free = Free-set h.0 p i ps f.distinct.0 h.2;
      used = (i, here, h.3.2, omega (arith, one), omega (arith, one));
      once = (i, here, h.3.2, one);
      count = length-set h.0.pages p i ∙ h.4;
      others = λ j ne.
          get_elem?-set_ne h.0.pages i (λ e. ne (sym e)) ∙ page_alloc-others k h.0 p j h.1 ne;
    }

pub Used-others :
    (k k' : Pages) (j : ℕ) → get_elem? k'.pages j ≡ get_elem? k.pages j → Used k j → Used k' j
Used-others k k' j e u = (u.0, e ∙ u.1, u.2, u.3, u.4)

-- What `pgdir_walk` has done when it gives an entry: the map is as it was, and the table is there.
pub record Walked (m : Memory) (d va : ℕ) (is : List ℕ) : Type 0 where
  pub mem : Memory
  pub left : List ℕ
  pub walk : pgdir_walk m d va true ≡ done (some (pgnum (mem.words d (pdx va)), ptx va), mem)
  pub here : mem.words d (pdx va) ≢ 0
  pub space : IsSpace mem d left
  pub entries : (vb : ℕ) → vb < utop → entry_of mem.words d vb ≡ entry_of m.words d vb
  pub others :
      (j : ℕ) → All (λ i. i ≢ j) is → get_elem? mem.alloc.pages j ≡ get_elem? m.alloc.pages j
  pub fewer : (j : ℕ) → All (λ i. i ≢ j) is → All (λ i. i ≢ j) left
  pub count : length mem.alloc.pages ≡ length m.alloc.pages
  pub flushed : mem.flushed ≡ m.flushed
  pub cur : mem.cur_pgdir ≡ m.cur_pgdir

Walked-present :
    (m : Memory) (d va : ℕ) (is : List ℕ)
    → IsSpace m d is
    → va < utop
    → m.words d (pdx va) ≢ 0
    → Walked m d va is
Walked-present m d va is s h e = record {
  mem = m;
  left = is;
  walk = walk_present m d va true e (Used-lt m.alloc _ (s.table (pdx va) (omega arith) e));
  here = e;
  space = s;
  entries = λ vb hb. refl;
  others = λ j n. refl;
  fewer = λ j n. n;
  count = refl;
  flushed = refl;
  cur = refl;
}

module _ (m : Memory) (d va p : ℕ) (ps : List ℕ) (s : IsSpace m d (p ∷ ps)) (h : va < utop)
    (absent : m.words d (pdx va) ≡ 0) where
  taken : Taken m.alloc p ps
  taken = take_page m.alloc p ps s.free

  new_mem : Memory
  unfolding taken
  new_mem = with_table m d va p taken.held

  ne_free : (j : ℕ) → Used m.alloc j → p ≢ j
  ne_free j u = (Used-busy m.alloc j (p ∷ ps) s.free u).0

  ne_table : (k : ℕ) → k < user_tables → m.words d k ≢ 0 → pgnum (m.words d k) ≢ p
  ne_table k hk e = λ same. ne_free _ (s.table k hk e) (sym same)

  new_Tables : Tables (grown m.words d (pdx va) p) d
  new_Tables = grown-Tables m.words d p (pdx va) s.tables (ne_free d s.dir) ne_table absent

  old_entry :
      (k j : ℕ)
      → k < user_tables
      → k ≢ pdx va
      → m.words d k ≢ 0
      → (grown m.words d (pdx va) p d k ≡ m.words d k)
        × (grown m.words d (pdx va) p (pgnum (m.words d k)) j ≡ m.words (pgnum (m.words d k)) j)
  old_entry k j = grown-old m.words d p (pdx va) s.tables (ne_free d s.dir) ne_table absent k j

  dir_entry :
      (k : ℕ)
      → grown m.words d (pdx va) p d k ≡ (if k == pdx va then table_entry p else m.words d k)
  dir_entry k = grown-dir m.words d p (pdx va) s.tables (ne_free d s.dir) ne_table absent k

  still_used : (j : ℕ) → Used m.alloc j → Used taken.held j
  still_used j u = Used-others m.alloc taken.held j (taken.others j (λ e. ne_free j u (sym e))) u

  new_table :
      (k : ℕ)
      → k < user_tables
      → grown m.words d (pdx va) p d k ≢ 0
      → Used taken.held (pgnum (grown m.words d (pdx va) p d k))
  new_table k hk e = elim (Bool-cases (k == pdx va)) [
    | inl at ↦
        let te : grown m.words d (pdx va) p d k ≡ table_entry p = ground (arith, dir_entry k) in
        rw (te, (pgnum-table_entry p).0) taken.used
    | inr off ↦
        let te : grown m.words d (pdx va) p d k ≡ m.words d k = ground (arith, dir_entry k) in
        rw te (still_used (pgnum (m.words d k)) (s.table k hk (λ z. e (te ∙ z))))
  ]

  new_mapped :
      (k j : ℕ)
      → k < user_tables
      → grown m.words d (pdx va) p d k ≢ 0
      → grown m.words d (pdx va) p (pgnum (grown m.words d (pdx va) p d k)) j ≢ 0
      → Used taken.held
          (pgnum (grown m.words d (pdx va) p (pgnum (grown m.words d (pdx va) p d k)) j))
  new_mapped k j hk e n = elim (Bool-cases (k == pdx va)) [
    | inl at ↦
        let te : pgnum (grown m.words d (pdx va) p d k) ≡ p =
          ground (arith, dir_entry k, pgnum-table_entry p) in
        let empty = grown-new m.words d p (pdx va) s.tables (ne_free d s.dir) ne_table absent j in
        absurd (n (ap (λ (q : ℕ). grown m.words d (pdx va) p q j) te ∙ empty))
    | inr off ↦
        let te : grown m.words d (pdx va) p d k ≡ m.words d k = ground (arith, dir_entry k) in
        let old : m.words d k ≢ 0 = λ z. e (te ∙ z) in
        let word =
          ap (λ (x : ℕ). grown m.words d (pdx va) p (pgnum x) j) te
          ∙ (old_entry k j hk (λ z. ground arith) old).1 in
        rw word (still_used _ (s.mapped k j hk old (λ z. n (word ∙ z))))
  ]

  new_space : IsSpace new_mem d ps
  unfolding new_mem
  new_space = record {
    free = taken.free;
    dir = still_used d s.dir;
    tables = new_Tables;
    table = new_table;
    mapped = new_mapped;
  }

  new_entry : new_mem.words d (pdx va) ≡ table_entry p
  unfolding new_mem
  new_entry = ground (arith, dir_entry (pdx va))

  new_here : new_mem.words d (pdx va) ≢ 0
  new_here = λ z. (pgnum-table_entry p).1 (sym new_entry ∙ z)

  new_count : length new_mem.alloc.pages ≡ length m.alloc.pages
  unfolding new_mem
  new_count = taken.count

  new_added : add_table m d va true ≡ done new_mem
  unfolding new_mem
  new_added =
      add_table-some m d va p taken.got taken.held absent
        (page_alloc_zero-some m p taken.got taken.alloc) taken.refer

  new_bound : pgnum (new_mem.words d (pdx va)) < length new_mem.alloc.pages
  new_bound =
      let at = ap pgnum new_entry ∙ (pgnum-table_entry p).0 in
      let old = get_elem?-lt taken.held.pages p taken.used.0 taken.used.1 in
      rw at (rw new_count (rw (← taken.count) old))

  new_entries : (vb : ℕ) → vb < utop → entry_of new_mem.words d vb ≡ entry_of m.words d vb
  unfolding new_mem
  new_entries = entry_of-grown m.words d p (pdx va) s.tables (ne_free d s.dir) ne_table absent

  new_others :
      (j : ℕ)
      → All (λ i. i ≢ j) (p ∷ ps)
      → get_elem? new_mem.alloc.pages j ≡ get_elem? m.alloc.pages j
  unfolding new_mem
  new_others j n = taken.others j (λ e. n.0 (sym e))

  new_rest : (new_mem.flushed ≡ m.flushed) × (new_mem.cur_pgdir ≡ m.cur_pgdir)
  unfolding new_mem
  new_rest = (refl, refl)

  Walked-absent : Walked m d va (p ∷ ps)
  Walked-absent = record {
    mem = new_mem;
    left = ps;
    walk = pgdir_walk-table m new_mem d va new_added new_here new_bound;
    here = new_here;
    space = new_space;
    entries = new_entries;
    others = new_others;
    fewer = λ j n. n.1;
    count = new_count;
    flushed = new_rest.0;
    cur = new_rest.1;
  }

-- `pgdir_walk` that may add a table gives the entry of an address, if there is the table or a page.
pub walk_create :
    (m : Memory) (d va : ℕ) (is : List ℕ)
    → IsSpace m d is
    → va < utop
    → Walked m d va is
      ⊎ ((is ≡ []) × (m.words d (pdx va) ≡ 0) × (pgdir_walk m d va true ≡ done (none, m)))
walk_create m d va [] s h = elim (Bool-cases (m.words d (pdx va) == 0)) [
  | inl none_there ↦
      let z : m.words d (pdx va) ≡ 0 = ground arith in
      inr (
        refl,
        z,
        pgdir_walk-none m m d va
            (add_table-none m d va z (page_alloc_zero-none m (page_alloc-Free m.alloc [] s.free)))
            z,
      )
  | inr there ↦ inl (Walked-present m d va [] s h (λ z. ground arith))
]
walk_create m d va (p ∷ ps) s h = elim (Bool-cases (m.words d (pdx va) == 0)) [
  | inl none_there ↦ inl (Walked-absent m d va p ps s h (ground arith))
  | inr there ↦ inl (Walked-present m d va (p ∷ ps) s h (λ z. ground arith))
]
