-- ===== src/Kern/Taking.antt =====
-- `page_alloc(ALLOC_ZERO)` of sched/kern/pmap.c in a memory with many page directories.
use sis_ops.Common.{
  ◌%◌, ◌⊎◌, ℕ, ◌+◌, ◌<◌, ◌≡◌, ◌≢◌, refl, sym, ap, ◌∙◌, inl, inr, List, [], ◌∷◌, some, none, ◌==◌,
  arith, Bool-cases, All, length, get_elem?,
}
use mathlib.Core.Path.{subst}
use sis_ops.Kern.Pages.{PageInfo, Pages, done, page_alloc}
use sis_ops.Kern.FreePages.{Free, page_alloc-Free, page_alloc-others}
use sis_ops.Kern.Paging.{pdx, ptx, pgnum, Memory, clear, page_alloc_zero}
use sis_ops.Kern.AddressMap.{utop, user_tables, Words, cleared, entry_of}
use sis_ops.Kern.Walking.{page_alloc_zero-some, page_alloc_zero-none}
use sis_ops.Kern.Counting.{In, rows-off}
use sis_ops.Kern.Accounts.{Live, refs, Shape, Counted, IsMemory, dir-refs, table-refs, free-refs}
use sis_ops.Kern.Entries.{All-differs, entry_of-same}
use sis_ops.Kern.Keeping.{Counted-same}

-- A page that is neither a directory nor a table, filled with zeros.
module _ (w : Words) (ds ts : List ℕ) (s : Shape w ds ts) (p : ℕ)
    (new_dir : (e : ℕ) → In e ds → e ≢ p) (new_table : (t : ℕ) → In t ts → t ≢ p) where
  cleared_dir : (e j : ℕ) → In e ds → cleared w p e j ≡ w e j
  cleared_dir e j x = let n = new_dir e x in ground arith

  cleared_table : (t j : ℕ) → In t ts → cleared w p t j ≡ w t j
  cleared_table t j x = let n = new_table t x in ground arith

  refs-cleared : (q : ℕ) → refs (cleared w p) ds ts q ≡ refs w ds ts q
  refs-cleared q =
      let c_dirs =
        rows-off w (cleared w p) user_tables ds p q (All-differs ds p new_dir)
          (λ r j ne. ground arith) in
      let c_tables =
        rows-off w (cleared w p) 1024 ts p q (All-differs ts p new_table)
          (λ r j ne. ground arith) in
      omega (arith, c_dirs, c_tables)

  Shape-cleared : Shape (cleared w p) ds ts
  Shape-cleared = record {
    dirs = s.dirs;
    tables = s.tables;
    apart = s.apart;
    table = λ d j x b e. let z = cleared_dir d j x in rw z (s.table d j x b (λ y. e (z ∙ y)));
    once = λ d e j l x y b c n o q.
        let z = cleared_dir d j x in
        let u = cleared_dir e l y in
        s.once d e j l x y b c (λ a. n (z ∙ a)) (λ a. o (u ∙ a))
          (ap pgnum (sym z) ∙ q ∙ ap pgnum u);
    owned = λ r x.
        let o = s.owned r x in
        let z = cleared_dir o.0 o.1 o.2 in
        (o.0, o.1, o.2, o.3, (λ y. o.4 (sym z ∙ y)), ap pgnum z ∙ o.5);
    wide = λ r j x b. cleared_table r j x ∙ s.wide r j x b;
    odd_dir = λ d j x b e.
        let z = cleared_dir d j x in ap (λ (y : ℕ). y % 2) z ∙ s.odd_dir d j x b (λ y. e (z ∙ y));
    odd_table = λ r j x e.
        let z = cleared_table r j x in ap (λ (y : ℕ). y % 2) z ∙ s.odd_table r j x (λ y. e (z ∙ y));
  }

  entry_of-cleared :
      (e vb : ℕ) → In e ds → vb < utop → entry_of (cleared w p) e vb ≡ entry_of w e vb
  entry_of-cleared e vb x b =
      entry_of-same w (cleared w p) e vb (cleared_dir e (pdx vb) x)
        (λ n. cleared_table (pgnum (w e (pdx vb))) (ptx vb) (s.table e (pdx vb) x (omega arith) n))

-- A page that was free: it is zeros, and nothing refers to it.
pub record Zeroed (m : Memory) (ds ts is : List ℕ) (held : ℕ → ℕ) : Type 0 where
  pub page : ℕ
  pub mem : Memory
  pub left : List ℕ
  pub info : PageInfo
  pub taken : page_alloc_zero m ≡ done (some page, mem)
  pub memory : IsMemory mem ds ts left held
  pub same : (e vb : ℕ) → In e ds → vb < utop → entry_of mem.words e vb ≡ entry_of m.words e vb
  pub here : get_elem? mem.alloc.pages page ≡ some info
  pub alone : info.pp_link ≡ none
  pub unused : info.pp_ref ≡ 0
  pub unreferred : refs mem.words ds ts page + held page ≡ 0
  pub busy : All (λ j. j ≢ page) left
  pub was : is ≡ page ∷ left
  pub kept : (q : ℕ) → Live m.words ds ts is held q → (q ≡ page) ⊎ Live mem.words ds ts left held q

module _ (m : Memory) (ds ts : List ℕ) (held : ℕ → ℕ) where
  zero_page : (p : ℕ) (ps : List ℕ) → IsMemory m ds ts (p ∷ ps) held → Zeroed m ds ts (p ∷ ps) held
  zero_page p ps v = record {
    page = p;
    mem = clear (record m { alloc = h.0 }) p;
    left = ps;
    info = h.3.0;
    taken = page_alloc_zero-some m p h.0 h.1;
    memory = record {
      free = h.2;
      shape = Shape-cleared m.words ds ts v.shape p new_dir new_table;
      counted = counted;
    };
    same = entry_of-cleared m.words ds ts v.shape p new_dir new_table;
    here = h.3.1;
    alone = h.3.2;
    unused = h.3.3;
    unreferred = at_zero p ∙ unreferred;
    busy = v.free.distinct.0;
    was = refl;
    kept = still;
  }
    where
      h :
          (m' : Pages) × (page_alloc m.alloc ≡ done (some p, m'))
          × Free m' ps
          × ((i : PageInfo) × (get_elem? m'.pages p ≡ some i) × (i.pp_link ≡ none) × (i.pp_ref ≡ 0))
          × (length m'.pages ≡ length m.alloc.pages)
      h = page_alloc-Free m.alloc (p ∷ ps) v.free

      unreferred : refs m.words ds ts p + held p ≡ 0
      unreferred = free-refs m ds ts (p ∷ ps) held v p (inl refl)

      new_dir : (e : ℕ) → In e ds → e ≢ p
      new_dir e i f =
          let r = dir-refs m ds ts (p ∷ ps) held v p (subst (λ (y : ℕ). In y ds) f i) in
          omega (arith, r, unreferred)

      new_table : (t : ℕ) → In t ts → t ≢ p
      new_table t i f =
          let r = table-refs m ds ts (p ∷ ps) held v p (subst (λ (y : ℕ). In y ts) f i) in
          omega (arith, r, unreferred)

      at_zero : (q : ℕ) → refs (cleared m.words p) ds ts q + held q ≡ refs m.words ds ts q + held q
      at_zero q =
          ap (λ (x : ℕ). x + held q) (refs-cleared m.words ds ts v.shape p new_dir new_table q)

      still :
          (q : ℕ)
          → Live m.words ds ts (p ∷ ps) held q
          → (q ≡ p) ⊎ Live (cleared m.words p) ds ts ps held q
      still q (inl (inl e)) = inl e
      still q (inl (inr x)) = inr (inl x)
      still q (inr u) = inr (inr (let z = at_zero q in omega (arith, z, u)))

      counted : (q : ℕ) → Counted h.0 q (refs (cleared m.words p) ds ts q + held q)
      counted q = elim (Bool-cases (p == q)) [
        | inl at ↦
            let e : p ≡ q = ground arith in
            λ b. absurd (
              let z = at_zero p ∙ unreferred in
              let y = ap (λ (x : ℕ). refs (cleared m.words p) ds ts x + held x) e in
              omega (arith, z, y, b))
        | inr off ↦
            Counted-same m.alloc h.0 q _ _
              (page_alloc-others m.alloc h.0 p q h.1 (λ e. ground arith)) (at_zero q) (v.counted q)
      ]

  -- A page is taken, unless none is free.
  pub page_alloc_zero-Zeroed :
      (is : List ℕ)
      → IsMemory m ds ts is held
      → Zeroed m ds ts is held ⊎ ((is ≡ []) × (page_alloc_zero m ≡ done (none, m)))
  page_alloc_zero-Zeroed [] v =
      inr (refl, page_alloc_zero-none m (page_alloc-Free m.alloc [] v.free))
  page_alloc_zero-Zeroed (p ∷ ps) v = inl (zero_page p ps v)
