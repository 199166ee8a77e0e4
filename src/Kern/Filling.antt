-- ===== src/Kern/Filling.antt =====
-- References that are added: `pp_ref++`, the entry that is stored, and the page table that `pgdir_walk` of
-- sched/kern/pmap.c adds.
use mathlib.Core.Path.{subst}
use sis_ops.Common.{
  ◌⊎◌, ℕ, ◌+◌, ◌%◌, ◌<◌, ◌≤◌, ◌≡◌, ◌≢◌, refl, sym, ap, ◌∙◌, inl, inr, List, [], ◌∷◌, some, none,
  true, if◌then◌else◌, ◌==◌, arith, Bool-cases, All, length, get_elem?, set, get_elem?-set_self,
  get_elem?-set_ne,
}
use sis_ops.Kern.Pages.{PageInfo, Pages, done}
use sis_ops.Kern.FreePages.{Free-set, page_alloc-Free, get_elem?-lt}
use sis_ops.Kern.Paging.{pdx, ptx, pgnum, Memory, store, table_entry, add_table, pgdir_walk}
use sis_ops.Kern.AddressMap.{utop, Words, put, cleared, grown, pgnum-table_entry}
use sis_ops.Kern.Mapping.{Used-lt, walk_present}
use sis_ops.Kern.Walking.{
  Taken, take_page, with_table, add_table-some, add_table-none, page_alloc_zero-some,
  page_alloc_zero-none, pgdir_walk-table, pgdir_walk-none,
}
use sis_ops.Kern.Counting.{In, hit}
use sis_ops.Kern.Accounts.{
  refs, Live, Counted, IsMemory, dir-refs, table-refs, free-refs, counted-Used,
}
use sis_ops.Kern.Entries.{Isolated, refs-put, Shape-put, refs-grown, Shape-grown, grown-Isolated}
use sis_ops.Kern.Keeping.{Counted-same}

-- One reference more that the kernel holds.
abbrev pub bump : (ℕ → ℕ) → ℕ → ℕ → ℕ
bump held pp = λ p. if p == pp then held p + 1 else held p

abbrev pub referred : Pages → ℕ → PageInfo → Pages
referred k pp p = record k { pages = set k.pages pp (record p { pp_ref = (p.pp_ref + 1) % 65536 }) }

bump_self : (held : ℕ → ℕ) (pp : ℕ) → bump held pp pp ≡ held pp + 1
bump_self held pp = ground arith

hit-bump :
    (held : ℕ → ℕ) (word pp p : ℕ)
    → pgnum word ≡ pp
    → word ≢ 0
    → hit word p + held p ≡ bump held pp p
hit-bump held word pp p at n = ground arith

put_self : (w : Words) (d i v : ℕ) → put w d i v d i ≡ v
put_self w d i v = ground arith

bump-more : (held : ℕ → ℕ) (pp p : ℕ) → held p ≤ bump held pp p
bump-more held pp p = ground arith

module _ (m : Memory) (ds ts is : List ℕ) (held : ℕ → ℕ) where
  pub bump-Live : (pp p : ℕ) → Live m.words ds ts is held p → Live m.words ds ts is (bump held pp) p
  bump-Live pp p (inl x) = inl x
  bump-Live pp p (inr u) = inr (let b = bump-more held pp p in omega (arith, b, u))

  pub referred-IsMemory :
      (pp : ℕ) (p : PageInfo)
      → IsMemory m ds ts is held
      → All (λ j. j ≢ pp) is
      → get_elem? m.alloc.pages pp ≡ some p
      → p.pp_link ≡ none
      → p.pp_ref ≡ refs m.words ds ts pp + held pp
      → p.pp_ref < 65535
      → IsMemory (record m { alloc = referred m.alloc pp p }) ds ts is (bump held pp)
  referred-IsMemory pp p v busy g l r room = record {
    free = Free-set m.alloc pp p' is busy v.free;
    shape = v.shape;
    counted = λ q. elim (Bool-cases (q == pp)) [
      | inl at ↦ let e : q ≡ pp = ground arith in rw e here
      | inr off ↦
          let ne : q ≢ pp = λ e. ground arith in
          let same : bump held pp q ≡ held q = rw off refl in
          Counted-same m.alloc (referred m.alloc pp p) q _ _
            (get_elem?-set_ne m.alloc.pages p' (λ e. ne (sym e)))
            (ap (λ (x : ℕ). refs m.words ds ts q + x) same) (v.counted q)
    ];
  }
    where
      p' : PageInfo
      p' = record p { pp_ref = (p.pp_ref + 1) % 65536 }

      count : (p.pp_ref + 1) % 65536 ≡ refs m.words ds ts pp + bump held pp pp
      count = let b = bump_self held pp in omega (arith, r, b)

      here : Counted (referred m.alloc pp p) pp (refs m.words ds ts pp + bump held pp pp)
      here h = (
        p',
        get_elem?-set_self m.alloc.pages pp p' (get_elem?-lt m.alloc.pages pp p g),
        l,
        count,
        omega arith,
      )

  -- An entry that is stored takes the reference over.
  module _ (t k pp word : ℕ) (v : IsMemory m ds ts is (bump held pp)) (i : In t ts) (h : k < 1024)
      (empty : m.words t k ≡ 0) (at : pgnum word ≡ pp) (n : word ≢ 0) where
    total :
        (p : ℕ)
        → refs (put m.words t k word) ds ts p + held p ≡ refs m.words ds ts p + bump held pp p
    total p =
        let e = refs-put m.words ds ts v.shape t k word i h p in
        let old : hit (m.words t k) p ≡ 0 = rw empty refl in
        let new : hit word p + held p ≡ bump held pp p = hit-bump held word pp p at n in
        omega (arith, e, old, new)

    pub stored-IsMemory : word % 2 ≡ 1 → IsMemory (store m t k word) ds ts is held
    stored-IsMemory odd = record {
      free = v.free;
      shape = Shape-put m.words ds ts v.shape t k word i h (λ _. odd);
      counted = λ p. Counted-same m.alloc m.alloc p _ _ refl (total p) (v.counted p);
    }

    pub stored-Live :
        (p : ℕ)
        → Live m.words ds ts is (bump held pp) p
        → Live (put m.words t k word) ds ts is held p
    stored-Live p (inl x) = inl x
    stored-Live p (inr u) = inr (let e = total p in omega (arith, e, u))

    -- The page of the new entry is referred to.
    pub stored-refs : 0 < refs (put m.words t k word) ds ts pp
    stored-refs = let e = total pp in let b = bump_self held pp in omega (arith, e, b)

-- `pgdir_walk` has found or added the table of an address.
pub record Reached (m : Memory) (ds ts is : List ℕ) (held : ℕ → ℕ) (d va : ℕ) : Type 0 where
  pub mem : Memory
  pub tables : List ℕ
  pub left : List ℕ
  pub walk : pgdir_walk m d va true ≡ done (some (pgnum (mem.words d (pdx va)), ptx va), mem)
  pub there : mem.words d (pdx va) ≢ 0
  pub memory : IsMemory mem ds tables left held
  pub isolated : Isolated m.words mem.words ds d
  pub kept : (p : ℕ) → Live m.words ds ts is held p → Live mem.words ds tables left held p
  pub others :
      (j : ℕ)
      → All (λ i. i ≢ j) is
      → (get_elem? mem.alloc.pages j ≡ get_elem? m.alloc.pages j)
        × (refs mem.words ds tables j ≡ refs m.words ds ts j)
        × All (λ i. i ≢ j) left

module _ (m : Memory) (ds ts : List ℕ) (held : ℕ → ℕ) (d va : ℕ) (x : In d ds) (h : va < utop) where
  Reached-present :
      (is : List ℕ)
      → IsMemory m ds ts is held
      → m.words d (pdx va) ≢ 0
      → Reached m ds ts is held d va
  Reached-present is v e =
      let i = v.table d (pdx va) x (omega arith) e in
      let r = table-refs m ds ts is held v (pgnum (m.words d (pdx va))) i in
      let u = counted-Used m ds ts is held v (pgnum (m.words d (pdx va))) (omega (arith, r)) in
      record {
        mem = m;
        tables = ts;
        left = is;
        walk = walk_present m d va true e (Used-lt m.alloc _ u);
        there = e;
        memory = v;
        isolated = λ f vb y ne b. refl;
        kept = λ p l. l;
        others = λ j n. (refl, refl, n);
      }

  module _ (p : ℕ) (ps : List ℕ) (v : IsMemory m ds ts (p ∷ ps) held)
      (absent : m.words d (pdx va) ≡ 0) where
    taken : Taken m.alloc p ps
    taken = take_page m.alloc p ps v.free

    unreferred : refs m.words ds ts p + held p ≡ 0
    unreferred = free-refs m ds ts (p ∷ ps) held v p (inl refl)

    new_dir : (e : ℕ) → In e ds → e ≢ p
    new_dir e i f =
        let r = dir-refs m ds ts (p ∷ ps) held v p (subst (λ (y : ℕ). In y ds) f i) in
        omega (arith, r, unreferred)

    new_table : (t : ℕ) → In t ts → t ≢ p
    new_table t i f =
        let r = table-refs m ds ts (p ∷ ps) held v p (subst (λ (y : ℕ). In y ts) f i) in
        omega (arith, r, unreferred)

    new_refs :
        (q : ℕ)
        → refs (grown m.words d (pdx va) p) ds (p ∷ ts) q
          ≡ refs m.words ds ts q + (if p == q then 1 else 0)
    new_refs q =
        refs-grown m.words ds ts v.shape d (pdx va) p x (omega arith) absent new_dir new_table q

    new_mem : Memory
    new_mem = with_table m d va p taken.held

    new-IsMemory : IsMemory new_mem ds (p ∷ ts) ps held
    unfolding new_mem
    new-IsMemory = record {
      free = taken.free;
      shape =
          Shape-grown m.words ds ts v.shape d (pdx va) p x (omega arith) absent new_dir new_table;
      counted = λ q. elim (Bool-cases (p == q)) [
        | inl at ↦
            let e : p ≡ q = ground arith in
            subst
              (λ (y : ℕ).
                Counted taken.held y (refs (grown m.words d (pdx va) p) ds (p ∷ ts) y + held y))
              e here
        | inr off ↦
            let ne : q ≢ p = λ e. ground arith in
            let same : refs (grown m.words d (pdx va) p) ds (p ∷ ts) q ≡ refs m.words ds ts q =
              ground (arith, new_refs q) in
            Counted-same m.alloc taken.held q _ _ (taken.others q ne)
              (ap (λ (y : ℕ). y + held q) same) (v.counted q)
      ];
    }
      where
        here : Counted taken.held p (refs (grown m.words d (pdx va) p) ds (p ∷ ts) p + held p)
        here b =
            let o = taken.once in
            let one : refs (grown m.words d (pdx va) p) ds (p ∷ ts) p ≡ refs m.words ds ts p + 1 =
              ground (arith, new_refs p) in
            (o.0, o.1, o.2, omega (arith, o.3, one, unreferred), omega (arith, o.3))

    new_word : new_mem.words d (pdx va) ≡ table_entry p
    unfolding new_mem
    new_word = put_self (cleared m.words p) d (pdx va) (table_entry p)

    new_there : new_mem.words d (pdx va) ≢ 0
    new_there z = (pgnum-table_entry p).1 (sym new_word ∙ z)

    new_bound : pgnum (new_mem.words d (pdx va)) < length new_mem.alloc.pages
    unfolding new_mem
    new_bound =
        let at = ap pgnum new_word ∙ (pgnum-table_entry p).0 in
        subst (λ (y : ℕ). y < length taken.held.pages) (sym at)
          (get_elem?-lt taken.held.pages p taken.once.0 taken.once.1)

    new_others :
        (j : ℕ)
        → All (λ i. i ≢ j) (p ∷ ps)
        → (get_elem? new_mem.alloc.pages j ≡ get_elem? m.alloc.pages j)
          × (refs new_mem.words ds (p ∷ ts) j ≡ refs m.words ds ts j)
          × All (λ i. i ≢ j) ps
    unfolding new_mem
    new_others j n =
        let same : refs (grown m.words d (pdx va) p) ds (p ∷ ts) j ≡ refs m.words ds ts j =
          let off = n.0 in ground (arith, new_refs j) in
        (taken.others j (λ e. n.0 (sym e)), same, n.1)

    added : add_table m d va true ≡ done new_mem
    unfolding new_mem
    added =
        add_table-some m d va p taken.got taken.held absent
          (page_alloc_zero-some m p taken.got taken.alloc) taken.refer

    new_apart : Isolated m.words new_mem.words ds d
    unfolding new_mem
    new_apart =
        grown-Isolated m.words ds ts v.shape d (pdx va) p x (omega arith) absent new_dir new_table

    new_kept :
        (q : ℕ) → Live m.words ds ts (p ∷ ps) held q → Live new_mem.words ds (p ∷ ts) ps held q
    unfolding new_mem
    new_kept q (inr u) = inr (let e = new_refs q in ground (arith, e, u))
    new_kept q (inl (inr x)) = inl x
    new_kept q (inl (inl e)) = inr (let s = new_refs q in ground (arith, s, e))

    Reached-absent : Reached m ds ts (p ∷ ps) held d va
    Reached-absent = record {
      mem = new_mem;
      tables = p ∷ ts;
      left = ps;
      walk = pgdir_walk-table m new_mem d va added new_there new_bound;
      there = new_there;
      memory = new-IsMemory;
      isolated = new_apart;
      kept = new_kept;
      others = new_others;
    }

  -- The entry of an address is reached, unless there is neither its table nor a free page.
  pub reach :
      (is : List ℕ)
      → IsMemory m ds ts is held
      → Reached m ds ts is held d va
        ⊎ ((is ≡ []) × (m.words d (pdx va) ≡ 0) × (pgdir_walk m d va true ≡ done (none, m)))
  reach is v = elim (Bool-cases (m.words d (pdx va) == 0)) [
    | inl none_there ↦ absent is v (ground arith)
    | inr there ↦ inl (Reached-present is v (λ z. ground arith))
  ]
    where
      absent :
          (is : List ℕ)
          → IsMemory m ds ts is held
          → m.words d (pdx va) ≡ 0
          → Reached m ds ts is held d va
            ⊎ ((is ≡ []) × (m.words d (pdx va) ≡ 0) × (pgdir_walk m d va true ≡ done (none, m)))
      absent [] v z =
          let empty = page_alloc_zero-none m (page_alloc-Free m.alloc [] v.free) in
          inr (refl, z, pgdir_walk-none m m d va (add_table-none m d va z empty) z)
      absent (p ∷ ps) v z = inl (Reached-absent p ps v z)
