-- ===== src/Kern/Keeping.antt =====
-- The steps of `page_insert` and `page_remove` of sched/kern/pmap.c keep the memory's accounts.
use mathlib.Core.Path.{subst}
use sis_ops.Common.{
  ℕ, ◌+◌, ◌-◌, ◌<◌, ◌≡◌, ◌≢◌, refl, sym, ap, ◌∙◌, inl, inr, List, some, none, ◌==◌, arith,
  Bool-cases, get_elem?,
}
use sis_ops.Kern.Pages.{PageInfo, Pages, done}
use sis_ops.Kern.FreePages.{Free}
use sis_ops.Kern.Giving.{Given, page_decref-Given}
use sis_ops.Kern.Paging.{pdx, ptx, pgnum, Memory, page_lookup, page_remove}
use sis_ops.Kern.AddressMap.{utop, Words, entry_of, put}
use sis_ops.Kern.Mapping.{
  Used-lt, IsSpace, Removed, lookup_of, page_lookup_lem, lookup-none, lookup-some, dropped,
  dropped_lem, dropped-Removed, page_remove-none, remove_none, page_remove-some,
}
use sis_ops.Kern.Counting.{In, hit}
use sis_ops.Kern.Accounts.{refs, Live, Shape, Counted, IsMemory, mapped-refs, IsMemory-IsSpace}
use sis_ops.Kern.Entries.{Isolated, put-Isolated, refs-put, Shape-put}

pub IsMemory-same :
    (m m' : Memory) (ds ts is : List ℕ) (held : ℕ → ℕ)
    → m'.alloc ≡ m.alloc
    → m'.words ≡ m.words
    → IsMemory m ds ts is held
    → IsMemory m' ds ts is held
IsMemory-same m m' ds ts is held a w v = record {
  free = subst (λ (k : Pages). Free k is) (sym a) v.free;
  shape = subst (λ (x : Words). Shape x ds ts) (sym w) v.shape;
  counted = λ p.
      subst (λ (k : Pages). Counted k p (refs m'.words ds ts p + held p)) (sym a)
        (subst (λ (x : Words). Counted m.alloc p (refs x ds ts p + held p)) (sym w) (v.counted p));
}

-- A page that is as it was, and is referred to as often.
pub Counted-same :
    (k k' : Pages) (p n n' : ℕ)
    → get_elem? k'.pages p ≡ get_elem? k.pages p
    → n' ≡ n
    → Counted k p n
    → Counted k' p n'
Counted-same k k' p n n' g e c h = let o = c (rw (← e) h) in (o.0, g ∙ o.1, o.2, o.3 ∙ sym e, o.4)

module _ (m : Memory) (ds ts is : List ℕ) (held : ℕ → ℕ) (v : IsMemory m ds ts is held) where
  -- An entry of a table goes, and with it the reference.
  module _ (t k : ℕ) (i : In t ts) (h : k < 1024) (n : m.words t k ≢ 0) where
    abbrev pub gone : ℕ
    gone = pgnum (m.words t k)

    pub was :
        (x : PageInfo) × (get_elem? m.alloc.pages gone ≡ some x)
        × (x.pp_link ≡ none)
        × (x.pp_ref ≡ refs m.words ds ts gone + held gone)
        × (x.pp_ref < 65536)
    was = let r = mapped-refs m ds ts is held v t k i n in v.counted gone (omega (arith, r))

    pub given : Given m.alloc gone was.0 is
    given =
        let r = mapped-refs m ds ts is held v t k i n in
        page_decref-Given m.alloc gone was.0 is v.free was.1 was.2 (omega (arith, r, was.3)) was.4

    refs_here : refs (put m.words t k 0) ds ts gone + 1 ≡ refs m.words ds ts gone
    refs_here =
        let e = refs-put m.words ds ts v.shape t k 0 i h gone in
        let one : hit (m.words t k) gone ≡ 1 = ground arith in omega (arith, e, one)

    refs_else : (p : ℕ) → p ≢ gone → refs (put m.words t k 0) ds ts p ≡ refs m.words ds ts p
    refs_else p ne =
        let e = refs-put m.words ds ts v.shape t k 0 i h p in
        let none_here : hit (m.words t k) p ≡ 0 = ground arith in omega (arith, e, none_here)

    pub cleared-IsMemory :
        IsMemory (record m { alloc = given.got; words = put m.words t k 0 }) ds ts given.left held
    cleared-IsMemory = record {
      free = given.free;
      shape = Shape-put m.words ds ts v.shape t k 0 i h (λ e. absurd (e refl));
      counted = λ p. elim (Bool-cases (p == gone)) [
        | inl at ↦ let e : p ≡ gone = ground arith in rw e here
        | inr off ↦
            let ne : p ≢ gone = λ e. ground arith in
            Counted-same m.alloc given.got p _ _ (given.others p ne)
              (ap (λ (x : ℕ). x + held p) (refs_else p ne)) (v.counted p)
      ];
    }
      where
        here : Counted given.got gone (refs (put m.words t k 0) ds ts gone + held gone)
        here h =
            let more : 1 < was.0.pp_ref = omega (arith, refs_here, was.3) in
            (
              record was.0 { pp_ref = was.0.pp_ref - 1 },
              given.still more,
              was.2,
              omega (arith, refs_here, was.3),
              omega (arith, was.4),
            )

    -- No page is lost: this one is free with its last reference.
    pub cleared-Live :
        (p : ℕ) → Live m.words ds ts is held p → Live (put m.words t k 0) ds ts given.left held p
    cleared-Live p (inl x) = inl (given.keeps p x)
    cleared-Live p (inr u) = elim (Bool-cases (p == gone)) [
      | inr off ↦
          let ne : p ≢ gone = λ e. ground arith in
          inr (let e = refs_else p ne in omega (arith, e, u))
      | inl at ↦
          let e : p ≡ gone = ground arith in
          subst (λ (q : ℕ). Live (put m.words t k 0) ds ts given.left held q) (sym e) here
    ]
      where
        here : Live (put m.words t k 0) ds ts given.left held gone
        here = elim (Bool-cases (was.0.pp_ref == 1)) [
          | inl one ↦ inl (given.last (ground arith))
          | inr more ↦
              let ne : was.0.pp_ref ≢ 1 = λ e. ground arith in
              let r = mapped-refs m ds ts is held v t k i n in
              inr (omega (arith, refs_here, was.3, ne, r))
        ]

  -- What a removal leaves of the memory.
  pub record Emptied (d va : ℕ) : Type 0 where
    pub mem : Memory
    pub left : List ℕ
    pub done_ : page_remove m d va ≡ done mem
    pub removed : Removed m d va mem
    pub isolated : Isolated m.words mem.words ds d
    pub memory : IsMemory mem ds ts left held
    pub kept : (p : ℕ) → Live m.words ds ts is held p → Live mem.words ds ts left held p

  module _ (d va : ℕ) (x : In d ds) (h : va < utop) where
    space : IsSpace m d is
    space = IsMemory-IsSpace m ds ts is held v d x

    found : page_lookup m d va ≡ done (lookup_of m.words d va)
    found =
        page_lookup_lem m d va (λ e. Used-lt m.alloc _ (space.table (pdx va) (omega arith) e))
          (λ e n. Used-lt m.alloc _ (space.mapped (pdx va) (ptx va) (omega arith) e n))

    abbrev table_of : ℕ
    table_of = pgnum (m.words d (pdx va))

    hit-Emptied : (m.words d (pdx va) ≢ 0) → (m.words table_of (ptx va) ≢ 0) → Emptied d va
    hit-Emptied e n =
        let i = v.table d (pdx va) x (omega arith) e in
        let g = given table_of (ptx va) i (omega arith) n in
        let parts = dropped_lem m g.got table_of (ptx va) d va in
        record {
          mem = dropped m g.got table_of (ptx va) d va;
          left = g.left;
          done_ =
              page_remove-some m g.got d va (pgnum (m.words table_of (ptx va))) table_of (ptx va)
                (found ∙ ap done (lookup-some m.words d va e n)) g.done_;
          removed = dropped-Removed m g.got d va h space.tables e n g.count;
          isolated =
              subst (λ (w : Words). Isolated m.words w ds d) (sym parts.1)
                (put-Isolated m.words ds ts v.shape d (pdx va) (ptx va) 0 x (omega arith) e);
          memory =
              IsMemory-same (record m { alloc = g.got; words = put m.words table_of (ptx va) 0 }) _
                ds ts g.left held parts.0 parts.1
                (cleared-IsMemory table_of (ptx va) i (omega arith) n);
          kept = λ p l.
              subst (λ (w : Words). Live w ds ts g.left held p) (sym parts.1)
                (cleared-Live table_of (ptx va) i (omega arith) n p l);
        }

    miss-Emptied : entry_of m.words d va ≡ none → Emptied d va
    miss-Emptied e = record {
      mem = m;
      left = is;
      done_ = page_remove-none m d va (found ∙ ap done (lookup-none m.words d va e));
      removed = remove_none m d va e;
      isolated = λ f vb y ne b. refl;
      memory = v;
      kept = λ p l. l;
    }

    -- Below UTOP, `page_remove` keeps the accounts: the count of the page it takes out goes down by one, no page is lost,
    -- that is, a page that was free or referred to is free or referred to, and the other directories' maps
    -- stay.
    pub page_remove-IsMemory : Emptied d va
    page_remove-IsMemory = elim (Bool-cases (m.words d (pdx va) == 0)) [
      | inl no_table ↦ miss-Emptied (ground arith)
      | inr some_table ↦ elim (Bool-cases (m.words table_of (ptx va) == 0)) [
        | inl no_page ↦ miss-Emptied (ground arith)
        | inr some_page ↦ hit-Emptied (λ e. ground arith) (λ e. ground arith)
      ]
    ]
