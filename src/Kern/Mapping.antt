-- ===== src/Kern/Mapping.antt =====
-- Insertion into and removal from a page directory, as operations on the map it stands for.
use sis_ops.Common.{
  ℕ, ◌+◌, ◌%◌, ◌<◌, ◌≡◌, ◌≢◌, refl, sym, ap, ◌∙◌, inl, inr, List, ◌∷◌, Option, some, none, Bool,
  false, if◌then◌else◌, ◌==◌, arith, Bool-cases, length, length-set, get_elem?, set,
  get_elem?-set_self, get_elem?-set_ne, All,
}
use sis_ops.Kern.Pages.{PageInfo, Pages, done, page_decref}
use sis_ops.Kern.FreePages.{Free, Free-set, get_elem?-lt, length-page_decref, page_decref-Free}
use sis_ops.Kern.Paging.{
  pdx, ptx, pgnum, Memory, store, incref, pgdir_walk, page_lookup, flushes, tlb_invalidate,
  page_remove,
}
use sis_ops.Kern.AddressMap.{
  utop, user_tables, Words, same_page, entry_of, Tables, put, entry_of-put,
}

-- A page that something refers to, linked nowhere.
abbrev pub Used : Pages → ℕ → Type 0
Used k i =
    (p : PageInfo) × (get_elem? k.pages i ≡ some p)
    × (p.pp_link ≡ none)
    × (0 < p.pp_ref)
    × (p.pp_ref < 65536)

-- The memory with these free pages, as seen from a page directory: its user tables and the pages
-- mapped in them are in use.
pub record IsSpace (m : Memory) (d : ℕ) (is : List ℕ) : Type 0 where
  pub free : Free m.alloc is
  pub dir : Used m.alloc d
  pub tables : Tables m.words d
  pub table : (i : ℕ) → i < user_tables → m.words d i ≢ 0 → Used m.alloc (pgnum (m.words d i))
  pub mapped :
      (i j : ℕ)
      → i < user_tables
      → m.words d i ≢ 0
      → m.words (pgnum (m.words d i)) j ≢ 0
      → Used m.alloc (pgnum (m.words (pgnum (m.words d i)) j))

pub Used-lt : (k : Pages) (i : ℕ) → Used k i → i < length k.pages
Used-lt k i u = get_elem?-lt k.pages i u.0 u.1

-- `pgdir_walk` where the table is there, and where there is none.
pub walk_present :
    (m : Memory) (d va : ℕ) (create : Bool)
    → m.words d (pdx va) ≢ 0
    → pgnum (m.words d (pdx va)) < length m.alloc.pages
    → pgdir_walk m d va create ≡ done (some (pgnum (m.words d (pdx va)), ptx va), m)
unfolding pgdir_walk
walk_present m d va create e h = ground arith

pub walk_absent :
    (m : Memory) (d va : ℕ) → m.words d (pdx va) ≡ 0 → pgdir_walk m d va false ≡ done (none, m)
unfolding pgdir_walk
walk_absent m d va e = ground arith

-- The entry found is that of the map.
unfoldable pub lookup_of : Words → ℕ → ℕ → Option (ℕ × (ℕ × ℕ))
lookup_of w d va = elim (entry_of w d va) [
  | none ↦ none
  | some pte ↦ some (pgnum pte, (pgnum (w d (pdx va)), ptx va))
]

pub page_lookup_lem :
    (m : Memory) (d va : ℕ)
    → (m.words d (pdx va) ≢ 0 → pgnum (m.words d (pdx va)) < length m.alloc.pages)
    → (m.words d (pdx va) ≢ 0
        → m.words (pgnum (m.words d (pdx va))) (ptx va) ≢ 0
        → pgnum (m.words (pgnum (m.words d (pdx va))) (ptx va)) < length m.alloc.pages)
    → page_lookup m d va ≡ done (lookup_of m.words d va)
unfolding page_lookup lookup_of
page_lookup_lem m d va h k = ground arith

pub incref-some :
    (k : Pages) (i : ℕ) (p : PageInfo)
    → get_elem? k.pages i ≡ some p
    → incref i k
      ≡ done (record k { pages = set k.pages i (record p { pp_ref = (p.pp_ref + 1) % 65536 }) })
unfolding incref
incref-some k i p g = ground arith

-- A reference more: the free pages stay, and so does what is in use.
pub incref-Used :
    (k : Pages) (i : ℕ) (p : PageInfo) (is : List ℕ)
    → Free k is
    → All (λ j. j ≢ i) is
    → get_elem? k.pages i ≡ some p
    → p.pp_link ≡ none
    → p.pp_ref < 65535
    → (k' : Pages) × (incref i k ≡ done k')
      × Free k' is
      × (length k'.pages ≡ length k.pages)
      × Used k' i
      × ((j : ℕ) → j ≢ i → get_elem? k'.pages j ≡ get_elem? k.pages j)
incref-Used k i p is f ne g l h =
    let p' : PageInfo = record p { pp_ref = (p.pp_ref + 1) % 65536 } in
    (
      record k { pages = set k.pages i p' },
      incref-some k i p g,
      Free-set k i p' is ne f,
      length-set k.pages i p',
      (
        p',
        get_elem?-set_self k.pages i p' (get_elem?-lt k.pages i p g),
        l,
        omega arith,
        omega arith,
      ),
      λ j n. get_elem?-set_ne k.pages p' (λ e. n (sym e)),
    )

decref-Used :
    (k : Pages) (i : ℕ) (is : List ℕ)
    → Free k is
    → Used k i
    → (k' : Pages) × (page_decref i k ≡ done k') × (length k'.pages ≡ length k.pages)
decref-Used k i is f u =
    let both = page_decref-Free k is i u.0 f u.1 u.2 u.3 u.4 in
    elim (Bool-cases (u.0.pp_ref == 1)) [
      | inl one ↦ let r = both.0 (ground arith) in (r.0, r.1, length-page_decref k r.0 i r.1)
      | inr more ↦ let r = both.1 (ground arith) in (r.0, r.1, length-page_decref k r.0 i r.1)
    ]

-- The list of flushed addresses after an entry has gone.
abbrev flushed_after : Memory → ℕ → ℕ → List ℕ
flushed_after m d va = if flushes m.cur_pgdir d then va ∷ m.flushed else m.flushed

-- What a removal leaves: the map without the page of the address, the same tables, and the address
-- flushed if there was an entry and the directory may be loaded.
pub record Removed (m : Memory) (d va : ℕ) (m' : Memory) : Type 0 where
  pub count : length m'.alloc.pages ≡ length m.alloc.pages
  pub dirs : (i : ℕ) → m'.words d i ≡ m.words d i
  pub entries :
      (vb : ℕ)
      → vb < utop
      → entry_of m'.words d vb ≡ (if same_page va vb then none else entry_of m.words d vb)
  pub flush :
      m'.flushed
      ≡ elim (entry_of m.words d va) [ none ↦ m.flushed | some pte ↦ flushed_after m d va ]

pub remove_none : (m : Memory) (d va : ℕ) → entry_of m.words d va ≡ none → Removed m d va m
remove_none m d va e = record {
  count = refl;
  dirs = λ i. refl;
  entries = λ vb h. ground (arith, e);
  flush = rw e refl;
}

pub page_remove-none :
    (m : Memory) (d va : ℕ) → page_lookup m d va ≡ done none → page_remove m d va ≡ done m
unfolding page_remove
page_remove-none m d va e = ground arith

abbrev pub dropped : Memory → Pages → ℕ → ℕ → ℕ → ℕ → Memory
dropped m k t j d va = tlb_invalidate (store (record m { alloc = k }) t j 0) d va

pub page_remove-some :
    (m : Memory) (k : Pages) (d va q t j : ℕ)
    → page_lookup m d va ≡ done (some (q, (t, j)))
    → page_decref q m.alloc ≡ done k
    → page_remove m d va ≡ done (dropped m k t j d va)
unfolding page_remove
page_remove-some m k d va q t j e f = ground arith

pub dropped_lem :
    (m : Memory) (k : Pages) (t j d va : ℕ)
    → ((dropped m k t j d va).alloc ≡ k)
      × ((dropped m k t j d va).words ≡ put m.words t j 0)
      × ((dropped m k t j d va).flushed ≡ flushed_after m d va)
      × ((dropped m k t j d va).cur_pgdir ≡ m.cur_pgdir)
unfolding tlb_invalidate
dropped_lem m k t j d va = (ground arith, ground arith, ground arith, ground arith)

pub lookup-none : (w : Words) (d va : ℕ) → entry_of w d va ≡ none → lookup_of w d va ≡ none
unfolding lookup_of
lookup-none w d va e = ground arith

pub lookup-some :
    (w : Words) (d va : ℕ)
    → w d (pdx va) ≢ 0
    → w (pgnum (w d (pdx va))) (ptx va) ≢ 0
    → lookup_of w d va
      ≡ some (pgnum (w (pgnum (w d (pdx va))) (ptx va)), (pgnum (w d (pdx va)), ptx va))
unfolding lookup_of
lookup-some w d va e n = ground arith

pub dropped-Removed :
    (m : Memory) (k : Pages) (d va : ℕ)
    → va < utop
    → Tables m.words d
    → m.words d (pdx va) ≢ 0
    → m.words (pgnum (m.words d (pdx va))) (ptx va) ≢ 0
    → length k.pages ≡ length m.alloc.pages
    → Removed m d va (dropped m k (pgnum (m.words d (pdx va))) (ptx va) d va)
dropped-Removed m k d va h t e n same =
    let parts = dropped_lem m k (pgnum (m.words d (pdx va))) (ptx va) d va in
    let apart = t.apart (pdx va) (omega arith) e in
    record {
      count = ap (λ (x : Pages). length x.pages) parts.0 ∙ same;
      dirs = λ i. rw (parts.1) (ground (arith, apart));
      entries = λ vb hb. rw (parts.1) (entry_of-put m.words d va vb 0 t h hb e);
      flush = parts.2 ∙ ground arith;
    }

-- `page_remove` always ends, and removes the page of its address from the map.
pub page_remove-Removed :
    (m : Memory) (d va : ℕ) (is : List ℕ)
    → va < utop
    → Free m.alloc is
    → Tables m.words d
    → (m.words d (pdx va) ≢ 0 → Used m.alloc (pgnum (m.words d (pdx va))))
    → (m.words d (pdx va) ≢ 0
        → m.words (pgnum (m.words d (pdx va))) (ptx va) ≢ 0
        → Used m.alloc (pgnum (m.words (pgnum (m.words d (pdx va))) (ptx va))))
    → (m' : Memory) × (page_remove m d va ≡ done m') × Removed m d va m'
page_remove-Removed m d va is h f t table mapped = elim (Bool-cases (m.words d (pdx va) == 0)) [
  | inl no_table ↦ unmapped (ground arith)
  | inr some_table ↦ elim (Bool-cases (m.words (pgnum (m.words d (pdx va))) (ptx va) == 0)) [
    | inl no_page ↦ unmapped (ground arith)
    | inr some_page ↦ hit (λ e. ground arith) (λ e. ground arith)
  ]
]
  where
    pt : ℕ
    pt = pgnum (m.words d (pdx va))

    pte : ℕ
    pte = m.words pt (ptx va)

    found : page_lookup m d va ≡ done (lookup_of m.words d va)
    found =
        page_lookup_lem m d va (λ e. Used-lt m.alloc pt (table e))
          (λ e n. Used-lt m.alloc (pgnum pte) (mapped e n))

    unmapped :
        entry_of m.words d va ≡ none
        → (m' : Memory) × (page_remove m d va ≡ done m') × Removed m d va m'
    unmapped e = (
      m,
      page_remove-none m d va (found ∙ ap done (lookup-none m.words d va e)),
      remove_none m d va e,
    )

    hit :
        m.words d (pdx va) ≢ 0
        → pte ≢ 0
        → (m' : Memory) × (page_remove m d va ≡ done m') × Removed m d va m'
    hit e n =
        let k = decref-Used m.alloc (pgnum pte) is f (mapped e n) in
        let at = ap done (lookup-some m.words d va e n) in
        (
          dropped m k.0 pt (ptx va) d va,
          page_remove-some m k.0 d va (pgnum pte) pt (ptx va) (found ∙ at) k.1,
          dropped-Removed m k.0 d va h t e n k.2,
        )
