-- ===== src/Kern/Pages.antt =====
-- The page allocator of sched/kern/pmap.c.
use sis_ops.Common.{
  ℕ, zero, suc, ◌+◌, ◌%◌, List, Option, some, none, Bool, ◌||◌, ◌&&◌, if◌then◌else◌, ◌==◌, ltb, leb,
  length, get_elem?, set,
}

-- `struct PageInfo`; a pointer to one is the number of its page.
pub record PageInfo : Type 0 where
  pub pp_link : Option ℕ
  pub pp_ref : ℕ

pub record Pages : Type 0 where
  pub pages : List PageInfo
  pub page_free_list : Option ℕ

-- `panics` is `panic`, `fault` an access outside `pages`.
pub data Ended (A : Type 0) : Type 0 where
  done : A → Ended A
  panics fault : Ended A

-- The page that is free first, with a null link.
unfoldable pub page_alloc : Pages → Ended (Option ℕ × Pages)
page_alloc m = elim m.page_free_list [
  | none ↦ done (none, m)
  | some i ↦ elim (get_elem? m.pages i) [
    | none ↦ fault
    | some p ↦ done (
      some i,
      record { pages = set m.pages i (record p { pp_link = none }); page_free_list = p.pp_link },
    )
  ]
]

unfoldable pub page_free : ℕ → Pages → Ended Pages
page_free i m = elim (get_elem? m.pages i) [
  | none ↦ fault
  | some p ↦
      if p.pp_ref == 0
      then elim p.pp_link [
        | some j ↦ panics
        | none ↦ done (record {
          pages = set m.pages i (record p { pp_link = m.page_free_list });
          page_free_list = some i;
        })
      ]
      else panics
]

-- `pp_ref` is a `uint16_t`.
unfoldable pub page_decref : ℕ → Pages → Ended Pages
unfolding page_free
page_decref i m = elim (get_elem? m.pages i) [
  | none ↦ fault
  | some p ↦
      let left = (p.pp_ref + 65535) % 65536 in
      let m' : Pages = record m { pages = set m.pages i (record p { pp_ref = left }) } in
      if left == 0 then page_free i m' else done m'
]

-- The pages that `page_init` keeps: the first, MPENTRY_PADDR, the hole from IOPHYSMEM, and what
-- `boot_alloc` has given out behind EXTPHYSMEM, up to the page `first`.
unfoldable pub reserved : ℕ → ℕ → Bool
reserved first i = i == 0 || 7 == i || leb 160 i && ltb i 256 || leb 256 i && ltb i first

-- One round of its loop.
unfoldable pub init_page : ℕ → ℕ → Pages → Ended Pages
init_page first i m = elim (get_elem? m.pages i) [
  | none ↦ fault
  | some p ↦
      if reserved first i
      then done (record m { pages = set m.pages i (record p { pp_link = none }) })
      else done (record {
        pages = set m.pages i (record p { pp_link = m.page_free_list; pp_ref = 0 });
        page_free_list = some i;
      })
]

abbrev pub and_then : Ended Pages → (Pages → Ended Pages) → Ended Pages
and_then (done m) f = f m
and_then panics f = panics
and_then fault f = fault

-- The rounds below `n`.
unfoldable pub init_pages : ℕ → ℕ → Pages → Ended Pages
unfolding init_page
init_pages first zero m = done m
init_pages first (suc n) m = and_then (init_pages first n m) (init_page first n)

unfoldable pub page_init : ℕ → Pages → Ended Pages
unfolding init_pages
page_init first m = init_pages first (length m.pages) m
