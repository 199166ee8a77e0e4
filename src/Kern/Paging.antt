-- ===== src/Kern/Paging.antt =====
-- The page tables of sched/kern/pmap.c, with the macros of sched/inc/mmu.h.
use Prim.Native.Nat.{bit_or}
use sis_ops.Common.{
  ℕ, ◌+◌, ◌*◌, ◌/◌, ◌%◌, List, ◌∷◌, Option, some, none, Bool, true, false, ◌&&◌, if◌then◌else◌,
  ◌==◌, leb, length, get_elem?, set,
}
use sis_ops.Kern.{ErrorCode, e_no_mem}
use sis_ops.Kern.Pages.{Pages, Ended, done, panics, fault, page_alloc, page_decref}

abbrev pub pgsize : ℕ
pgsize = 4096

abbrev pub pte_p : ℕ
pte_p = 1

abbrev pub pte_w : ℕ
pte_w = 2

abbrev pub pte_u : ℕ
pte_u = 4

-- `PDX(la)` and `PTX(la)`
abbrev pub pdx : ℕ → ℕ
pdx la = la / 4194304 % 1024

abbrev pub ptx : ℕ → ℕ
ptx la = la / 4096 % 1024

-- `PGNUM(PTE_ADDR(pte))`, the page that an entry names.
abbrev pub pgnum : ℕ → ℕ
pgnum pte = pte / 4096

-- The physical memory as the kernel sees it: the allocator's state, the 1024 words of each page, the
-- page directory of `curenv` (`none` if there is no current environment), and the addresses for which
-- `invlpg` was executed, the last first.
pub record Memory : Type 0 where
  pub alloc : Pages
  pub words : ℕ → ℕ → ℕ
  pub cur_pgdir : Option (Option ℕ)
  pub flushed : List ℕ

infixl 5 ◌>>=◌
abbrev pub ◌>>=◌ : {A B : Type 0} → Ended A → (A → Ended B) → Ended B
done a >>= f = f a
panics >>= f = panics
fault >>= f = fault

-- An assignment to one word of a page.
abbrev pub store : Memory → ℕ → ℕ → ℕ → Memory
store m page i v = record m { words = λ p j. if p == page && j == i then v else m.words p j }

-- `memset(page2kva(page), 0, PGSIZE)`
abbrev pub clear : Memory → ℕ → Memory
clear m page = record m { words = λ p j. if p == page then 0 else m.words p j }

-- `page->pp_ref++`, a `uint16_t`.
unfoldable pub incref : ℕ → Pages → Ended Pages
incref i k = elim (get_elem? k.pages i) [
  | none ↦ fault
  | some p ↦
      done (record k { pages = set k.pages i (record p { pp_ref = (p.pp_ref + 1) % 65536 }) })
]

-- `page_alloc(ALLOC_ZERO)`
unfoldable pub page_alloc_zero : Memory → Ended (Option ℕ × Memory)
page_alloc_zero m = page_alloc m.alloc >>= λ r.
    let m' : Memory = record m { alloc = r.1 } in
    elim r.0 [ none ↦ done (none, m') | some p ↦ done (some p, clear m' p) ]

-- `page2pa(page) | PTE_P | PTE_W | PTE_U`
abbrev pub table_entry : ℕ → ℕ
table_entry p = bit_or (bit_or (bit_or (p * 4096) pte_p) pte_w) pte_u

-- The page table that `pgdir_walk` adds, if it may and there is a page.
unfoldable pub add_table : Memory → ℕ → ℕ → Bool → Ended Memory
unfolding page_alloc_zero incref
add_table m pgdir va create =
    if m.words pgdir (pdx va) == 0 && create
    then (page_alloc_zero m >>= λ r. elim r.0 [
      | none ↦ done r.1
      | some p ↦ incref p r.1.alloc >>= λ k.
          done (store (record r.1 { alloc = k }) pgdir (pdx va) (table_entry p))
    ])
    else done m

-- A pointer to an entry is a page and an index. `KADDR` panics behind the last page.
unfoldable pub pgdir_walk : Memory → ℕ → ℕ → Bool → Ended (Option (ℕ × ℕ) × Memory)
unfolding add_table
pgdir_walk m pgdir va create = add_table m pgdir va create >>= λ m'.
    let pde = m'.words pgdir (pdx va) in
    if pde == 0
    then done (none, m')
    else if leb (length m'.alloc.pages) (pgnum pde)
    then panics
    else done (some (pgnum pde, ptx va), m')

-- The page mapped at an address, with its entry. The test `*pte && PTE_P` is one for zero.
unfoldable pub page_lookup : Memory → ℕ → ℕ → Ended (Option (ℕ × (ℕ × ℕ)))
unfolding pgdir_walk
page_lookup m pgdir va = pgdir_walk m pgdir va false >>= λ r. elim r.0 [
  | none ↦ done none
  | some ptr ↦
      let pte = m.words ptr.0 ptr.1 in
      if pte == 0
      then done none
      else if leb (length m.alloc.pages) (pgnum pte)
      then panics
      else done (some (pgnum pte, ptr))
]

-- `!curenv || curenv->env_pgdir == pgdir`
abbrev pub flushes : Option (Option ℕ) → ℕ → Bool
flushes none pgdir = true
flushes (some none) pgdir = false
flushes (some (some p)) pgdir = p == pgdir

unfoldable pub tlb_invalidate : Memory → ℕ → ℕ → Memory
tlb_invalidate m pgdir va =
    if flushes m.cur_pgdir pgdir then record m { flushed = va ∷ m.flushed } else m

-- Nothing happens at an address where `page_lookup` finds no page.
unfoldable pub page_remove : Memory → ℕ → ℕ → Ended Memory
unfolding page_lookup tlb_invalidate
page_remove m pgdir va = page_lookup m pgdir va >>= λ found. elim found [
  | none ↦ done m
  | some hit ↦ page_decref hit.0 m.alloc >>= λ k.
      done (tlb_invalidate (store (record m { alloc = k }) hit.1.0 hit.1.1 0) pgdir va)
]

-- The result 0 is `none`.
unfoldable pub page_insert : Memory → ℕ → ℕ → ℕ → ℕ → Ended (Option ErrorCode × Memory)
unfolding pgdir_walk incref page_remove
page_insert m pgdir pp va perm = pgdir_walk m pgdir va true >>= λ r. elim r.0 [
  | none ↦ done (some e_no_mem, r.1)
  | some ptr ↦ incref pp r.1.alloc >>= λ k.
      page_remove (record r.1 { alloc = k }) pgdir va >>= λ m'.
      done (none, store m' ptr.0 ptr.1 (bit_or (bit_or (pp * 4096) perm) pte_p))
]
