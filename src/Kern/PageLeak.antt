-- ===== src/Kern/PageLeak.antt =====
-- `sys_page_alloc` of sched/kern/syscall.c when memory runs out.
use Prim.Native.Nat.{bit_or}
use sis_ops.Common.{ℕ, ◌≡◌, ◌≢◌, ◌∙◌, [], ◌∷◌, Option, some, none, true, false, arith}
use sis_ops.Kern.{ErrorCode, e_no_mem, Env}
use sis_ops.Kern.Pages.{done}
use sis_ops.Kern.FreePages.{Free, page_alloc-Free}
use sis_ops.Kern.Paging.{pdx, pte_p, pte_u, Memory, clear, page_alloc_zero}
use sis_ops.Kern.Walking.{
  page_alloc_zero-some, page_alloc_zero-none, add_table-none, pgdir_walk-none,
}
use sis_ops.Kern.Insertion.{page_insert-none}
use sis_ops.Kern.Envs.{found, envid2env}
use sis_ops.Kern.Kernel.{Kernel, Result, env_at, memory, with_memory}
use sis_ops.Kern.Syscall.{
  fails, bad_va, answer, check_perm, insert_page, env_page_alloc, sys_page_alloc,
}
use sis_ops.Kern.PageCalls.{insert_page_lem}

pub sys_page_alloc_lem :
    (k : Kernel) (envid va perm i : ℕ)
    → envid2env k.cpu.envs k.cpu.curenv envid true ≡ found (some i)
    → bad_va va ≡ false
    → sys_page_alloc k envid va perm
      ≡ env_page_alloc k i va (bit_or (bit_or perm pte_u) pte_p) answer
unfolding sys_page_alloc
sys_page_alloc_lem k envid va perm i a b = ground arith

pub env_page_alloc_lem :
    (k : Kernel) (i va perm p : ℕ) (m : Memory) (next : Option ErrorCode → Kernel → Result)
    → check_perm perm none ≡ none
    → page_alloc_zero (memory k) ≡ done (some p, m)
    → env_page_alloc k i va perm next ≡ insert_page (with_memory k m) i p va perm next
unfolding env_page_alloc
env_page_alloc_lem k i va perm p m next a b = ground arith

-- When a single page is free and the address has no page table, `sys_page_alloc` gives E_NO_MEM, and
-- the page is lost: it is no longer free, though nothing refers to it.
sys_page_alloc_leaks :
    (k : Kernel) (envid va perm i d p : ℕ) (e : Env)
    → envid2env k.cpu.envs k.cpu.curenv envid true ≡ found (some i)
    → bad_va va ≡ false
    → check_perm (bit_or (bit_or perm pte_u) pte_p) none ≡ none
    → env_at k i ≡ some e
    → e.env_pgdir ≡ some d
    → Free k.alloc (p ∷ [])
    → d ≢ p
    → k.words d (pdx va) ≡ 0
    → (k' : Kernel) × (sys_page_alloc k envid va perm ≡ fails e_no_mem k') × Free k'.alloc []
sys_page_alloc_leaks k envid va perm i d p e who ok_va ok_perm here dir f ne absent =
    let h = page_alloc-Free k.alloc (p ∷ []) f in
    let m1 : Memory = clear (record (memory k) { alloc = h.0 }) p in
    let flags = bit_or (bit_or perm pte_u) pte_p in
    let took = page_alloc_zero-some (memory k) p h.0 h.1 in
    let no_table : m1.words d (pdx va) ≡ 0 = ground arith in
    let empty = page_alloc_zero-none m1 (page_alloc-Free h.0 [] h.2) in
    let walk = pgdir_walk-none m1 m1 d va (add_table-none m1 d va no_table empty) no_table in
    let insert = page_insert-none m1 m1 d p va flags walk in
    (
      with_memory k m1,
      sys_page_alloc_lem k envid va perm i who ok_va
          ∙ env_page_alloc_lem k i va flags p m1 answer ok_perm took
          ∙ insert_page_lem (with_memory k m1) i p va flags d answer e (some e_no_mem) m1 here dir
              insert,
      h.2,
    )
