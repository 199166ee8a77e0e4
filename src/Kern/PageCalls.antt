-- ===== src/Kern/PageCalls.antt =====
-- `sys_page_map` and `sys_page_alloc` of sched/kern/syscall.c.
use Prim.Native.Nat.{bit_and, bit_or}
use sis_ops.Common.{
  ◌⊎◌, ℕ, ◌/◌, ◌<◌, ◌≡◌, ◌≢◌, sym, ap, ◌∙◌, inl, inr, List, Option, some, none, true, false, not,
  ◌&&◌, if◌then◌else◌, ◌==◌, arith, get_elem?, option_eq, All,
}
use sis_ops.Common.Bits.{bit_or-div_page, zero-bit_or}
use sis_ops.Kern.{ErrorCode, e_no_mem, Env}
use sis_ops.Kern.Pages.{PageInfo, done}
use sis_ops.Kern.Paging.{pdx, ptx, pgnum, pte_p, pte_w, pte_u, Memory, page_lookup, page_insert}
use sis_ops.Kern.AddressMap.{utop, user_tables, same_page, entry_of, entry_of-some}
use sis_ops.Kern.Mapping.{IsSpace, Used}
use sis_ops.Kern.Walking.{Used-busy}
use sis_ops.Kern.Insertion.{page_entry, pgnum-page_entry, page_insert-Inserted}
use mathlib.Core.Path.{subst}
use sis_ops.Kern.Spaces.{page_lookup-IsSpace}
use sis_ops.Kern.Envs.{found, envid2env}
use sis_ops.Kern.Kernel.{Kernel, Result, env_at, memory, with_memory}
use sis_ops.Kern.Syscall.{
  fails, ok, bad_va, answer, insert_page, lookup_page, env_page_map, sys_page_map,
}

pub insert_page_lem :
    (k : Kernel) (i pp va perm d : ℕ) (next : Option ErrorCode → Kernel → Result) (e : Env)
    (o : Option ErrorCode) (m : Memory)
    → env_at k i ≡ some e
    → e.env_pgdir ≡ some d
    → page_insert (memory k) d pp va perm ≡ done (o, m)
    → insert_page k i pp va perm next ≡ next o (with_memory k m)
unfolding insert_page
insert_page_lem k i pp va perm d next e o m a b c = ground arith

lookup_page_lem :
    (k : Kernel) (i va d q t j : ℕ) (next : Option (ℕ × ℕ) → Result) (e : Env)
    → env_at k i ≡ some e
    → e.env_pgdir ≡ some d
    → page_lookup (memory k) d va ≡ done (some (q, (t, j)))
    → lookup_page k i va next ≡ next (some (q, k.words t j))
unfolding lookup_page
lookup_page_lem k i va d q t j next e a b c = ground arith

-- The flags that `sys_page_map` passes on.
abbrev pub map_flags : ℕ → ℕ
map_flags perm = bit_or (bit_or pte_p pte_u) perm

-- The ids lead to environments that the caller may use, with these directories.
pub record Parties (k : Kernel) (srcenvid dstenvid i j ds dd : ℕ) (se de : Env) : Type 0 where
  pub src : envid2env k.cpu.envs k.cpu.curenv srcenvid true ≡ found (some i)
  pub dst : envid2env k.cpu.envs k.cpu.curenv dstenvid true ≡ found (some j)
  pub src_env : env_at k i ≡ some se
  pub dst_env : env_at k j ≡ some de
  pub src_dir : se.env_pgdir ≡ some ds
  pub dst_dir : de.env_pgdir ≡ some dd

pub env_page_map_lem :
    (k : Kernel) (i srcva j dstva perm q pte t x ds : ℕ) (next : Option ErrorCode → Kernel → Result)
    (se : Env)
    → env_at k i ≡ some se
    → se.env_pgdir ≡ some ds
    → page_lookup (memory k) ds srcva ≡ done (some (q, (t, x)))
    → k.words t x ≡ pte
    → (not (bit_and perm pte_w == 0) && bit_and pte pte_w == 0) ≡ false
    → env_page_map k i srcva j dstva perm next ≡ insert_page k j q dstva perm next
unfolding env_page_map
env_page_map_lem k i srcva j dstva perm q pte t x ds next se a b c d e =
    lookup_page_lem k i srcva ds q t x _ se a b c ∙ ground arith

pub sys_page_map_lem :
    (k : Kernel) (srcenvid srcva dstenvid dstva perm i j ds dd : ℕ) (se de : Env)
    → Parties k srcenvid dstenvid i j ds dd se de
    → bad_va srcva ≡ false
    → bad_va dstva ≡ false
    → sys_page_map k srcenvid srcva dstenvid dstva perm
      ≡ env_page_map k i srcva j dstva (map_flags perm) answer
unfolding sys_page_map
sys_page_map_lem k srcenvid srcva dstenvid dstva perm i j ds dd se de p a b =
    ground (arith, p.src, p.dst)

pub looked_up :
    (k : Kernel) (d va pte : ℕ) (is : List ℕ)
    → IsSpace (memory k) d is
    → va < utop
    → entry_of k.words d va ≡ some pte
    → page_lookup (memory k) d va ≡ done (some (pgnum pte, (pgnum (k.words d (pdx va)), ptx va)))
looked_up k d va pte is s h e =
    page_lookup-IsSpace (memory k) d va is s h
    ∙ ap
        (λ (o : Option ℕ). done (elim o as (λ _. Option (ℕ × (ℕ × ℕ))) [
          | none ↦ none
          | some x ↦ some (pgnum x, (pgnum (k.words d (pdx va)), ptx va))
        ]))
        e

pub low_va : (va : ℕ) → bad_va va ≡ false → va < utop
low_va va h = ground arith

-- Between two environments that the caller may use, `sys_page_map` of a page that is mapped at
-- `srcva`, with less than 65535 references, and writable if PTE_W is asked for, changes the destination's
-- map at `dstva` and nowhere else, or gives E_NO_MEM and changes nothing. The flags are not checked: bits of `perm` above the low 12
-- pass into the number of the page.
pub sys_page_map_any_page :
    (k : Kernel) (srcenvid srcva dstenvid dstva perm i j ds dd pte : ℕ) (se de : Env)
    (is js : List ℕ)
    → Parties k srcenvid dstenvid i j ds dd se de
    → bad_va srcva ≡ false
    → bad_va dstva ≡ false
    → IsSpace (memory k) ds is
    → IsSpace (memory k) dd js
    → entry_of k.words ds srcva ≡ some pte
    → (not (bit_and (map_flags perm) pte_w == 0) && bit_and pte pte_w == 0) ≡ false
    → (p : PageInfo) → get_elem? k.alloc.pages (pgnum pte) ≡ some p
    → p.pp_ref < 65535
    → ((m : Memory) × (entry : ℕ) × (sys_page_map k srcenvid srcva dstenvid dstva perm
          ≡ ok (with_memory k m))
        × ((vb : ℕ)
            → vb < utop
            → entry_of m.words dd vb
              ≡ (if same_page dstva vb then some entry else entry_of k.words dd vb))
        × (pgnum entry ≡ bit_or (pgnum pte) (perm / 4096)))
      ⊎ (sys_page_map k srcenvid srcva dstenvid dstva perm ≡ fails e_no_mem k)
sys_page_map_any_page k srcenvid srcva dstenvid dstva perm i j ds dd pte se de is js who a b s d e w
      p here room =
    elim (page_insert-Inserted (memory k) dd dstva q flags p js (low_va dstva b) busy here alone
      room d) [
        | inl r ↦
            let m' = r.0 in
            inl (m', page_entry q flags, called none m' r.1.done_, r.1.entries, chosen)
        | inr r ↦ inr (called (some e_no_mem) (memory k) r.2)
      ]
  where
    q : ℕ
    q = pgnum pte

    flags : ℕ
    flags = map_flags perm

    at :
        (k.words ds (pdx srcva) ≢ 0)
        × (k.words (pgnum (k.words ds (pdx srcva))) (ptx srcva) ≡ pte)
        × (pte ≢ 0)
    at = entry_of-some k.words ds srcva pte e

    low : pdx srcva < user_tables
    low = let h = low_va srcva a in omega arith

    used : Used k.alloc q
    used =
        subst (λ (x : ℕ). Used k.alloc (pgnum x)) at.1
          (s.mapped (pdx srcva) (ptx srcva) low at.0 (λ z. at.2 (sym at.1 ∙ z)))

    same : used.0 ≡ p
    same = option_eq used.0 p (sym used.1 ∙ here)

    alone : p.pp_link ≡ none
    alone = ap (λ (x : PageInfo). x.pp_link) (sym same) ∙ used.2

    busy : All (λ z. z ≢ q) js
    busy = Used-busy k.alloc q js d.free used

    looked :
        page_lookup (memory k) ds srcva
        ≡ done (some (q, (pgnum (k.words ds (pdx srcva)), ptx srcva)))
    looked = looked_up k ds srcva pte is s (low_va srcva a) e

    called :
        (o : Option ErrorCode) (m : Memory)
        → page_insert (memory k) dd q dstva flags ≡ done (o, m)
        → sys_page_map k srcenvid srcva dstenvid dstva perm ≡ answer o (with_memory k m)
    called o m h =
        sys_page_map_lem k srcenvid srcva dstenvid dstva perm i j ds dd se de who a b
        ∙ env_page_map_lem k i srcva j dstva flags q pte (pgnum (k.words ds (pdx srcva)))
            (ptx srcva) ds answer se who.src_env who.src_dir looked at.1 w
        ∙ insert_page_lem k j q dstva flags dd answer de o m who.dst_env who.dst_dir h

    chosen : pgnum (page_entry q flags) ≡ bit_or q (perm / 4096)
    chosen =
        pgnum-page_entry q flags
        ∙ ap (bit_or q) (bit_or-div_page (bit_or pte_p pte_u) perm ∙ zero-bit_or (perm / 4096))
