-- ===== src/Kern/Syscall.antt =====
-- The system calls of sched/kern/syscall.c on environments and their memory.
use Prim.Native.Nat.{bit_and, bit_or}
use sis_ops.Common.{
  ℕ, ◌+◌, ◌*◌, ◌%◌, List, [], ◌∷◌, Option, some, none, Bool, true, not, ◌&&◌, ◌||◌, if◌then◌else◌,
  ◌==◌, leb, get_elem?, set, ℤ, pos, negsuc, ltb_ℤ,
}
use sis_ops.Kern.{ErrorCode, e_inval, e_no_mem, env_runnable, env_not_runnable, Env}
use sis_ops.Kern.Paging.{
  pgsize, pte_p, pte_w, pte_u, page_alloc_zero, page_lookup, page_insert, page_remove,
}
use sis_ops.Kern.AddressMap.{utop}
use sis_ops.Kern.Envs.{Lookup, found, refused, envid2env, Allocated, allocated, env_alloc}
use sis_ops.Kern.Console.{cons_getc}
use sis_ops.Kern.Kernel.{
  Kernel, value, failed, Result, returns, wild, env_at, set_env, memory, with_memory, after, deref,
  env_destroy, user_mem_assert,
}

-- A return of an error code.
abbrev pub fails : ErrorCode → Kernel → Result
fails e k = returns (failed e) k

abbrev pub ok : Kernel → Result
ok k = returns (value (pos 0)) k

-- `envid2env`, and what follows if it finds an environment. The id 0 stands for `curenv`.
unfoldable pub with_env : Kernel → ℕ → Bool → (ℕ → Result) → Result
with_env k envid checkperm next = elim (envid2env k.cpu.envs k.cpu.curenv envid checkperm) [
  | found o ↦ deref o next
  | refused e ↦ fails e k
  | Lookup.wild ↦ wild
]

-- Flags: `~PTE_SYSCALL`, in 32 bits.
abbrev not_pte_syscall : ℕ
not_pte_syscall = 4294963704

-- `check_perm`, with the entry behind the pointer, if it is not null; `none` is 0.
unfoldable pub check_perm : ℕ → Option ℕ → Option ErrorCode
check_perm perm pte =
    if not (bit_and perm not_pte_syscall == 0)
    then some e_inval
    else if bit_and perm pte_p == 0 || bit_and perm pte_u == 0
    then some e_inval
    else elim pte [
      | none ↦ none
      | some entry ↦
          if not (entry == 0) && bit_and entry pte_p == 0
          then some e_inval
          else if not (bit_and perm pte_w == 0) && bit_and entry pte_w == 0
          then some e_inval
          else none
    ]

-- `page_insert` into the directory of an environment, and what its caller does with the result.
unfoldable pub insert_page : Kernel → ℕ → ℕ → ℕ → ℕ → (Option ErrorCode → Kernel → Result) → Result
insert_page k i page va perm next = deref (env_at k i) λ e.
    deref e.env_pgdir
      λ pgdir. after (page_insert (memory k) pgdir page va perm) λ r. next r.0 (with_memory k r.1)

-- `env_page_alloc`; the page that was taken is not given back when `page_insert` fails.
unfoldable pub env_page_alloc : Kernel → ℕ → ℕ → ℕ → (Option ErrorCode → Kernel → Result) → Result
env_page_alloc k i va perm next = elim (check_perm perm none) [
  | some e ↦ next (some e) k
  | none ↦ after (page_alloc_zero (memory k)) λ r. elim r.0 [
    | none ↦ next (some e_no_mem) (with_memory k r.1)
    | some p ↦ insert_page (with_memory k r.1) i p va perm next
  ]
]

-- `page_lookup` in the directory of an environment: the page and the entry.
unfoldable pub lookup_page : Kernel → ℕ → ℕ → (Option (ℕ × ℕ) → Result) → Result
lookup_page k i va next = deref (env_at k i) λ e. deref e.env_pgdir λ pgdir.
    after (page_lookup (memory k) pgdir va)
      λ r. elim r [ none ↦ next none | some hit ↦ next (some (hit.0, k.words hit.1.0 hit.1.1)) ]

unfoldable pub env_page_map :
    Kernel → ℕ → ℕ → ℕ → ℕ → ℕ → (Option ErrorCode → Kernel → Result) → Result
env_page_map k src srcva dst dstva perm next = lookup_page k src srcva λ r. elim r [
  | none ↦ next (some e_inval) k
  | some hit ↦
      if not (bit_and perm pte_w == 0) && bit_and hit.1 pte_w == 0
      then next (some e_inval) k
      else insert_page k dst hit.0 dstva perm next
]

-- A result of 0 or an error code, returned.
abbrev pub answer : Option ErrorCode → Kernel → Result
answer none k = ok k
answer (some e) k = fails e k

-- `va >= UTOP || va % PGSIZE`
abbrev pub bad_va : ℕ → Bool
bad_va va = leb utop va || not (va % pgsize == 0)

-- `curenv`, which these calls take to be there.
abbrev pub with_cur : Kernel → (ℕ → Env → Result) → Result
with_cur k next = deref k.cpu.curenv λ c. deref (env_at k c) λ e. next c e

-- Printing is left out.
unfoldable pub sys_cputs : Kernel → ℕ → ℕ → Result
sys_cputs k s len = deref k.cpu.curenv λ c. user_mem_assert k c s len 7 ok

-- `serial` and `kbd` are what the devices deliver.
unfoldable pub sys_cgetc : List ℕ → List ℕ → Kernel → Result
sys_cgetc serial kbd k =
    deref (cons_getc serial kbd k.cons) λ r. returns (value (pos r.0)) (record k { cons = r.1 })

unfoldable pub sys_getenvid : Kernel → Result
sys_getenvid k = with_cur k λ c e. returns (value (pos e.env_id)) k

unfoldable pub sys_env_destroy : Kernel → ℕ → Result
unfolding with_env
sys_env_destroy k envid = with_env k envid true λ i. env_destroy k i ok

unfoldable pub sys_env_set_status : Kernel → ℕ → ℕ → Result
unfolding with_env
sys_env_set_status k envid status =
    if status == 2 || status == 4
    then (with_env k envid true λ i. deref (env_at k i) λ e. ok (
        set_env k i
          (record e { env_status = if status == 2 then env_runnable else env_not_runnable })))
    else fails e_inval k

-- Where `env_destroy` returns from `user_mem_assert`, the upcall is set all the same.
unfoldable pub sys_env_set_pgfault_upcall : Kernel → ℕ → ℕ → Result
unfolding with_env
sys_env_set_pgfault_upcall k envid func = with_env k envid true λ i.
    user_mem_assert k i func pgsize 5
      λ k'. deref (env_at k' i) λ e. ok (set_env k' i (record e { env_pgfault_upcall = func }))

unfoldable pub sys_page_alloc : Kernel → ℕ → ℕ → ℕ → Result
unfolding with_env
sys_page_alloc k envid va perm =
    if bad_va va
    then fails e_inval k
    else (with_env k envid true
        λ i. env_page_alloc k i va (bit_or (bit_or perm pte_u) pte_p) answer)

-- The flags are not checked here.
unfoldable pub sys_page_map : Kernel → ℕ → ℕ → ℕ → ℕ → ℕ → Result
unfolding with_env
sys_page_map k srcenvid srcva dstenvid dstva perm =
    if bad_va srcva
    then fails e_inval k
    else if bad_va dstva
    then fails e_inval k
    else (with_env k srcenvid true λ src.
        with_env k dstenvid true
          λ dst. env_page_map k src srcva dst dstva (bit_or (bit_or pte_p pte_u) perm) answer)

unfoldable pub sys_page_unmap : Kernel → ℕ → ℕ → Result
unfolding with_env
sys_page_unmap k envid va =
    if bad_va va
    then fails e_inval k
    else (with_env k envid true λ i. deref (env_at k i) λ e.
        deref e.env_pgdir
          λ pgdir. after (page_remove (memory k) pgdir va) λ m. ok (with_memory k m))

-- The words of the page directory `pgdir` as `env_setup_vm` fills them; PDX(UVPT) is 957.
abbrev pub filled : (ℕ → ℕ → ℕ) → ℕ → ℕ → ℕ → ℕ → ℕ
filled words kern pgdir p j =
    if p == pgdir
    then (if j == 957 then bit_or (bit_or (pgdir * 4096) pte_p) pte_u else words kern j)
    else words p j

-- The child as its parent makes it.
abbrev pub child_of : Env → Env → Env
child_of parent e = record e {
  env_status = env_not_runnable;
  env_tf = record parent.env_tf { tf_regs = record parent.env_tf.tf_regs { reg_eax = 0 } };
}

unfoldable pub sys_exofork : Kernel → Result
sys_exofork k = with_cur k λ c cur.
    after
      (env_alloc (record { envs = k.cpu.envs; env_free_list = k.env_free_list }) k.alloc cur.env_id)
      λ r. elim r.0 [
        | Allocated.failed e ↦ fails e (record k { alloc = r.2 })
        | allocated i ↦ deref (get_elem? r.1.envs i) λ e. deref e.env_pgdir λ pgdir.
            returns (value (pos e.env_id)) (record k {
              cpu = record k.cpu { envs = set r.1.envs i (child_of cur e) };
              env_free_list = r.1.env_free_list;
              alloc = r.2;
              words = filled k.words k.kern_pgdir pgdir;
            })
      ]

-- The first environment with an id, and its index.
unfoldable pub find_id : ℕ → List Env → ℕ → Option (ℕ × Env)
find_id id [] i = none
find_id id (e ∷ envs) i =
    let later = find_id id envs (i + 1) in if e.env_id == id then some (i, e) else later

-- `sys_get_priority` and `sys_get_priority_id`
unfoldable pub sys_get_priority : Kernel → ℕ → Result
sys_get_priority k id = elim (find_id id k.cpu.envs 0) [
  | none ↦ returns (value (negsuc 0)) k
  | some (i, e) ↦ returns (value e.priority) k
]

unfoldable pub sys_set_priority : Kernel → ℕ → ℤ → Result
sys_set_priority k id new_priority = elim (find_id id k.cpu.envs 0) [
  | none ↦ returns (value (negsuc 0)) k
  | some (i, e) ↦
      if ltb_ℤ new_priority e.priority
      then ok (set_env k i (record e { priority = new_priority }))
      else ok k
]
