-- ===== src/Kern/IpcCalls.antt =====
-- The calls of sched/kern/syscall.c that send and receive.
use Prim.Native.Nat.{bit_and, bit_or}
use sis_ops.Common.{ℕ, ◌%◌, Option, some, none, true, false, not, ◌&&◌, if◌then◌else◌, ◌==◌, leb}
use sis_ops.Kern.{e_inval, e_ipc_not_recv, env_runnable, env_not_runnable, Env}
use sis_ops.Kern.Paging.{pgsize, pte_p, pte_w, pte_u}
use sis_ops.Kern.AddressMap.{utop}
use sis_ops.Kern.Kernel.{Kernel, Result, wild, env_at, set_env, deref, yields}
use sis_ops.Kern.Syscall.{
  fails, ok, with_env, env_page_alloc, lookup_page, env_page_map, bad_va, with_cur,
}

-- The end of `sys_ipc_try_send`: the receiver gets the value and may run.
abbrev pub received : ℕ → ℕ → Env → Env
received from val e = record e {
  env_ipc_from = from;
  env_ipc_recving = false;
  env_ipc_value = val;
  env_tf = record e.env_tf { tf_regs = record e.env_tf.tf_regs { reg_eax = 0 } };
  env_status = env_runnable;
}

unfoldable pub send_done : Kernel → ℕ → ℕ → Option ℕ → Result
send_done k i val perm = with_cur k λ c cur. deref (env_at k i) λ e.
    let e' : Env = elim perm [ none ↦ e | some p ↦ record e { env_ipc_perm = p } ] in
    ok (set_env k i (received cur.env_id val e'))

-- The page of a message: a page is allocated at the address first, and then replaced.
unfoldable pub send_page : Kernel → ℕ → ℕ → ℕ → ℕ → ℕ → ℕ → Result
send_page k c srcva i dstva val perm = env_page_alloc k i dstva perm λ o k1. elim o [
  | some e ↦ fails e k1
  | none ↦
      env_page_map k1 c srcva i dstva perm
        λ o2 k2. elim o2 [ some e ↦ fails e k2 | none ↦ send_done k2 i val (some perm) ]
]

-- Where nothing is mapped at `srcva`, the entry is read through a pointer that was never set.
unfoldable pub sys_ipc_try_send : Kernel → ℕ → ℕ → ℕ → ℕ → Result
unfolding with_env
sys_ipc_try_send k envid val srcva perm = with_env k envid false λ i. deref (env_at k i) λ dst.
    if not dst.env_ipc_recving
    then fails e_ipc_not_recv k
    else if leb utop srcva
    then send_done k i val (some 0)
    else if not (srcva % pgsize == 0)
    then fails e_inval k
    else (with_cur k λ c cur. lookup_page k c srcva λ r. elim r [
      | none ↦ wild
      | some hit ↦
          if not (hit.1 == 0) && bit_and hit.1 pte_p == 0
          then fails e_inval k
          else if not (bit_and perm pte_w == 0) && bit_and hit.1 pte_w == 0
          then fails e_inval k
          else if dst.env_ipc_dstva == 0
          then send_done k i val none
          else send_page k c srcva i dst.env_ipc_dstva val (bit_or (bit_or perm pte_u) pte_p)
    ])

-- `env_ipc_recving` is set before the address is checked.
unfoldable pub sys_ipc_recv : Kernel → ℕ → Result
sys_ipc_recv k dstva = with_cur k λ c e.
    if bad_va dstva
    then fails e_inval (set_env k c (record e { env_ipc_recving = true }))
    else yields (
        set_env k c (record e {
          env_ipc_recving = true;
          env_ipc_dstva = dstva;
          env_status = env_not_runnable;
        }))
