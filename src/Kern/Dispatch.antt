-- ===== src/Kern/Dispatch.antt =====
-- The dispatch of system calls: `syscall` of sched/kern/syscall.c.
use sis_ops.Common.{int_of, ℕ, List, if◌then◌else◌, ◌==◌, ℤ}
use sis_ops.Kern.{e_inval}
use sis_ops.Kern.Kernel.{Kernel, Result, yields}
use sis_ops.Kern.Syscall.{
  fails, sys_cputs, sys_cgetc, sys_getenvid, sys_env_destroy, sys_exofork, sys_env_set_status,
  sys_page_alloc, sys_page_map, sys_page_unmap, sys_env_set_pgfault_upcall, sys_get_priority,
  sys_set_priority,
}
use sis_ops.Kern.IpcCalls.{sys_ipc_try_send, sys_ipc_recv}

-- The system calls with their arguments, as the dispatch reads them from the registers.
pub data Call : Type 0 where
  cputs : ℕ → ℕ → Call
  cgetc getenvid exofork yield_ : Call
  destroy : ℕ → Call
  set_status : ℕ → ℕ → Call
  alloc_page : ℕ → ℕ → ℕ → Call
  map_page : ℕ → ℕ → ℕ → ℕ → ℕ → Call
  unmap_page : ℕ → ℕ → Call
  ipc_recv : ℕ → Call
  ipc_try_send : ℕ → ℕ → ℕ → ℕ → Call
  set_pgfault_upcall : ℕ → ℕ → Call
  get_priority : ℕ → Call
  set_priority : ℕ → ℤ → Call
  invalid : Call

-- The number of a call, from sched/inc/syscall.h.
unfoldable pub call_of : ℕ → ℕ → ℕ → ℕ → ℕ → ℕ → Call
call_of number a1 a2 a3 a4 a5 =
    if number == 0
    then cputs a1 a2
    else if number == 1
    then cgetc
    else if number == 2
    then getenvid
    else if number == 3
    then destroy a1
    else if number == 4
    then alloc_page a1 a2 a3
    else if number == 5
    then map_page a1 a2 a3 a4 a5
    else if number == 6
    then unmap_page a1 a2
    else if number == 7
    then exofork
    else if number == 8
    then set_status a1 a2
    else if number == 9
    then set_pgfault_upcall a1 a2
    else if number == 10
    then yield_
    else if number == 11
    then ipc_try_send a1 a2 a3 a4
    else if number == 12
    then ipc_recv a1
    else if number == 13
    then get_priority a1
    else if number == 14
    then set_priority a1 (int_of a2)
    else if number == 15
    then get_priority a1
    else invalid

-- One call, with what the devices deliver to `sys_cgetc`.
unfoldable pub perform : List ℕ → List ℕ → Kernel → Call → Result
unfolding sys_cputs sys_cgetc sys_getenvid sys_env_destroy sys_exofork sys_env_set_status
    sys_page_alloc sys_page_map sys_page_unmap sys_ipc_recv sys_ipc_try_send
    sys_env_set_pgfault_upcall sys_get_priority sys_set_priority yields
perform serial kbd k (cputs s len) = sys_cputs k s len
perform serial kbd k cgetc = sys_cgetc serial kbd k
perform serial kbd k getenvid = sys_getenvid k
perform serial kbd k exofork = sys_exofork k
perform serial kbd k yield_ = yields k
perform serial kbd k (destroy envid) = sys_env_destroy k envid
perform serial kbd k (set_status envid status) = sys_env_set_status k envid status
perform serial kbd k (alloc_page envid va perm) = sys_page_alloc k envid va perm
perform serial kbd k (map_page src srcva dst dstva perm) = sys_page_map k src srcva dst dstva perm
perform serial kbd k (unmap_page envid va) = sys_page_unmap k envid va
perform serial kbd k (ipc_recv dstva) = sys_ipc_recv k dstva
perform serial kbd k (ipc_try_send envid val srcva perm) = sys_ipc_try_send k envid val srcva perm
perform serial kbd k (set_pgfault_upcall envid func) = sys_env_set_pgfault_upcall k envid func
perform serial kbd k (get_priority id) = sys_get_priority k id
perform serial kbd k (set_priority id new) = sys_set_priority k id new
perform serial kbd k invalid = fails e_inval k

unfoldable pub syscall : List ℕ → List ℕ → Kernel → ℕ → ℕ → ℕ → ℕ → ℕ → ℕ → Result
unfolding call_of perform
syscall serial kbd k number a1 a2 a3 a4 a5 = perform serial kbd k (call_of number a1 a2 a3 a4 a5)
