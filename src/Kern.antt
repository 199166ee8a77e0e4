-- ===== src/Kern.antt =====
-- sched/inc/env.h, sched/inc/trap.h, sched/kern/env.h, sched/kern/cpu.h: the state of the kernel as
-- one CPU sees it while it holds the kernel lock.
pub mod Links
pub mod Pages
pub mod FreePages
pub mod InitPages
pub mod Giving
pub mod Paging
pub mod AddressMap
pub mod Mapping
pub mod Counting
pub mod Walking
pub mod Accounts
pub mod Entries
pub mod Keeping
pub mod Filling
pub mod Insertion
pub mod UserMem
pub mod Spaces
pub mod Adding
pub mod Taking
pub mod Leaving
pub mod Sweeping
pub mod Unmapping
pub mod Releasing
pub mod Secure
pub mod SecureCalls
pub mod SecureAlloc
pub mod SecureMap
pub mod SecureDestroy
mod SecureTests
mod SpaceTests
mod CallTests
pub mod Console
pub mod Envs
pub mod Kernel
pub mod Syscall
pub mod IpcCalls
pub mod Dispatch
pub mod Spinlock
pub mod Trap
pub mod Faults
pub mod TrapCalls
mod TrapTests
pub mod Ipc
pub mod Priorities
pub mod Exofork
pub mod PageCalls
pub mod PageLeak
pub mod Ids
pub mod Init
mod Tests
pub mod Sched
use sis_ops.Common.{ℕ, ◌+◌, ◌%◌, ◌^◌, Option, Bool, ℤ}

pub data EnvStatus : Type 0 where
  env_free env_dying env_runnable env_running env_not_runnable : EnvStatus

-- The codes of sched/inc/error.h that the kernel returns, each negated.
pub data ErrorCode : Type 0 where
  e_bad_env e_inval e_no_mem e_no_free_env e_fault e_ipc_not_recv : ErrorCode

abbrev pub nenv : ℕ
nenv = 1024

-- `ENVX(envid)`, the low ten bits.
abbrev pub envx : ℕ → ℕ
envx envid = envid % nenv

abbrev pub default_priority : ℤ
default_priority = ℤ.pos 5

-- `struct PushRegs`, as `pushal` leaves it.
pub record PushRegs : Type 0 where
  pub reg_edi : ℕ
  pub reg_esi : ℕ
  pub reg_ebp : ℕ
  pub reg_oesp : ℕ
  pub reg_ebx : ℕ
  pub reg_edx : ℕ
  pub reg_ecx : ℕ
  pub reg_eax : ℕ

-- `struct Trapframe` without its padding.
pub record Trapframe : Type 0 where
  pub tf_regs : PushRegs
  pub tf_es : ℕ
  pub tf_ds : ℕ
  pub tf_trapno : ℕ
  pub tf_err : ℕ
  pub tf_eip : ℕ
  pub tf_cs : ℕ
  pub tf_eflags : ℕ
  pub tf_esp : ℕ
  pub tf_ss : ℕ

-- What a page fault leaves on the exception stack.
pub record UTrapframe : Type 0 where
  pub utf_fault_va : ℕ
  pub utf_err : ℕ
  pub utf_regs : PushRegs
  pub utf_eip : ℕ
  pub utf_eflags : ℕ
  pub utf_esp : ℕ

-- `struct Env`. A pointer into `envs` is an index, a page directory is the number of its page, and
-- `env_type` is left out: it has one value.
pub record Env : Type 0 where
  pub env_tf : Trapframe
  pub env_link : Option ℕ
  pub env_id : ℕ
  pub env_parent_id : ℕ
  pub env_status : EnvStatus
  pub env_runs : ℕ
  pub env_cpunum : ℕ
  pub priority : ℤ
  pub env_pgdir : Option ℕ
  pub env_pgfault_upcall : ℕ
  pub env_ipc_recving : Bool
  pub env_ipc_dstva : ℕ
  pub env_ipc_value : ℕ
  pub env_ipc_from : ℕ
  pub env_ipc_perm : ℕ
  pub env_times_boosted : ℕ

-- `uint32_t` increment.
abbrev pub inc32 : ℕ → ℕ
inc32 n = (n + 1) % 2 ^ 32
