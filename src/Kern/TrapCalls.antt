-- ===== src/Kern/TrapCalls.antt =====
-- A system call from user mode, by way of `trap` of sched/kern/trap.c.
use sis_ops.Common.{
  ℕ, ◌%◌, ◌-◌, ◌^◌, ◌<◌, ◌≡◌, pos, negsuc, int_of, refl, ap, ◌∙◌, Option, some, true, false, arith,
  get_elem?-set_self,
}
use sis_ops.Kern.{
  e_bad_env, e_inval, e_no_mem, e_no_free_env, e_fault, e_ipc_not_recv, env_running, Trapframe, Env,
}
use sis_ops.Kern.FreePages.{get_elem?-lt}
use sis_ops.Kern.Kernel.{Kernel, Ret, value, failed, Result, returns, env_at, set_env}
use sis_ops.Kern.Dispatch.{syscall}
use sis_ops.Kern.Trap.{
  Inputs, eax_of, set_eax, then_eax, runs_env, trap_dispatch, trap_end, user_trap, trap,
}

-- The state in which a trap of the environment `c` is dispatched.
abbrev pub saved : Kernel → ℕ → Env → Trapframe → Kernel
saved k c e tf =
    set_env (record k { cpu = record k.cpu { kernel_locked = true; halted = false } }) c
      (record e { env_tf = tf })

-- The frame with a word in the register of the result.
abbrev pub answered : ℕ → Trapframe → Trapframe
answered a f = record f { tf_regs = record f.tf_regs { reg_eax = a } }

-- What the caller reads in the register as an `int`: the value, or minus the number that inc/error.h gives
-- the error.
abbrev pub IsAnswer : ℕ → Ret → Type 0
IsAnswer a (value z) = (int_of a ≡ z) × (a < 2 ^ 32)
IsAnswer a (failed e_bad_env) = int_of a ≡ negsuc 1
IsAnswer a (failed e_inval) = int_of a ≡ negsuc 2
IsAnswer a (failed e_no_mem) = int_of a ≡ negsuc 3
IsAnswer a (failed e_no_free_env) = int_of a ≡ negsuc 4
IsAnswer a (failed e_fault) = int_of a ≡ negsuc 5
IsAnswer a (failed e_ipc_not_recv) = int_of a ≡ negsuc 6

-- A value that is an `int`.
abbrev pub IsInt : Ret → Type 0
IsInt (value (pos n)) = n < 2 ^ 31
IsInt (value (negsuc n)) = n < 2 ^ 31
IsInt (failed e) = Unit

int_of-pos : (n : ℕ) → n < 2 ^ 31 → int_of (n % 2 ^ 32) ≡ pos n
int_of-pos n h = let e : n % 4294967296 ≡ n = omega arith in ground (arith, e)

int_of-negsuc : (n : ℕ) → n < 2 ^ 31 → int_of (2 ^ 32 - 1 - n % 2 ^ 32) ≡ negsuc n
int_of-negsuc n h =
    let e : 4294967296 - (4294967295 - n % 4294967296) - 1 ≡ n = omega arith in ground (arith, e)

eax_of-IsAnswer : (r : Ret) → IsInt r → IsAnswer (eax_of r) r
eax_of-IsAnswer (value (pos n)) h = (int_of-pos n h, omega arith)
eax_of-IsAnswer (value (negsuc n)) h = (int_of-negsuc n h, omega arith)
eax_of-IsAnswer (failed e_bad_env) h = refl
eax_of-IsAnswer (failed e_inval) h = refl
eax_of-IsAnswer (failed e_no_mem) h = refl
eax_of-IsAnswer (failed e_no_free_env) h = refl
eax_of-IsAnswer (failed e_fault) h = refl
eax_of-IsAnswer (failed e_ipc_not_recv) h = refl

-- The system call that a frame asks for.
abbrev pub call_in : Inputs → Kernel → Trapframe → Result
call_in env k tf =
    syscall env.serial env.kbd k tf.tf_regs.reg_eax tf.tf_regs.reg_edx tf.tf_regs.reg_ecx
      tf.tf_regs.reg_ebx tf.tf_regs.reg_edi tf.tf_regs.reg_esi

trap_end-running :
    (k : Kernel) (c : ℕ) (e : Env)
    → k.cpu.curenv ≡ some c
    → env_at k c ≡ some e
    → e.env_status ≡ env_running
    → trap_end k ≡ runs_env k c
unfolding trap_end
trap_end-running k c e cur here runs = ground arith

dispatch-syscall :
    (env : Inputs) (k : Kernel) (loc : Option ℕ) (tf : Trapframe) (next : Kernel → Result)
    → tf.tf_trapno ≡ 48
    → trap_dispatch env k loc tf next ≡ then_eax loc next (call_in env k tf)
unfolding trap_dispatch
dispatch-syscall env k loc tf next n = rw n refl

user_trap-running :
    (env : Inputs) (k : Kernel) (c : ℕ) (e : Env) (tf : Trapframe)
    → k.cpu.curenv ≡ some c
    → env_at k c ≡ some e
    → e.env_status ≡ env_running
    → user_trap env k tf
      ≡ trap_dispatch env (set_env k c (record e { env_tf = tf })) (some c) tf trap_end
unfolding user_trap
user_trap-running env k c e tf cur here runs = ground arith

abbrev locked_of : Kernel → Kernel
locked_of k = record k { cpu = record k.cpu { kernel_locked = true; halted = false } }

trap_locks :
    (env : Inputs) (k : Kernel) (tf : Trapframe)
    → k.cpu.halted ≡ false
    → k.cpu.kernel_locked ≡ false
    → tf.tf_cs % 4 ≡ 3
    → trap env k tf ≡ user_trap env (locked_of k) tf
unfolding trap
trap_locks env k tf awake free user = ground arith

trap-user :
    (env : Inputs) (k : Kernel) (c : ℕ) (e : Env) (tf : Trapframe)
    → k.cpu.halted ≡ false
    → k.cpu.kernel_locked ≡ false
    → tf.tf_cs % 4 ≡ 3
    → k.cpu.curenv ≡ some c
    → env_at k c ≡ some e
    → e.env_status ≡ env_running
    → trap env k tf ≡ trap_dispatch env (saved k c e tf) (some c) tf trap_end
trap-user env k c e tf awake free user cur here runs =
    trap_locks env k tf awake free user ∙ user_trap-running env (locked_of k) c e tf cur here runs

set_eax-some :
    (k : Kernel) (c : ℕ) (e : Env) (r : Ret)
    → env_at k c ≡ some e
    → set_eax (some c) r k ≡ set_env k c (record e { env_tf = answered (eax_of r) e.env_tf })
set_eax-some k c e r here = ground arith

-- A system call that an environment makes with the lock free, and that returns an error or a value that
-- fits an `int`, with the environment still running: the environment goes on with its frame as the call
-- left it, but for a word in eax that reads as that value, or as minus the number of the error.
pub trap-syscall :
    (env : Inputs) (k k' : Kernel) (c : ℕ) (e e' : Env) (tf : Trapframe) (r : Ret)
    → k.cpu.halted ≡ false
    → k.cpu.kernel_locked ≡ false
    → tf.tf_cs % 4 ≡ 3
    → tf.tf_trapno ≡ 48
    → k.cpu.curenv ≡ some c
    → env_at k c ≡ some e
    → e.env_status ≡ env_running
    → call_in env (saved k c e tf) tf ≡ returns r k'
    → k'.cpu.curenv ≡ some c
    → env_at k' c ≡ some e'
    → e'.env_status ≡ env_running
    → IsInt r
    → (a : ℕ) × IsAnswer a r
      × (trap env k tf ≡ runs_env (set_env k' c (record e' { env_tf = answered a e'.env_tf })) c)
trap-syscall env k k' c e e' tf r awake free user number cur here runs call cur' here' runs' int = (
  eax_of r,
  eax_of-IsAnswer r int,
  trap-user env k c e tf awake free user cur here runs
      ∙ dispatch-syscall env (saved k c e tf) (some c) tf trap_end number
      ∙ ap (then_eax (some c) trap_end) call
      ∙ ap trap_end (set_eax-some k' c e' r here')
      ∙ trap_end-running (set_env k' c e'') c e'' cur'
          (get_elem?-set_self k'.cpu.envs c e'' (get_elem?-lt k'.cpu.envs c e' here')) runs',
)
  where
    e'' : Env
    e'' = record e' { env_tf = answered (eax_of r) e'.env_tf }
