-- ===== src/Kern/Trap.antt =====
-- Traps: sched/kern/trap.c, from the frame that the entry points build.
use sis_ops.Common.{
  ℕ, ◌-◌, ◌%◌, ◌^◌, List, [], ◌∷◌, ◌++◌, Option, some, none, Bool, true, false, ◌||◌, not,
  if◌then◌else◌, ◌==◌, ltb, pos, negsuc,
}
use sis_ops.Kern.{
  ErrorCode, e_bad_env, e_inval, e_no_mem, e_no_free_env, e_fault, e_ipc_not_recv, EnvStatus,
  env_dying, Trapframe, UTrapframe,
}
use sis_ops.Kern.AddressMap.{utop}
use sis_ops.Kern.Console.{Cons}
use sis_ops.Kern.Sched.{cur_running, env_run}
use sis_ops.Kern.Kernel.{
  Stored, word, frame, Kernel, Ret, value, failed, Result, returns, leaves, dies, wild, env_at,
  set_env, deref, env_free_all, yields, env_destroy, user_mem_assert,
}
use sis_ops.Kern.Dispatch.{syscall}

abbrev is_dying : EnvStatus → Bool
is_dying env_dying = true
is_dying _ = false

-- What comes from outside: what the devices deliver, the register CR2, and the console's buffer as
-- the kernel monitor leaves it.
pub record Inputs : Type 0 where
  pub serial : List ℕ
  pub kbd : List ℕ
  pub cr2 : ℕ
  pub after_monitor : Cons

-- A result as a word of 32 bits.
abbrev error_number : ErrorCode → ℕ
error_number e_bad_env = 2
error_number e_inval = 3
error_number e_no_mem = 4
error_number e_no_free_env = 5
error_number e_fault = 6
error_number e_ipc_not_recv = 7

abbrev pub eax_of : Ret → ℕ
eax_of (value (pos n)) = n % 2 ^ 32
eax_of (value (negsuc n)) = 2 ^ 32 - 1 - n % 2 ^ 32
eax_of (failed e) = 2 ^ 32 - error_number e

-- `lock_kernel`, which panics where this CPU has the lock.
abbrev lock : Kernel → (Kernel → Result) → Result
lock k next =
    if k.cpu.kernel_locked
    then dies
    else next (record k { cpu = record k.cpu { kernel_locked = true } })

-- The frame `tf` points to is that of an environment, or, for `none`, one on the kernel's stack, which
-- no one reads again.
abbrev pub set_tf : Kernel → Option ℕ → (Trapframe → Trapframe) → Kernel
set_tf k none f = k
set_tf k (some i) f = elim (env_at k i) [
  | none ↦ k
  | some e ↦ set_env k i (record e { env_tf = f e.env_tf })
]

-- `env_run`, which does not return.
pub runs_env : Kernel → ℕ → Result
runs_env k i = let r = env_run i k.cpu in leaves r.1 (record k { cpu = r.0 })

-- The lowest and the highest address of the exception stack, and the size of a frame.
abbrev pub exstk : ℕ
exstk = utop - 4096

abbrev pub exstk_top : ℕ
exstk_top = utop - 1

abbrev utf_size : ℕ
utf_size = 52

-- Whether the fault came on the exception stack itself.
abbrev pub recursive : ℕ → Bool
recursive esp = not (ltb esp exstk || ltb exstk_top esp)

-- Where the frame goes: below a free word if the fault came on the exception stack.
abbrev frame_at : ℕ → ℕ
frame_at esp = if recursive esp then esp - 56 else exstk_top - utf_size

abbrev pub utf_of : ℕ → Trapframe → UTrapframe
utf_of fault_va tf = record {
  utf_fault_va = fault_va;
  utf_err = tf.tf_err;
  utf_regs = tf.tf_regs;
  utf_eip = tf.tf_eip;
  utf_eflags = tf.tf_eflags;
  utf_esp = tf.tf_esp;
}

abbrev stores : ℕ → UTrapframe → List Stored
stores esp utf =
    if recursive esp
    then frame (frame_at esp) utf ∷ word (esp - 4) 0 ∷ []
    else frame (frame_at esp) utf ∷ []

-- The end of `page_fault_handler` for an environment with an upcall. Where the frame would lie below the
-- stack the kernel panics, at the store or right after it.
unfoldable pub push_frame : ℕ → Kernel → ℕ → Option ℕ → Trapframe → ℕ → Result
unfolding runs_env
push_frame fault_va k c loc tf upcall =
    let tmp = frame_at tf.tf_esp in
    let k' : Kernel = record k { stored = stores tf.tf_esp (utf_of fault_va tf) ++ k.stored } in
    if ltb tmp exstk || ltb exstk_top tmp
    then dies
    else runs_env (set_tf k' loc (λ f. record f { tf_esp = tmp; tf_eip = upcall })) c

-- `page_fault_handler`, and what follows if it returns.
unfoldable pub page_fault_handler : ℕ → Kernel → Option ℕ → Trapframe → (Kernel → Result) → Result
unfolding push_frame
page_fault_handler fault_va k loc tf next =
    if tf.tf_cs % 4 == 0
    then dies
    else (deref k.cpu.curenv λ c. deref (env_at k c) λ e.
        if e.env_pgfault_upcall == 0
        then env_destroy k c next
        else (user_mem_assert k c exstk 4096 6
            λ k'. push_frame fault_va k' c loc tf e.env_pgfault_upcall))

-- The result of a system call goes to the frame.
abbrev pub set_eax : Option ℕ → Ret → Kernel → Kernel
set_eax loc r k = set_tf k loc (λ f. record f { tf_regs = record f.tf_regs { reg_eax = eax_of r } })

-- What follows a system call that returns.
abbrev pub then_eax : Option ℕ → (Kernel → Result) → Result → Result
then_eax loc next (returns r k) = next (set_eax loc r k)
then_eax loc next (leaves o k) = leaves o k
then_eax loc next dies = dies
then_eax loc next wild = wild

-- `trap_dispatch`, and what follows if it returns. The interrupt of the clock is 32, a spurious one 39.
unfoldable pub trap_dispatch : Inputs → Kernel → Option ℕ → Trapframe → (Kernel → Result) → Result
unfolding page_fault_handler
trap_dispatch env k loc tf next =
    if tf.tf_trapno == 3
    then next (record k { cons = env.after_monitor })
    else if tf.tf_trapno == 14
    then page_fault_handler env.cr2 k loc tf next
    else if tf.tf_trapno == 48
    then then_eax loc next (
        syscall env.serial env.kbd k tf.tf_regs.reg_eax tf.tf_regs.reg_edx tf.tf_regs.reg_ecx
          tf.tf_regs.reg_ebx tf.tf_regs.reg_edi tf.tf_regs.reg_esi)
    else if tf.tf_trapno == 39
    then next k
    else if tf.tf_trapno == 32
    then yields k
    else if tf.tf_cs == 8
    then dies
    else (deref k.cpu.curenv λ c. env_destroy k c next)

-- The end of `trap`.
unfoldable pub trap_end : Kernel → Result
unfolding runs_env
trap_end k = elim (cur_running k.cpu) [ some c ↦ runs_env k c | none ↦ yields k ]

-- A trap from user mode, once the lock is taken. An environment that is dying is freed here.
unfoldable pub user_trap : Inputs → Kernel → Trapframe → Result
unfolding trap_dispatch trap_end
user_trap env k tf = elim k.cpu.curenv [
  | none ↦ dies
  | some c ↦ deref (env_at k c) λ e.
      if is_dying e.env_status
      then (env_free_all k c λ k'. yields (record k' { cpu = record k'.cpu { curenv = none } }))
      else trap_dispatch env (set_env k c (record e { env_tf = tf })) (some c) tf trap_end
]

-- A CPU that was halted takes the lock when it is woken.
abbrev wake : Kernel → (Kernel → Result) → Result
wake k next =
    let k' : Kernel = record k { cpu = record k.cpu { halted = false } } in
    if k.cpu.halted then lock k' next else next k'

-- `trap`. No other CPU has panicked.
unfoldable pub trap : Inputs → Kernel → Trapframe → Result
unfolding user_trap
trap env k tf = wake k λ k'.
    if tf.tf_cs % 4 == 3
    then lock k' (λ k''. user_trap env k'' tf)
    else trap_dispatch env k' none tf trap_end
