-- ===== src/Kern/TrapTests.antt =====
-- Examples for traps and the lock.
use sis_ops.Common.{
  ℕ, ◌+◌, ◌-◌, ◌<◌, ◌≤◌, ◌≡◌, refl, [], ◌∷◌, some, none, false, ◌&&◌, if◌then◌else◌, ◌==◌, arith,
  pos,
}
use sis_ops.Kern.{env_running, Env}
use sis_ops.Kern.Pages.{done}
use sis_ops.Kern.Paging.{add_table, pgdir_walk}
use sis_ops.Kern.AddressMap.{utop, Words}
use sis_ops.Kern.UserMem.{page_allowed, check_pages, user_mem_check}
use sis_ops.Kern.Kernel.{word, Kernel, value, returns, dies, set_env, memory}
use sis_ops.Kern.Syscall.{sys_getenvid}
use sis_ops.Kern.Dispatch.{call_of, perform, syscall}
use sis_ops.Kern.Trap.{Inputs, runs_env, exstk, page_fault_handler, trap_end, trap}
use sis_ops.Kern.Faults.{Pushed, page_fault_handler-Pushed}
use sis_ops.Kern.TrapCalls.{IsAnswer, saved, answered, call_in, trap-syscall}
use sis_ops.Kern.Spinlock.{run, start, IsLock, run-start}
use sis_ops.Kern.Tests.{runner}
use sis_ops.Kern.CallTests.{kernel}

-- The exception stack, at the end of table 954, is page 2.
abbrev words : Words
words = λ p j. if p == 0 && j == 954 then 4103 else if p == 1 && j == 1023 then 8199 else 0

-- The environment that runs, with an upcall at 0x800020 and its stack at 0xeebfe000.
abbrev faulting : Env
faulting = record runner {
  env_status = env_running;
  env_pgfault_upcall = 8388640;
  env_tf = record runner.env_tf {
    tf_cs = 27;
    tf_trapno = 48;
    tf_regs = record runner.env_tf.tf_regs { reg_eax = 2 };
  };
}

abbrev machine : Kernel
machine =
    set_env (record kernel { words = words; cpu = record kernel.cpu { kernel_locked = false } }) 0
      faulting

stack_ok : user_mem_check (memory machine) 0 exstk 4096 6 ≡ done none
unfolding user_mem_check check_pages page_allowed pgdir_walk add_table
stack_ok = refl

page_fault_handler-Pushed_example :
    (faulting.env_tf.tf_esp < exstk
      → Pushed machine 0 faulting
          (utop - 53)
          []
          4096
          (page_fault_handler 4096 machine (some 0) faulting.env_tf trap_end))
    × (utop ≤ faulting.env_tf.tf_esp
        → Pushed machine 0 faulting
            (utop - 53)
            []
            4096
            (page_fault_handler 4096 machine (some 0) faulting.env_tf trap_end))
    × (exstk + 56 ≤ faulting.env_tf.tf_esp
        → faulting.env_tf.tf_esp < utop
        → Pushed machine 0 faulting
            (faulting.env_tf.tf_esp - 56)
            (word (faulting.env_tf.tf_esp - 4) 0 ∷ [])
            4096
            (page_fault_handler 4096 machine (some 0) faulting.env_tf trap_end))
    × (exstk ≤ faulting.env_tf.tf_esp
        → faulting.env_tf.tf_esp < exstk + 56
        → page_fault_handler 4096 machine (some 0) faulting.env_tf trap_end ≡ dies)
page_fault_handler-Pushed_example =
    page_fault_handler-Pushed machine 4096 0 0 faulting trap_end refl refl refl refl
      (λ e. omega arith) stack_ok

abbrev inputs : Inputs
inputs = record { serial = []; kbd = []; cr2 = 0; after_monitor = kernel.cons }

getenvid_answer :
    call_in inputs (saved machine 0 faulting faulting.env_tf) faulting.env_tf
    ≡ returns (value (pos 4096)) (saved machine 0 faulting faulting.env_tf)
unfolding syscall call_of perform sys_getenvid
getenvid_answer = refl

trap-syscall_example :
    (a : ℕ) × IsAnswer a (value (pos 4096))
    × (trap inputs machine faulting.env_tf
        ≡ runs_env
            (set_env
              (saved machine 0 faulting faulting.env_tf)
              0
              (record faulting { env_tf = answered a faulting.env_tf }))
            0)
trap-syscall_example =
    trap-syscall inputs machine (saved machine 0 faulting faulting.env_tf) 0 faulting faulting
      faulting.env_tf (value (pos 4096)) refl refl refl refl refl refl refl getenvid_answer refl
      refl refl (omega arith)

-- CPU 1 tries for the lock while CPU 0 holds it, and gets it after that.
run-start_example : IsLock (run (0 ∷ 0 ∷ 1 ∷ 1 ∷ 0 ∷ 1 ∷ 0 ∷ 0 ∷ 0 ∷ 0 ∷ 1 ∷ []) start)
run-start_example = run-start (0 ∷ 0 ∷ 1 ∷ 1 ∷ 0 ∷ 1 ∷ 0 ∷ 0 ∷ 0 ∷ 0 ∷ 1 ∷ [])
