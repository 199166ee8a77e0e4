-- ===== src/Kern/CallTests.antt =====
-- Examples for the system calls, the start of the page allocator and the console.
use Prim.Native.Nat.{bit_or}
use sis_ops.Common.{
  ◌⊎◌, ℕ, ◌+◌, ◌/◌, ◌<◌, ◌≡◌, refl, [], ◌∷◌, ◌++◌, some, none, true, false, if◌then◌else◌, arith,
  length, replicate,
}
use sis_ops.Kern.{e_inval, e_no_mem, e_ipc_not_recv, env_free, env_not_runnable, Env}
use sis_ops.Kern.Paging.{pgnum, Memory}
use sis_ops.Kern.AddressMap.{utop, entry_of, same_page}
use sis_ops.Kern.Envs.{found, envid2env, generation}
use sis_ops.Kern.Envs as Envs
use sis_ops.Kern.Ids.{Spare}
use sis_ops.Kern.Console.{Cons, cons_getc, Holds, kept, Got, cons_getc-Got}
use sis_ops.Kern.Sched.{Cpu, sched_priorities}
use sis_ops.Kern.Kernel.{Kernel, env_at, set_env, with_memory}
use sis_ops.Kern.Syscall.{fails, ok, sys_page_map}
use sis_ops.Kern.IpcCalls.{received, sys_ipc_try_send, sys_ipc_recv}
use sis_ops.Kern.Ipc.{Addressed, sys_ipc_try_send_once, sys_ipc_recv-sys_ipc_try_send}
use sis_ops.Kern.Exofork.{table_of, Forked, sys_exofork-Forked}
use sis_ops.Kern.PageCalls.{Parties, sys_page_map_any_page}
use sis_ops.Kern.Tests.{env, runner}
use sis_ops.Kern.SpaceTests.{page, words, memory, free_pages, memory-IsSpace}

abbrev pub waiting : Env
waiting = record (env env_not_runnable 4097 4096 none (some 0)) { env_ipc_recving = true }

abbrev pub unused : Env
unused = env env_free 0 0 none none

abbrev cpu : Cpu
cpu = record {
  envs = runner ∷ waiting ∷ unused ∷ [];
  curenv = some 0;
  stats = record { amount_of_sc_calls = 0; runs_total = 0; sched_times_boosted = 0 };
  boost_counter = 0;
  cpunum = 0;
  cr3 = some 0;
  kernel_locked = true;
  halted = false;
}

-- Environment 0 is current, 1 waits in a receive, and entry 2 is free.
abbrev pub kernel : Kernel
kernel = record {
  build = sched_priorities;
  cpu = cpu;
  env_free_list = some 2;
  alloc = memory.alloc;
  words = words;
  flushed = [];
  kern_pgdir = 1;
  cons = record { buf = replicate 512 0; rpos = 0; wpos = 0 };
  stored = [];
}

abbrev kernel_spare : Spare (table_of kernel) (2 ∷ [])
kernel_spare = record { chain = (refl, unused, refl, refl); distinct = (tt, tt) }

addressed : Addressed kernel 4097 1 0 waiting runner
unfolding envid2env
addressed = record { leads = refl; target = refl; current = refl; sender = refl }

abbrev sent : Env
sent = received 4096 7 (record waiting { env_ipc_perm = 0 })

sys_ipc_try_send_once_example :
    (waiting.env_ipc_recving ≡ true
      → (k' : Kernel) × (sys_ipc_try_send kernel 4097 7 4294967295 0 ≡ ok k')
        × (env_at k' 1 ≡ some sent)
        × (k' ≡ set_env kernel 1 sent)
        × ((val' srcva' perm' : ℕ)
            → sys_ipc_try_send k' 4097 val' srcva' perm' ≡ fails e_ipc_not_recv k'))
    × (waiting.env_ipc_recving ≡ false
        → sys_ipc_try_send kernel 4097 7 4294967295 0 ≡ fails e_ipc_not_recv kernel)
sys_ipc_try_send_once_example =
    sys_ipc_try_send_once kernel 4097 1 0 7 4294967295 0 waiting runner addressed (omega arith)

-- Environment 0 receives at an odd address, and then 1 sends to it.
abbrev stuck : Kernel
stuck = set_env kernel 0 (record runner { env_ipc_recving = true })

abbrev switched : Kernel
switched = record stuck { cpu = record stuck.cpu { curenv = some 1 } }

leads : envid2env switched.cpu.envs (some 1) 4096 false ≡ found (some 0)
unfolding envid2env
leads = refl

sys_ipc_recv-sys_ipc_try_send_example :
    (sys_ipc_recv kernel 1 ≡ fails e_inval stuck)
    × (sys_ipc_try_send switched 4096 7 4294967295 0
        ≡ ok (
            set_env switched 0
              (received 4097 7 (record runner { env_ipc_recving = true; env_ipc_perm = 0 }))))
sys_ipc_recv-sys_ipc_try_send_example =
    sys_ipc_recv-sys_ipc_try_send kernel switched 0 1 1 4096 7 4294967295 0 runner waiting refl refl
      refl refl refl leads (omega arith)

sys_exofork-Forked_example : (k' : Kernel) × Forked kernel 0 2 [] [] runner (generation 0 + 2) k'
sys_exofork-Forked_example =
    sys_exofork-Forked kernel 0 2 3 [] [] runner kernel_spare memory-IsSpace.free (omega arith)
      (omega arith) refl refl (λ e. omega arith)

parties : Parties kernel 4096 4096 0 0 0 0 runner runner
unfolding envid2env Envs.check_perm
parties = record {
  src = refl;
  dst = refl;
  src_env = refl;
  dst_env = refl;
  src_dir = refl;
  dst_dir = refl;
}

-- The page at 0 once more, at 0x400000, with a bit above the low 12: page 3 in place of page 2.
sys_page_map_any_page_example :
    ((m : Memory) × (entry : ℕ) × (sys_page_map kernel 4096 0 4096 4194304 4096
        ≡ ok (with_memory kernel m))
      × ((vb : ℕ)
          → vb < utop
          → entry_of m.words 0 vb
            ≡ (if same_page 4194304 vb then some entry else entry_of words 0 vb))
      × (pgnum entry ≡ bit_or (pgnum 8199) (4096 / 4096)))
    ⊎ (sys_page_map kernel 4096 0 4096 4194304 4096 ≡ fails e_no_mem kernel)
sys_page_map_any_page_example =
    sys_page_map_any_page kernel 4096 0 4096 4194304 4096 0 0 0 0 8199 runner runner free_pages
      free_pages parties refl refl memory-IsSpace memory-IsSpace refl refl (page none 1) refl
      (omega arith)

abbrev input : Cons
input = kernel.cons

no_input : Holds input []
no_input = record {
  size = refl;
  read = omega arith;
  write = omega arith;
  few = omega arith;
  codes = refl;
}

cons_getc-Got_example :
    Got (kept (65 ∷ 0 ∷ []) ++ kept (66 ∷ [])) (cons_getc (65 ∷ 0 ∷ []) (66 ∷ []) input)
cons_getc-Got_example = cons_getc-Got (65 ∷ 0 ∷ []) (66 ∷ []) input [] no_input few
  where
    few : 0 + length (kept (65 ∷ 0 ∷ [])) + length (kept (66 ∷ [])) < 512
    few = unfold kept in omega arith
