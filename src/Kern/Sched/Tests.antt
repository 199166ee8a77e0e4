-- ===== src/Kern/Sched/Tests.antt =====
-- The scheduler on a table with two environments that can run and one that is running.
use sis_ops.Common.{
  ℕ, zero, suc, ◌+◌, ◌<◌, ◌≤◌, ◌≡◌, ◌≢◌, refl, List, ◌∷◌, some, none, true, false, arith, replicate,
  get_elem?, ℤ, pos, negsuc, length,
}
use sis_ops.Kern.{
  Env, EnvStatus, env_free, env_runnable, env_running, env_not_runnable, nenv, Trapframe,
}
use sis_ops.Kern.Sched.{
  Cpu, runs, sched_round_robin, sched_priorities, sched_none, is_runnable, at, sched_rr, rr_start,
  sched_yield, priority_sched, boost_due, env_run, boost_cycles,
}
use sis_ops.Kern.Sched.Running.{OnlyCur}
use sis_ops.Kern.Sched.RoundRobin.{RrSpec, sched_rr-RrSpec, Calls, sched_rr_fair}
use sis_ops.Kern.Sched.Boost.{boost_due_lem, Boosted}
use sis_ops.Kern.Sched.Busy.{Enters, sched_yield-Enters}
use sis_ops.Kern.Sched.Exclusive.{sched_yield-OnlyCur}

abbrev zero_frame : Trapframe
zero_frame = record {
  tf_regs = record {
    reg_edi = 0;
    reg_esi = 0;
    reg_ebp = 0;
    reg_oesp = 0;
    reg_ebx = 0;
    reg_edx = 0;
    reg_ecx = 0;
    reg_eax = 0;
  };
  tf_es = 0;
  tf_ds = 0;
  tf_trapno = 0;
  tf_err = 0;
  tf_eip = 0;
  tf_cs = 0;
  tf_eflags = 0;
  tf_esp = 0;
  tf_ss = 0;
}

abbrev env : EnvStatus → ℕ → ℤ → Env
env status id priority = record {
  env_tf = zero_frame;
  env_link = none;
  env_id = id;
  env_parent_id = 0;
  env_status = status;
  env_runs = 0;
  env_cpunum = 0;
  priority = priority;
  env_pgdir = none;
  env_pgfault_upcall = 0;
  env_ipc_recving = false;
  env_ipc_dstva = 0;
  env_ipc_value = 0;
  env_ipc_from = 0;
  env_ipc_perm = 0;
  env_times_boosted = 0;
}

abbrev rest : List Env
rest = replicate 1020 (env env_free 0 (pos 5))

-- Environment 1 is running; 0 and 2 can run, 2 at a higher priority; 3 waits.
abbrev table : List Env
table =
    env env_runnable 4096 (negsuc 0)
    ∷ env env_running 4097 (pos 4)
    ∷ env env_runnable 4098 (pos 3)
    ∷ env env_not_runnable 4099 (pos 2)
    ∷ rest

abbrev cpu : Cpu
cpu = record {
  envs = table;
  curenv = some 1;
  stats = record { amount_of_sc_calls = 0; runs_total = 0; sched_times_boosted = 0 };
  boost_counter = 99;
  cpunum = 0;
  cr3 = none;
  kernel_locked = true;
  halted = false;
}

-- Round robin goes on to 2; at a boost both have priority 5, and the first is chosen.
rr_picks : (sched_rr cpu).1 ≡ runs 2
unfolding sched_rr env_run
rr_picks = refl

priority_picks : (priority_sched (record cpu { boost_counter = 3 })).1 ≡ runs 2
unfolding priority_sched env_run boost_due
priority_picks = refl

boosted_picks : (priority_sched cpu).1 ≡ runs 0
unfolding priority_sched env_run
boosted_picks = refl

sched_rr-RrSpec_example : RrSpec cpu (sched_rr cpu)
sched_rr-RrSpec_example = sched_rr-RrSpec cpu

only_cur : OnlyCur cpu
only_cur zero h = absurd (ground arith)
only_cur (suc zero) h = refl
only_cur (suc (suc zero)) h = absurd (ground arith)
only_cur (suc (suc (suc zero))) h = absurd (ground arith)
only_cur (suc (suc (suc (suc j)))) h = absurd (idle 1020 j h)
  where
    idle :
        (n j : ℕ)
        → at
            (replicate n (env env_free 0 (pos 5)))
            j
            (λ s. elim s [ env_running ↦ true | _ ↦ false ])
          ≡ true
        → ⊥
    idle zero j h = cc
    idle (suc n) zero h = cc
    idle (suc n) (suc j) h = idle n j h

sched_yield-OnlyCur_example : OnlyCur (sched_yield sched_priorities cpu).0
sched_yield-OnlyCur_example = sched_yield-OnlyCur sched_priorities cpu only_cur

rr_ne_none : sched_round_robin ≢ sched_none
rr_ne_none e = cc

sched_yield-Enters_example : (i : ℕ) × Enters cpu i (sched_yield sched_round_robin cpu)
sched_yield-Enters_example =
    sched_yield-Enters sched_round_robin cpu 0 rr_ne_none refl (omega arith) refl

boost_due_lem_example :
    (boost_cycles ≤ 99 + 1
      → (e' : Env) × (get_elem? (boost_due cpu).envs 0 ≡ some e')
        × Boosted (env env_runnable 4096 (negsuc 0)) e'
        × ((boost_due cpu).boost_counter ≡ 0))
    × (99 + 1 < boost_cycles
        → (get_elem? (boost_due cpu).envs 0 ≡ some (env env_runnable 4096 (negsuc 0)))
          × ((boost_due cpu).boost_counter ≡ 99 + 1))
boost_due_lem_example = boost_due_lem cpu 0 (env env_runnable 4096 (negsuc 0)) refl

-- Environment 1 alone, which gives up the CPU over and over.
abbrev lone : List Env
lone =
    env env_free 0 (pos 5) ∷ env env_runnable 4097 (pos 5) ∷ replicate 1022 (env env_free 0 (pos 5))

abbrev again : ℕ → Cpu
again zero = record cpu { envs = lone; curenv = none }
again (suc n) = record cpu { envs = lone; curenv = some 1 }

again-first : (sched_rr (again 0)).1 ≡ runs 1
unfolding sched_rr env_run
again-first = refl

again-next : (n : ℕ) → (sched_rr (again (suc n))).1 ≡ runs 1
unfolding sched_rr env_run
again-next n = refl

again-start : (n : ℕ) → rr_start (again (suc n)) ≡ 2
unfolding rr_start
again-start n = refl

again-count : (n : ℕ) → length (again n).envs ≡ nenv
again-count zero = refl
again-count (suc n) = refl

again-ready : (n : ℕ) → at (again n).envs 1 is_runnable ≡ true
again-ready zero = refl
again-ready (suc n) = refl

again-Calls : Calls again
again-Calls = record { count = again-count; goes_on = on }
  where
    on : (n i : ℕ) → (sched_rr (again n)).1 ≡ runs i → rr_start (again (suc n)) ≡ i + 1
    on zero i e = let z : 1 ≡ i = cc (e, again-first) in rw (again-start 0) (omega arith)
    on (suc n) i e = let z : 1 ≡ i = cc (e, again-next n) in rw (again-start (suc n)) (omega arith)

sched_rr_fair_example : (j : ℕ) × (j < nenv) × ((sched_rr (again j)).1 ≡ runs 1)
sched_rr_fair_example = sched_rr_fair again again-Calls 1 (omega arith) again-ready
