-- ===== src/Kern/SecureDestroy.antt =====
-- `sys_env_destroy` of sched/kern/syscall.c on a memory in order.
use sis_ops.Common.{
  ℕ, ◌≡◌, refl, List, Option, some, none, Bool, true, false, ◌&&◌, if◌then◌else◌, ◌==◌, set,
}
use sis_ops.Kern.{env_dying, Env}
use sis_ops.Kern.Pages.{Pages}
use sis_ops.Kern.Paging.{Memory}
use sis_ops.Kern.Accounts.{Live, IsMemory}
use sis_ops.Kern.Entries.{Isolated}
use sis_ops.Kern.Keeping.{IsMemory-same}
use sis_ops.Kern.Leaving.{without}
use sis_ops.Kern.Releasing.{Ceded, free_tables-Ceded}
use sis_ops.Kern.Envs.{released}
use sis_ops.Kern.Sched.{Outcome, is_running}
use sis_ops.Kern.Kernel.{
  Kernel, Result, leaves, env_at, set_env, memory, with_memory, is_curenv, env_free_all, yields,
}
use sis_ops.Kern.Syscall.{ok}
use sis_ops.Kern.Secure.{nothing_held, IsSecure, Target}

abbrev cur_is : Option ℕ → ℕ → Bool
cur_is o i = elim o [ none ↦ false | some c ↦ c == i ]

-- The kernel once `env_free` has freed the environment `i`.
abbrev freed : Kernel → ℕ → Env → Memory → Pages → Kernel
freed k i e m a = record (with_memory k (record m { alloc = a })) {
  cpu = record k.cpu {
    envs = set k.cpu.envs i (released k.env_free_list e);
    cr3 = if is_curenv k i then none else k.cpu.cr3;
  };
  env_free_list = some i;
}

-- The test of `env_destroy`, and what follows.
abbrev destroys : Kernel → ℕ → (Kernel → Result) → Bool → Bool → Env → Result
destroys k i next running cur e =
    if running && (if cur then false else true)
    then next (set_env k i (record e { env_status = env_dying }))
    else env_free_all k i
        λ k'. if cur then yields (record k' { cpu = record k'.cpu { curenv = none } }) else next k'

-- The directory is gone, the other maps are as they were, and no page is lost: a page that was free or
-- referred to is free, or what is left refers to it.
pub record Destroyed (k : Kernel) (ds ts is : List ℕ) (d : ℕ) (k' : Kernel) : Type 0 where
  pub tables : List ℕ
  pub left : List ℕ
  pub memory_ : IsMemory (memory k') (without d ds) tables left nothing_held
  pub isolated : Isolated k.words k'.words ds d
  pub kept :
      (p : ℕ)
      → Live k.words ds ts is nothing_held p
      → Live k'.words (without d ds) tables left nothing_held p

-- How the destruction of an environment ends: it is left to the other CPU that runs it; or it is done, and
-- then the call returns, with the entry first on the free list, or, if it was the caller, leaves for another
-- environment.
pub data Ends (k : Kernel) (ds ts is : List ℕ) (envid : ℕ) (t : Target k ds envid) (r : Result)
    : Type 0 where
  left_dying :
      is_running t.entry.env_status ≡ true
      → is_curenv k t.env ≡ false
      → r ≡ ok (set_env k t.env (record t.entry { env_status = env_dying }))
      → IsSecure (set_env k t.env (record t.entry { env_status = env_dying })) ds ts is
      → Ends k ds ts is envid t r
  is_freed :
      (k' : Kernel) (x : Destroyed k ds ts is t.pgdir k')
      → is_curenv k t.env ≡ false
      → r ≡ ok k'
      → env_at k' t.env ≡ some (released k.env_free_list t.entry)
      → k'.env_free_list ≡ some t.env
      → IsSecure k' (without t.pgdir ds) x.tables x.left
      → Ends k ds ts is envid t r
  was_current :
      (k' : Kernel) (o : Outcome)
      → is_curenv k t.env ≡ true
      → Destroyed k ds ts is t.pgdir k'
      → r ≡ leaves o k'
      → Ends k ds ts is envid t r

module _ (k : Kernel) (ds ts is : List ℕ) (v : IsSecure k ds ts is) (envid : ℕ)
    (t : Target k ds envid) where
  c : Ceded (memory k) ds ts is nothing_held t.pgdir
  c = free_tables-Ceded (memory k) ds ts is nothing_held v.memory_ t.pgdir t.known

  done_k : Kernel
  done_k = freed k t.env t.entry c.mem c.got

  done_IsMemory : IsMemory (memory done_k) (without t.pgdir ds) c.tables c.left nothing_held
  unfolding done_k
  done_IsMemory =
      IsMemory-same (record c.mem { alloc = c.got }) (memory done_k) (without t.pgdir ds) c.tables
        c.left nothing_held refl refl c.memory

  done-Destroyed : Destroyed k ds ts is t.pgdir done_k
  unfolding done_k
  done-Destroyed = record {
    tables = c.tables;
    left = c.left;
    memory_ = done_IsMemory;
    isolated = c.isolated;
    kept = c.kept;
  }

  -- The kernel that leaves for another environment.
  away : Kernel
  away = record done_k { cpu = record done_k.cpu { curenv = none } }
