-- ===== src/Kern/Kernel.antt =====
-- The state that system calls act on, and sched/kern/env.c where it frees an environment.
use Prim.Native.Nat.{bit_and, bit_or}
use sis_ops.Common.{
  ℕ, zero, suc, ◌+◌, ◌*◌, List, Option, some, none, Bool, true, false, ◌&&◌, if◌then◌else◌, ◌==◌,
  leb, length, get_elem?, set, ℤ,
}
use sis_ops.Kern.{ErrorCode, env_dying, UTrapframe, Env}
use sis_ops.Kern.Pages.{Pages, Ended, done, panics, fault, page_decref}
use sis_ops.Kern.Paging.{Memory, ◌>>=◌, pgnum, pte_p, pte_u, page_remove}
use sis_ops.Kern.UserMem.{user_mem_check}
use sis_ops.Kern.Envs.{release_env}
use sis_ops.Kern.Console.{Cons}
use sis_ops.Kern.Sched.{Cpu, Outcome, Build, is_running, sched_yield}

-- What the kernel stores at an address of the user's: a word, or the frame of a page fault.
pub data Stored : Type 0 where
  word : ℕ → ℕ → Stored
  frame : ℕ → UTrapframe → Stored

-- `cpu` has the environments; the fields after it are `env_free_list`, `pages` with its free list, what
-- the pages hold, the addresses that were flushed from the TLB, `kern_pgdir`, the
-- console's input, and what page faults stored in the user's memory, the last first.
pub record Kernel : Type 0 where
  pub build : Build
  pub cpu : Cpu
  pub env_free_list : Option ℕ
  pub alloc : Pages
  pub words : ℕ → ℕ → ℕ
  pub flushed : List ℕ
  pub kern_pgdir : ℕ
  pub cons : Cons
  pub stored : List Stored

-- What a call returns.
pub data Ret : Type 0 where
  value : ℤ → Ret
  failed : ErrorCode → Ret

-- How a call ends: it returns, it leaves for an environment or a halt, it panics (`dies`), or it accesses memory
-- through a pointer that is null or out of bounds.
pub data Result : Type 0 where
  returns : Ret → Kernel → Result
  leaves : Outcome → Kernel → Result
  dies : Result
  wild : Result

abbrev pub env_at : Kernel → ℕ → Option Env
env_at k i = get_elem? k.cpu.envs i

abbrev pub set_env : Kernel → ℕ → Env → Kernel
set_env k i e = record k { cpu = record k.cpu { envs = set k.cpu.envs i e } }

-- `curenv->env_pgdir`, if there is a `curenv`.
abbrev cur_pgdir_of : Kernel → Option (Option ℕ)
cur_pgdir_of k = elim k.cpu.curenv [
  | none ↦ none
  | some c ↦ elim (env_at k c) [ none ↦ none | some e ↦ some e.env_pgdir ]
]

-- The memory, for the functions of pmap.c, and the state with the memory that they leave.
abbrev pub memory : Kernel → Memory
memory k = record {
  alloc = k.alloc;
  words = k.words;
  cur_pgdir = cur_pgdir_of k;
  flushed = k.flushed;
}

abbrev pub with_memory : Kernel → Memory → Kernel
with_memory k m = record k { alloc = m.alloc; words = m.words; flushed = m.flushed }

-- To go on with what a function of pmap.c answers.
abbrev pub after : {A : Type 0} → Ended A → (A → Result) → Result
after (done a) f = f a
after panics f = dies
after fault f = wild

-- A null pointer to an environment or a directory is a fault.
abbrev pub deref : {A : Type 0} → Option A → (A → Result) → Result
deref none f = wild
deref (some a) f = f a

-- The entries below `n` of the table `pdeno`, unmapped.
unfoldable pub free_ptes : ℕ → ℕ → ℕ → ℕ → Memory → Ended Memory
free_ptes zero pgdir pdeno pt m = done m
free_ptes (suc n) pgdir pdeno pt m = free_ptes n pgdir pdeno pt m >>= λ m'.
    if bit_and (m'.words pt n) pte_p == 0
    then done m'
    else page_remove m' pgdir (pdeno * 4194304 + n * 4096)

-- `pgdir[pdeno] = 0`, and the page of the table goes. `KADDR` panics behind the last page.
unfoldable pub free_table : ℕ → ℕ → Memory → Ended Memory
unfolding free_ptes
free_table pgdir pdeno m =
    let pde = m.words pgdir pdeno in
    if bit_and pde pte_p == 0
    then done m
    else if leb (length m.alloc.pages) (pgnum pde)
    then panics
    else (free_ptes 1024 pgdir pdeno (pgnum pde) m >>= λ m'.
        page_decref (pgnum pde) m'.alloc >>= λ alloc. done (record m' {
          alloc = alloc;
          words = λ p j. if p == pgdir && j == pdeno then 0 else m'.words p j;
        }))

-- The tables below `n`.
unfoldable pub free_tables : ℕ → ℕ → Memory → Ended Memory
unfolding free_table
free_tables zero pgdir m = done m
free_tables (suc n) pgdir m = free_tables n pgdir m >>= free_table pgdir n

abbrev pub is_curenv : Kernel → ℕ → Bool
is_curenv k i = elim k.cpu.curenv [ none ↦ false | some c ↦ c == i ]

-- `env_free`, and what follows; PDX(UTOP) is 955. For `curenv` the kernel's directory is loaded first.
unfoldable pub env_free_all : Kernel → ℕ → (Kernel → Result) → Result
unfolding free_tables release_env
env_free_all k i next = deref (env_at k i) λ e. deref e.env_pgdir λ pgdir.
    after (free_tables 955 pgdir (memory k)) λ m.
      after (release_env i (record { envs = k.cpu.envs; env_free_list = k.env_free_list }) m.alloc)
        λ r. next (record (with_memory k (record m { alloc = r.1 })) {
          cpu = record k.cpu { envs = r.0.envs; cr3 = if is_curenv k i then none else k.cpu.cr3 };
          env_free_list = r.0.env_free_list;
        })

-- `sched_yield`, which does not return.
unfoldable pub yields : Kernel → Result
yields k = let r = sched_yield k.build k.cpu in leaves r.1 (record k { cpu = r.0 })

-- `env_destroy`, and what the caller does if it returns.
unfoldable pub env_destroy : Kernel → ℕ → (Kernel → Result) → Result
unfolding env_free_all yields
env_destroy k i next = deref (env_at k i) λ e.
    if is_running e.env_status && (if is_curenv k i then false else true)
    then next (set_env k i (record e { env_status = env_dying }))
    else env_free_all k i λ k'.
      if is_curenv k i
      then yields (record k' { cpu = record k'.cpu { curenv = none } })
      else next k'

-- `user_mem_assert`, and what the caller does if it returns.
unfoldable pub user_mem_assert : Kernel → ℕ → ℕ → ℕ → ℕ → (Kernel → Result) → Result
unfolding env_destroy
user_mem_assert k i va len perm next = deref (env_at k i) λ e. deref e.env_pgdir λ pgdir.
    after (user_mem_check (memory k) pgdir va len (bit_or perm pte_u))
      λ refused. elim refused [ none ↦ next k | some at ↦ env_destroy k i next ]
