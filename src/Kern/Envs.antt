-- ===== src/Kern/Envs.antt =====
-- The table of environments, sched/kern/env.c: looking one up, and giving and taking back its entry.
use sis_ops.Common.{
  ℕ, ◌+◌, ◌*◌, ◌/◌, ◌%◌, ◌^◌, List, [], ◌∷◌, Option, some, none, Bool, true, false, ◌||◌,
  if◌then◌else◌, ◌==◌, ltb, not, get_elem?, set,
}
use sis_ops.Kern.{
  ErrorCode, e_bad_env, e_no_mem, e_no_free_env, EnvStatus, env_free, env_runnable, PushRegs,
  Trapframe, Env, envx, default_priority,
}
use sis_ops.Kern.Pages.{Pages, Ended, done, panics, fault, page_alloc, page_decref}

pub record EnvTable : Type 0 where
  pub envs : List Env
  pub env_free_list : Option ℕ

pub data Lookup : Type 0 where
  found : Option ℕ → Lookup
  refused : ErrorCode → Lookup
  wild : Lookup

abbrev pub is_free : EnvStatus → Bool
is_free env_free = true
is_free _ = false

abbrev is_cur : Option ℕ → ℕ → Bool
is_cur none i = false
is_cur (some c) i = c == i

-- The check of the permission; `wild` is a null `curenv`, or one outside the table.
unfoldable pub check_perm : List Env → Option ℕ → ℕ → Env → Lookup
check_perm envs curenv i e = if is_cur curenv i then found (some i) else elim curenv [
  | none ↦ wild
  | some c ↦ elim (get_elem? envs c) [
    | none ↦ wild
    | some cur ↦ if e.env_parent_id == cur.env_id then found (some i) else refused e_bad_env
  ]
]

-- `found` is what is stored with the result 0.
unfoldable pub envid2env : List Env → Option ℕ → ℕ → Bool → Lookup
unfolding check_perm
envid2env envs curenv envid checkperm =
    if envid == 0 then found curenv else elim (get_elem? envs (envx envid)) [
      | none ↦ wild
      | some e ↦
          if is_free e.env_status || not (e.env_id == envid)
          then refused e_bad_env
          else if checkperm
          then check_perm envs curenv (envx envid) e
          else found (some (envx envid))
    ]

-- One round of the loop of `env_init`.
abbrev pub init_env : Option ℕ → Env → Env
init_env link e = record e {
  env_id = 0;
  env_status = env_free;
  env_link = link;
  priority = default_priority;
}

unfoldable pub init_from : ℕ → List Env → List Env
init_from i [] = []
init_from i (e ∷ []) = init_env none e ∷ []
init_from i (e ∷ d ∷ rest) = init_env (some (i + 1)) e ∷ init_from (i + 1) (d ∷ rest)

-- `env_init` without the registers of the CPU, on the table as it is.
unfoldable pub env_init : List Env → EnvTable
unfolding init_from
env_init envs = record { envs = init_from 0 envs; env_free_list = some 0 }

-- The page directory of a new environment, with one reference to it; `none` if there is no page.
unfoldable pub env_setup_vm : Pages → Ended (Option ℕ × Pages)
env_setup_vm m = elim (page_alloc m) [
  | panics ↦ panics
  | fault ↦ fault
  | done r ↦ elim r.0 [
    | none ↦ done (none, r.1)
    | some i ↦ elim (get_elem? r.1.pages i) [
      | none ↦ fault
      | some p ↦ done (
        some i,
        record r.1 { pages = set r.1.pages i (record p { pp_ref = (p.pp_ref + 1) % 65536 }) },
      )
    ]
  ]
]

-- `(env_id + (1 << ENVGENSHIFT)) & ~(NENV - 1)` as an `int32_t`, replaced if it is not positive.
unfoldable pub generation : ℕ → ℕ
generation env_id =
    let g = (env_id + 4096) % 2 ^ 32 / 1024 * 1024 in
    if g == 0 then 4096 else if ltb g (2 ^ 31) then g else 4096

abbrev no_regs : PushRegs
no_regs = record {
  reg_edi = 0;
  reg_esi = 0;
  reg_ebp = 0;
  reg_oesp = 0;
  reg_ebx = 0;
  reg_edx = 0;
  reg_ecx = 0;
  reg_eax = 0;
}

-- GD_UD | 3 = 35, GD_UT | 3 = 27, USTACKTOP = 0xeebfe000 and FL_IF = 0x200.
abbrev pub user_tf : Trapframe
user_tf = record {
  tf_regs = no_regs;
  tf_es = 35;
  tf_ds = 35;
  tf_trapno = 0;
  tf_err = 0;
  tf_eip = 0;
  tf_cs = 27;
  tf_eflags = 512;
  tf_esp = 4005552128;
  tf_ss = 35;
}

abbrev pub new_env : ℕ → ℕ → ℕ → Env → Env
new_env i pgdir parent_id e = record e {
  env_pgdir = some pgdir;
  env_id = generation e.env_id + i;
  env_parent_id = parent_id;
  env_status = env_runnable;
  env_runs = 0;
  priority = default_priority;
  env_tf = user_tf;
  env_pgfault_upcall = 0;
  env_ipc_recving = false;
}

-- What `env_alloc` answers: the environment or an error.
pub data Allocated : Type 0 where
  allocated : ℕ → Allocated
  failed : ErrorCode → Allocated

unfoldable pub env_alloc : EnvTable → Pages → ℕ → Ended (Allocated × EnvTable × Pages)
unfolding env_setup_vm generation
env_alloc t m parent_id = elim t.env_free_list [
  | none ↦ done (failed e_no_free_env, t, m)
  | some i ↦ elim (get_elem? t.envs i) [
    | none ↦ fault
    | some e ↦ elim (env_setup_vm m) [
      | panics ↦ panics
      | fault ↦ fault
      | done r ↦ elim r.0 [
        | none ↦ done (failed e_no_mem, t, r.1)
        | some pgdir ↦ done (
          allocated i,
          record { envs = set t.envs i (new_env i pgdir parent_id e); env_free_list = e.env_link },
          r.1,
        )
      ]
    ]
  ]
]

abbrev pub released : Option ℕ → Env → Env
released link e = record e { env_pgdir = none; env_status = env_free; env_link = link }

-- The end of `env_free`: the page directory goes, and the entry goes back to the list.
unfoldable pub release_env : ℕ → EnvTable → Pages → Ended (EnvTable × Pages)
release_env i t m = elim (get_elem? t.envs i) [
  | none ↦ fault
  | some e ↦ elim e.env_pgdir [
    | none ↦ fault
    | some pgdir ↦ elim (page_decref pgdir m) [
      | panics ↦ panics
      | fault ↦ fault
      | done m' ↦
          done (
            record { envs = set t.envs i (released t.env_free_list e); env_free_list = some i },
            m',
          )
    ]
  ]
]
