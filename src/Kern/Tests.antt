-- ===== src/Kern/Tests.antt =====
-- Examples for the table of environments and the page allocator.
use sis_ops.Common.{
  ℕ, ◌≡◌, ◌≢◌, ◌↔◌, ◌⊎◌, refl, List, [], ◌∷◌, Option, some, none, Bool, true, false, pos, arith,
}
use sis_ops.Kern.{e_bad_env, EnvStatus, env_free, env_runnable, Env, envx}
use sis_ops.Kern.Pages.{PageInfo, Pages, done}
use sis_ops.Kern.FreePages.{Free}
use sis_ops.Kern.Envs.{EnvTable, found, refused, is_free, envid2env, user_tf, allocated, env_alloc}
use sis_ops.Kern.Ids.{Spare, env_alloc-envid2env, envid2env_iff}

abbrev page : Option ℕ → ℕ → PageInfo
page link refs = record { pp_link = link; pp_ref = refs }

-- Page 0 is in use, pages 2 and 1 are free.
abbrev memory : Pages
memory = record {
  pages = page none 1 ∷ page none 0 ∷ page (some 1) 0 ∷ [];
  page_free_list = some 2;
}

memory-Free : Free memory (2 ∷ 1 ∷ [])
memory-Free = record {
  chain = (refl, page (some 1) 0, refl, (refl, page none 0, refl, refl));
  distinct = ((omega arith, tt), (tt, tt));
  unused = (refl, (refl, tt));
}

abbrev pub env : EnvStatus → ℕ → ℕ → Option ℕ → Option ℕ → Env
env status id parent link pgdir = record {
  env_tf = user_tf;
  env_link = link;
  env_id = id;
  env_parent_id = parent;
  env_status = status;
  env_runs = 0;
  env_cpunum = 0;
  priority = pos 5;
  env_pgdir = pgdir;
  env_pgfault_upcall = 0;
  env_ipc_recving = false;
  env_ipc_dstva = 0;
  env_ipc_value = 0;
  env_ipc_from = 0;
  env_ipc_perm = 0;
  env_times_boosted = 0;
}

abbrev pub runner : Env
runner = env env_runnable 4096 0 none (some 0)

abbrev used : Env
used = env env_free 4097 4096 (some 2) none

abbrev spare : List ℕ
spare = 1 ∷ 2 ∷ []

-- Environment 0 runs with page 0 as its directory; entries 1, used before, and 2 are free.
abbrev table : EnvTable
table = record { envs = runner ∷ used ∷ env env_free 0 0 none none ∷ []; env_free_list = some 1 }

abbrev table-Spare : Spare table (1 ∷ 2 ∷ [])
table-Spare = record {
  chain = (refl, used, refl, (refl, env env_free 0 0 none none, refl, refl));
  distinct = ((omega arith, tt), (tt, tt));
}

env_alloc-envid2env_example :
    (t' : EnvTable) × (m' : Pages) × (id : ℕ) × (env_alloc table memory 4096
      ≡ done (allocated 1, t', m'))
    × ((cur : Option ℕ) → envid2env t'.envs cur id false ≡ found (some 1))
    × ((cur : Option ℕ) (perm : Bool)
        → used.env_id ≢ 0
        → envx 4097 ≡ 1
        → envid2env t'.envs cur 4097 perm ≡ refused e_bad_env)
    × Spare t' (2 ∷ [])
    × Free m' (1 ∷ [])
env_alloc-envid2env_example =
    env_alloc-envid2env table memory 4096 1 2 (2 ∷ []) (1 ∷ []) table-Spare memory-Free
      (omega arith) (omega arith)

envid2env_iff_example : (envid2env table.envs (some 0) 4096 true ≡ found (some 0)) ↔ (
    (0 ≡ envx 4096)
    × (is_free env_runnable ≡ false)
    × (runner.env_id ≡ 4096)
    × (true ≡ true → (0 ≡ envx 4096) ⊎ (runner.env_parent_id ≡ 4096)))
envid2env_iff_example = envid2env_iff table.envs 0 runner 4096 0 runner true (omega arith) refl refl
