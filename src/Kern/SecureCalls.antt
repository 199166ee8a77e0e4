-- ===== src/Kern/SecureCalls.antt =====
-- `sys_page_unmap` of sched/kern/syscall.c on a memory in order, and what its callers share.
use sis_ops.Common.{
  ◌⊎◌, ℕ, ◌+◌, ◌<◌, ◌≡◌, ◌≢◌, refl, sym, inl, inr, List, [], some, none, true, false, arith,
  Bool-cases, get_elem?, All, pos,
}
use mathlib.Core.Path.{subst}
use sis_ops.Kern.{ErrorCode, e_inval, e_no_mem, e_bad_env, Env}
use sis_ops.Kern.Pages.{PageInfo, done}
use sis_ops.Kern.Paging.{Memory, page_remove}
use sis_ops.Kern.AddressMap.{utop}
use sis_ops.Kern.Counting.{In}
use sis_ops.Kern.Accounts.{refs, Live}
use sis_ops.Kern.Keeping.{page_remove-IsMemory}
use sis_ops.Kern.Adding.{page_insert-IsMemory}
use sis_ops.Kern.Envs.{found, refused, envid2env}
use sis_ops.Kern.Kernel.{Kernel, value, failed, Result, env_at, memory, with_memory}
use sis_ops.Kern.Syscall.{fails, ok, with_env, bad_va, answer, insert_page, sys_page_unmap}
use sis_ops.Kern.PageCalls.{low_va, insert_page_lem}
use sis_ops.Kern.Secure.{nothing_held, IsSecure, Keeps, Target, IsSecure-with_memory, look_up}

-- The call fails and changes nothing, or it keeps the memory in order and at most the map of the
-- environment that the id leads to changes.
abbrev pub Serves : Kernel → List ℕ → List ℕ → List ℕ → ℕ → Result → Type 0
Serves k ds ts is envid r =
    ((t : Target k ds envid) × Keeps k ds ts is t.pgdir r) ⊎ ((e : ErrorCode) × (r ≡ fails e k))

pub Keeps-eq :
    (k : Kernel) (ds ts is : List ℕ) (d : ℕ) (r s : Result)
    → r ≡ s
    → Keeps k ds ts is d s
    → Keeps k ds ts is d r
Keeps-eq k ds ts is d r s e w = subst (λ (x : Result). Keeps k ds ts is d x) (sym e) w

-- What an insertion for a call does: no page is lost, and the page is in the map, unless memory ran out.
pub record Placing (k : Kernel) (ds ts is : List ℕ) (d pp : ℕ) (r : Result) : Type 0 where
  pub keeps : Keeps k ds ts is d r
  pub all_kept :
      (p : ℕ)
      → Live k.words ds ts is nothing_held p
      → Live keeps.after_.words ds keeps.tables keeps.left nothing_held p
  pub placed :
      (0 < refs keeps.after_.words ds keeps.tables pp) ⊎ ((keeps.ret ≡ failed e_no_mem) × (is ≡ []))

Placing-eq :
    (k : Kernel) (ds ts is : List ℕ) (d pp : ℕ) (r s : Result)
    → r ≡ s
    → Placing k ds ts is d pp s
    → Placing k ds ts is d pp r
Placing-eq k ds ts is d pp r s e w = subst (λ (x : Result). Placing k ds ts is d pp x) (sym e) w

sys_page_unmap_lem :
    (k : Kernel) (envid va i d : ℕ) (e : Env) (m : Memory)
    → bad_va va ≡ false
    → envid2env k.cpu.envs k.cpu.curenv envid true ≡ found (some i)
    → env_at k i ≡ some e
    → e.env_pgdir ≡ some d
    → page_remove (memory k) d va ≡ done m
    → sys_page_unmap k envid va ≡ ok (with_memory k m)
unfolding sys_page_unmap with_env
sys_page_unmap_lem k envid va i d e m b l h g r = ground (arith, l, h, g, r)

sys_page_unmap-bad_va :
    (k : Kernel) (envid va : ℕ) → bad_va va ≡ true → sys_page_unmap k envid va ≡ fails e_inval k
unfolding sys_page_unmap
sys_page_unmap-bad_va k envid va b = ground arith

sys_page_unmap-refused :
    (k : Kernel) (envid va : ℕ)
    → bad_va va ≡ false
    → envid2env k.cpu.envs k.cpu.curenv envid true ≡ refused e_bad_env
    → sys_page_unmap k envid va ≡ fails e_bad_env k
unfolding sys_page_unmap with_env
sys_page_unmap-refused k envid va b l = ground (arith, l)

module _ (k : Kernel) (ds ts is : List ℕ) (v : IsSecure k ds ts is) where
  unmap :
      (envid va : ℕ)
      → bad_va va ≡ false
      → (t : Target k ds envid) → Keeps k ds ts is t.pgdir (sys_page_unmap k envid va)
  unmap envid va b t =
      let o =
        page_remove-IsMemory (memory k) ds ts is nothing_held v.memory_ t.pgdir va t.known
          (low_va va b) in
      record {
        ret = value (pos 0);
        after_ = with_memory k o.mem;
        tables = ts;
        left = o.left;
        returned =
            sys_page_unmap_lem k envid va t.env t.pgdir t.entry o.mem b t.leads t.here t.dir
              o.done_;
        secure = IsSecure-with_memory k ds ts is v o.mem ts o.left o.memory;
        isolated = o.isolated;
        kept = λ p l. inl (o.kept p l);
      }

  -- `sys_page_unmap` keeps the memory in order.
  pub sys_page_unmap-IsSecure : (envid va : ℕ) → Serves k ds ts is envid (sys_page_unmap k envid va)
  sys_page_unmap-IsSecure envid va = elim (Bool-cases (bad_va va)) [
    | inl b ↦ inr (e_inval, sys_page_unmap-bad_va k envid va b)
    | inr b ↦ elim (look_up k ds ts is v envid) [
      | inl t ↦ inl (t, unmap envid va b t)
      | inr r ↦ inr (e_bad_env, sys_page_unmap-refused k envid va b r)
    ]
  ]

  -- `page_insert` for a system call.
  module _ (i d pp va perm : ℕ) (e : Env) (p : PageInfo) (at : env_at k i ≡ some e)
      (dir : e.env_pgdir ≡ some d) (x : In d ds) (h : va < utop) (low : perm < 4096)
      (busy : All (λ j. j ≢ pp) is) (here : get_elem? k.alloc.pages pp ≡ some p)
      (alone : p.pp_link ≡ none) (exact : p.pp_ref ≡ refs k.words ds ts pp + 0)
      (room : p.pp_ref < 65535) where
    pub insert_page-Placing : Placing k ds ts is d pp (insert_page k i pp va perm answer)
    insert_page-Placing =
        elim (page_insert-IsMemory (memory k) ds ts is nothing_held d pp va perm p v.memory_ x h low
          busy here alone exact room) [
            | inl f ↦
                Placing-eq k ds ts is d pp _ _
                  (insert_page_lem k i pp va perm d answer e none f.mem at dir f.inserted.done_)
                  (record {
                    keeps = record {
                      ret = value (pos 0);
                      after_ = with_memory k f.mem;
                      tables = f.tables;
                      left = f.left;
                      returned = refl;
                      secure = IsSecure-with_memory k ds ts is v f.mem f.tables f.left f.memory;
                      isolated = f.isolated;
                      kept = λ q l. inl (f.kept q l);
                    };
                    all_kept = f.kept;
                    placed = inl f.placed;
                  })
            | inr f ↦
                Placing-eq k ds ts is d pp _ _
                  (insert_page_lem k i pp va perm d answer e (some e_no_mem) (memory k) at dir f.2)
                  (record {
                    keeps = record {
                      ret = failed e_no_mem;
                      after_ = k;
                      tables = ts;
                      left = is;
                      returned = refl;
                      secure = v;
                      isolated = λ e vb y ne b. refl;
                      kept = λ q l. inl l;
                    };
                    all_kept = λ q l. l;
                    placed = inr (refl, f.0);
                  })
          ]

    pub insert_page-Keeps : Keeps k ds ts is d (insert_page k i pp va perm answer)
    insert_page-Keeps = insert_page-Placing.keeps
