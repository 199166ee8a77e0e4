-- ===== src/Kern/SecureAlloc.antt =====
-- `sys_page_alloc` of sched/kern/syscall.c on a memory in order.
use Prim.Native.Nat.{bit_and, bit_or}
use sis_ops.Common.{
  Option-cases, ℕ, ◌+◌, ◌/◌, ◌^◌, ◌<◌, ◌≡◌, refl, sym, ◌∙◌, ap₂, inl, inr, List, ◌∷◌, some, none,
  true, false, arith, Bool-cases,
}
use sis_ops.Common.Bits.{bit_or-div_page, bit_or-zero, bit_and-high_mask}
use sis_ops.Kern.{ErrorCode, e_inval, e_no_mem, e_bad_env}
use sis_ops.Kern.Pages.{done}
use sis_ops.Kern.Paging.{pte_p, pte_u, page_alloc_zero}
use sis_ops.Kern.AddressMap.{utop, Words}
use sis_ops.Kern.Accounts.{refs}
use mathlib.Core.Path.{subst}
use sis_ops.Kern.Taking.{Zeroed, page_alloc_zero-Zeroed}
use sis_ops.Kern.Envs.{refused, envid2env}
use sis_ops.Kern.Kernel.{Kernel, failed, memory, with_memory}
use sis_ops.Kern.Syscall.{
  fails, with_env, bad_va, answer, check_perm, env_page_alloc, sys_page_alloc,
}
use sis_ops.Kern.PageCalls.{low_va}
use sis_ops.Kern.PageLeak.{sys_page_alloc_lem, env_page_alloc_lem}
use sis_ops.Kern.Secure.{
  nothing_held, IsSecure, Keeps, Target, IsSecure-with_memory, Keeps-returns, look_up,
}
use sis_ops.Kern.SecureCalls.{Serves, Keeps-eq, insert_page-Placing}

sys_page_alloc-bad_va :
    (k : Kernel) (envid va perm : ℕ)
    → bad_va va ≡ true
    → sys_page_alloc k envid va perm ≡ fails e_inval k
unfolding sys_page_alloc
sys_page_alloc-bad_va k envid va perm b = ground arith

sys_page_alloc-refused :
    (k : Kernel) (envid va perm : ℕ)
    → bad_va va ≡ false
    → envid2env k.cpu.envs k.cpu.curenv envid true ≡ refused e_bad_env
    → sys_page_alloc k envid va perm ≡ fails e_bad_env k
unfolding sys_page_alloc with_env
sys_page_alloc-refused k envid va perm b l = ground (arith, l)

env_page_alloc-bad_perm :
    (k : Kernel) (i va perm : ℕ) (x : ErrorCode)
    → check_perm perm none ≡ some x
    → env_page_alloc k i va perm answer ≡ fails x k
unfolding env_page_alloc
env_page_alloc-bad_perm k i va perm x e = ground (arith, e)

env_page_alloc-none :
    (k : Kernel) (i va perm : ℕ)
    → check_perm perm none ≡ none
    → page_alloc_zero (memory k) ≡ done (none, memory k)
    → env_page_alloc k i va perm answer ≡ fails e_no_mem k
unfolding env_page_alloc
env_page_alloc-none k i va perm e a = ground (arith, e, a)

-- The flags that `sys_page_alloc` passes on, and those that pass its check.
abbrev alloc_flags : ℕ → ℕ
alloc_flags perm = bit_or (bit_or perm pte_u) pte_p

check_perm-low : (perm : ℕ) → perm < 2 ^ 32 → check_perm perm none ≡ none → perm < 4096
unfolding check_perm
check_perm-low perm h c =
    let high = bit_and-high_mask perm 4294963704 refl h in
    let zero_ : bit_and perm 4294963704 ≡ 0 = ground arith in omega (arith, high, zero_)

alloc_flags-page : (perm : ℕ) → alloc_flags perm / 4096 ≡ perm / 4096
alloc_flags-page perm =
    bit_or-div_page (bit_or perm pte_u) pte_p
    ∙ bit_or-zero (bit_or perm pte_u / 4096)
    ∙ bit_or-div_page perm pte_u
    ∙ bit_or-zero (perm / 4096)

alloc_flags-low :
    (perm : ℕ) → perm < 2 ^ 32 → check_perm (alloc_flags perm) none ≡ none → alloc_flags perm < 4096
alloc_flags-low perm h c =
    let e = alloc_flags-page perm in check_perm-low (alloc_flags perm) (omega (arith, e)) c

referred :
    (w : Words) (ds ts : List ℕ) (p q : ℕ) → p ≡ q → 0 < refs w ds ts q → 0 < refs w ds ts p + 0
referred w ds ts p q e h =
    let r = subst (λ (x : ℕ). 0 < refs w ds ts x) (sym e) h in omega (arith, r)

module _ (k : Kernel) (ds ts is : List ℕ) (v : IsSecure k ds ts is) where
  page_for :
      (va perm : ℕ)
      → va < utop
      → alloc_flags perm < 4096
      → check_perm (alloc_flags perm) none ≡ none
      → (envid : ℕ) (t : Target k ds envid) → Zeroed (memory k) ds ts is nothing_held
      → Keeps k ds ts is t.pgdir (env_page_alloc k t.env va (alloc_flags perm) answer)
  page_for va perm h low c envid t z =
      let w = IsSecure-with_memory k ds ts is v z.mem ts z.left z.memory in
      let s =
        insert_page-Placing (with_memory k z.mem) ds ts z.left w t.env t.pgdir z.page va
          (alloc_flags perm) t.entry z.info t.here t.dir t.known h low z.busy z.here z.alone
          (z.unused ∙ sym z.unreferred) (let u = z.unused in omega (arith, u)) in
      let r = s.keeps in
      record {
        ret = r.ret;
        after_ = r.after_;
        tables = r.tables;
        left = r.left;
        returned =
            env_page_alloc_lem k t.env va (alloc_flags perm) z.page z.mem answer c z.taken
            ∙ r.returned;
        secure = r.secure;
        isolated = λ e vb y ne b. r.isolated e vb y ne b ∙ z.same e vb y b;
        kept = λ p l. elim (z.kept p l) [
          | inr still ↦ inl (s.all_kept p still)
          | inl at ↦ elim s.placed [
            | inl there ↦ inl (inr (referred r.after_.words ds r.tables p z.page at there))
            | inr out ↦ inr (out.0, z.was ∙ ap₂ ◌∷◌ (sym at) out.1)
          ]
        ];
      }

  alloc :
      (envid va perm : ℕ)
      → perm < 2 ^ 32
      → bad_va va ≡ false
      → (t : Target k ds envid)
      → Keeps k ds ts is t.pgdir (env_page_alloc k t.env va (alloc_flags perm) answer)
  alloc envid va perm h b t = elim (Option-cases (check_perm (alloc_flags perm) none)) [
    | inr r ↦
        Keeps-eq k ds ts is t.pgdir _ _
          (env_page_alloc-bad_perm k t.env va (alloc_flags perm) r.0 r.1)
          (Keeps-returns k ds ts is v (failed r.0) t.pgdir)
    | inl c ↦ elim (page_alloc_zero-Zeroed (memory k) ds ts nothing_held is v.memory_) [
      | inl z ↦ page_for va perm (low_va va b) (alloc_flags-low perm h c) c envid t z
      | inr z ↦
          Keeps-eq k ds ts is t.pgdir _ _ (env_page_alloc-none k t.env va (alloc_flags perm) c z.1)
            (Keeps-returns k ds ts is v (failed e_no_mem) t.pgdir)
    ]
  ]

  -- `sys_page_alloc` keeps the memory in order, also where a page or a page table is missing: the counts are
  -- exact, at most the map of the environment that the id leads to changes, and a page that was free or
  -- referred to is free or referred to, but for one: where the call fails with E_NO_MEM, the only free page
  -- may be lost. It may also fail and change nothing.
  pub sys_page_alloc-IsSecure :
      (envid va perm : ℕ) → perm < 2 ^ 32 → Serves k ds ts is envid (sys_page_alloc k envid va perm)
  sys_page_alloc-IsSecure envid va perm h = elim (Bool-cases (bad_va va)) [
    | inl b ↦ inr (e_inval, sys_page_alloc-bad_va k envid va perm b)
    | inr b ↦ elim (look_up k ds ts is v envid) [
      | inl t ↦ inl (
        t,
        Keeps-eq k ds ts is t.pgdir _ _ (sys_page_alloc_lem k envid va perm t.env t.leads b)
            (alloc envid va perm h b t),
      )
      | inr r ↦ inr (e_bad_env, sys_page_alloc-refused k envid va perm b r)
    ]
  ]
