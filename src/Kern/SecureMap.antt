-- ===== src/Kern/SecureMap.antt =====
-- `sys_page_map` of sched/kern/syscall.c on a memory in order.
use Prim.Native.Nat.{bit_and, bit_or}
use sis_ops.Common.{
  Option-cases, ℕ, ◌+◌, ◌/◌, ◌<◌, ◌≡◌, ◌≢◌, sym, ap, ◌∙◌, inl, inr, List, Option, some, none, true,
  false, not, ◌&&◌, ◌||◌, ◌==◌, arith, Bool-cases, get_elem?, All, All-get,
}
use sis_ops.Common.Bits.{bit_or-div_page, zero-bit_or}
use mathlib.Core.Path.{subst}
use sis_ops.Kern.{e_inval, e_bad_env, Env}
use sis_ops.Kern.Pages.{PageInfo, done}
use sis_ops.Kern.Paging.{pdx, ptx, pgnum, pte_p, pte_w, pte_u, page_lookup}
use sis_ops.Kern.AddressMap.{utop, entry_of, entry_of-some}
use sis_ops.Kern.Mapping.{IsSpace}
use sis_ops.Kern.Walking.{Used-busy}
use sis_ops.Kern.Spaces.{page_lookup-IsSpace}
use sis_ops.Kern.Counting.{In}
use sis_ops.Kern.Accounts.{refs, IsMemory-IsSpace, mapped-refs, counted-Used}
use sis_ops.Kern.Envs.{found, refused, envid2env}
use sis_ops.Kern.Kernel.{Kernel, failed, env_at, memory}
use sis_ops.Kern.Syscall.{fails, with_env, bad_va, answer, lookup_page, env_page_map, sys_page_map}
use sis_ops.Kern.PageCalls.{
  low_va, map_flags, looked_up, Parties, env_page_map_lem, sys_page_map_lem,
}
use sis_ops.Kern.Secure.{nothing_held, IsSecure, Keeps, Target, Keeps-returns, look_up}
use sis_ops.Kern.SecureCalls.{Serves, Keeps-eq, insert_page-Keeps}

sys_page_map-bad_va :
    (k : Kernel) (src srcva dst dstva perm : ℕ)
    → (bad_va srcva || bad_va dstva) ≡ true
    → sys_page_map k src srcva dst dstva perm ≡ fails e_inval k
unfolding sys_page_map
sys_page_map-bad_va k src srcva dst dstva perm b = ground (arith, b)

module _ (k : Kernel) (src srcva dst dstva perm : ℕ) where
  sys_page_map-no_source :
      bad_va srcva ≡ false
      → bad_va dstva ≡ false
      → envid2env k.cpu.envs k.cpu.curenv src true ≡ refused e_bad_env
      → sys_page_map k src srcva dst dstva perm ≡ fails e_bad_env k
  unfolding sys_page_map with_env
  sys_page_map-no_source a b l = ground (arith, l)

  sys_page_map-no_target :
      (i : ℕ)
      → bad_va srcva ≡ false
      → bad_va dstva ≡ false
      → envid2env k.cpu.envs k.cpu.curenv src true ≡ found (some i)
      → envid2env k.cpu.envs k.cpu.curenv dst true ≡ refused e_bad_env
      → sys_page_map k src srcva dst dstva perm ≡ fails e_bad_env k
  unfolding sys_page_map with_env
  sys_page_map-no_target i a b l r = ground (arith, l, r)

module _ (k : Kernel) (i srcva j dstva perm ds : ℕ) (se : Env) (at : env_at k i ≡ some se)
    (dir : se.env_pgdir ≡ some ds) where
  env_page_map-none :
      page_lookup (memory k) ds srcva ≡ done none
      → env_page_map k i srcva j dstva perm answer ≡ fails e_inval k
  unfolding env_page_map lookup_page
  env_page_map-none l = ground (arith, at, dir, l)

  env_page_map-read_only :
      (q t x : ℕ)
      → page_lookup (memory k) ds srcva ≡ done (some (q, (t, x)))
      → (not (bit_and perm pte_w == 0) && bit_and (k.words t x) pte_w == 0) ≡ true
      → env_page_map k i srcva j dstva perm answer ≡ fails e_inval k
  unfolding env_page_map lookup_page
  env_page_map-read_only q t x l w = ground (arith, at, dir, l, w)

map_flags-low : (perm : ℕ) → perm < 4096 → map_flags perm < 4096
map_flags-low perm h =
    let e = bit_or-div_page (bit_or pte_p pte_u) perm in
    let z = zero-bit_or (perm / 4096) in omega (arith, e, z)

page_lookup-none :
    (k : Kernel) (d va : ℕ) (is : List ℕ)
    → IsSpace (memory k) d is
    → va < utop
    → entry_of k.words d va ≡ none
    → page_lookup (memory k) d va ≡ done none
page_lookup-none k d va is s h e =
    page_lookup-IsSpace (memory k) d va is s h
    ∙ ap
        (λ (o : Option ℕ). done (elim o as (λ _. Option (ℕ × (ℕ × ℕ))) [
          | none ↦ none
          | some x ↦ some (pgnum x, (pgnum (k.words d (pdx va)), ptx va))
        ]))
        e

module _ (k : Kernel) (ds ts is : List ℕ) (v : IsSecure k ds ts is) where
  -- A page that is mapped may be mapped once more.
  mapped_page :
      (d va pte : ℕ)
      → In d ds
      → va < utop
      → entry_of k.words d va ≡ some pte
      → (p : PageInfo) × (get_elem? k.alloc.pages (pgnum pte) ≡ some p)
        × (p.pp_link ≡ none)
        × (p.pp_ref ≡ refs k.words ds ts (pgnum pte) + 0)
        × All (λ i. i ≢ pgnum pte) is
  mapped_page d va pte x h e =
      let m = v.memory_ in
      let at = entry_of-some k.words d va pte e in
      let i = m.table d (pdx va) x (omega arith) at.0 in
      let r =
        mapped-refs (memory k) ds ts is nothing_held m (pgnum (k.words d (pdx va))) (ptx va) i
          (λ z. at.2 (sym at.1 ∙ z)) in
      let pos_ : 0 < refs k.words ds ts (pgnum pte) + 0 =
        let q = subst (λ (y : ℕ). 0 < refs k.words ds ts (pgnum y)) at.1 r in omega (arith, q) in
      let c = m.counted (pgnum pte) pos_ in
      (
        c.0,
        c.1,
        c.2,
        c.3,
        Used-busy k.alloc (pgnum pte) is m.free
            (counted-Used (memory k) ds ts is nothing_held m (pgnum pte) pos_),
      )

  map_page :
      (srcva dstva perm src dst : ℕ)
      → perm < 4096
      → bad_va srcva ≡ false
      → bad_va dstva ≡ false
      → All (λ p. p.pp_ref < 65535) k.alloc.pages
      → (s : Target k ds src) → (t : Target k ds dst) → (pte : ℕ)
      → entry_of k.words s.pgdir srcva ≡ some pte
      → Keeps k ds ts is t.pgdir (env_page_map k s.env srcva t.env dstva (map_flags perm) answer)
  map_page srcva dstva perm src dst low a b room s t pte e =
      elim (Bool-cases (not (bit_and flags pte_w == 0) && bit_and pte pte_w == 0)) [
        | inl read_only ↦
            Keeps-eq k ds ts is t.pgdir _ _
              (env_page_map-read_only k s.env srcva t.env dstva flags s.pgdir s.entry s.here s.dir
                (pgnum pte) table (ptx srcva) looked (rw at.1 read_only))
              (Keeps-returns k ds ts is v (failed e_inval) t.pgdir)
        | inr allowed ↦
            Keeps-eq k ds ts is t.pgdir _ _
              (env_page_map_lem k s.env srcva t.env dstva flags (pgnum pte) pte table (ptx srcva)
                s.pgdir answer s.entry s.here s.dir looked at.1 allowed)
              (insert_page-Keeps k ds ts is v t.env t.pgdir (pgnum pte) dstva flags t.entry page.0
                t.here t.dir t.known (low_va dstva b) (map_flags-low perm low) page.4 page.1 page.2
                page.3
                (All-get (λ q. q.pp_ref < 65535) k.alloc.pages (pgnum pte) page.0 room page.1))
      ]
    where
      flags : ℕ
      flags = map_flags perm

      table : ℕ
      table = pgnum (k.words s.pgdir (pdx srcva))

      at :
          (k.words s.pgdir (pdx srcva) ≢ 0)
          × (k.words (pgnum (k.words s.pgdir (pdx srcva))) (ptx srcva) ≡ pte)
          × (pte ≢ 0)
      at = entry_of-some k.words s.pgdir srcva pte e

      looked : page_lookup (memory k) s.pgdir srcva ≡ done (some (pgnum pte, (table, ptx srcva)))
      looked =
          looked_up k s.pgdir srcva pte is
            (IsMemory-IsSpace (memory k) ds ts is nothing_held v.memory_ s.pgdir s.known)
            (low_va srcva a) e

      page :
          (p : PageInfo) × (get_elem? k.alloc.pages (pgnum pte) ≡ some p)
          × (p.pp_link ≡ none)
          × (p.pp_ref ≡ refs k.words ds ts (pgnum pte) + 0)
          × All (λ i. i ≢ pgnum pte) is
      page = mapped_page s.pgdir srcva pte s.known (low_va srcva a) e

  map :
      (srcva dstva perm src dst : ℕ)
      → perm < 4096
      → bad_va srcva ≡ false
      → bad_va dstva ≡ false
      → All (λ p. p.pp_ref < 65535) k.alloc.pages
      → (s : Target k ds src) → (t : Target k ds dst)
      → Keeps k ds ts is t.pgdir (env_page_map k s.env srcva t.env dstva (map_flags perm) answer)
  map srcva dstva perm src dst low a b room s t =
      elim (Option-cases (entry_of k.words s.pgdir srcva)) [
        | inl none_there ↦
            Keeps-eq k ds ts is t.pgdir _ _
              (env_page_map-none k s.env srcva t.env dstva (map_flags perm) s.pgdir s.entry s.here
                s.dir (page_lookup-none k s.pgdir srcva is space (low_va srcva a) none_there))
              (Keeps-returns k ds ts is v (failed e_inval) t.pgdir)
        | inr r ↦ map_page srcva dstva perm src dst low a b room s t r.0 r.1
      ]
    where
      space : IsSpace (memory k) s.pgdir is
      space = IsMemory-IsSpace (memory k) ds ts is nothing_held v.memory_ s.pgdir s.known

  -- `sys_page_map` of flags only keeps the memory in order, while no page has 65535 references.
  pub sys_page_map-IsSecure :
      (srcenvid srcva dstenvid dstva perm : ℕ)
      → perm < 4096
      → All (λ p. p.pp_ref < 65535) k.alloc.pages
      → Serves k ds ts is dstenvid (sys_page_map k srcenvid srcva dstenvid dstva perm)
  sys_page_map-IsSecure src srcva dst dstva perm low room =
      elim (Bool-cases (bad_va srcva || bad_va dstva)) [
        | inl b ↦ inr (e_inval, sys_page_map-bad_va k src srcva dst dstva perm b)
        | inr b ↦
            let b1 : bad_va srcva ≡ false = ground arith in
            let b2 : bad_va dstva ≡ false = ground arith in
            elim (look_up k ds ts is v src) [
              | inr r ↦ inr (e_bad_env, sys_page_map-no_source k src srcva dst dstva perm b1 b2 r)
              | inl s ↦ elim (look_up k ds ts is v dst) [
                | inr r ↦ inr (
                  e_bad_env,
                  sys_page_map-no_target k src srcva dst dstva perm s.env b1 b2 s.leads r,
                )
                | inl t ↦
                    let parties : Parties k src dst s.env t.env s.pgdir t.pgdir s.entry t.entry =
                      record {
                        src = s.leads;
                        dst = t.leads;
                        src_env = s.here;
                        dst_env = t.here;
                        src_dir = s.dir;
                        dst_dir = t.dir;
                      } in
                    inl (
                      t,
                      Keeps-eq k ds ts is t.pgdir _ _
                          (sys_page_map_lem k src srcva dst dstva perm s.env t.env s.pgdir t.pgdir
                            s.entry t.entry parties b1 b2)
                          (map srcva dstva perm src dst low b1 b2 room s t),
                    )
              ]
            ]
      ]
