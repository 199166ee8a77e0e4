-- ===== src/Kern/Ids.antt =====
-- The ids of environments: fresh ones, stale ones, and who may use one.
use sis_ops.Common.{
  ℕ, ◌+◌, ◌%◌, ◌^◌, ◌<◌, ◌≤◌, ◌≡◌, ◌≢◌, ◌↔◌, ◌⊎◌, refl, List, [], ◌∷◌, Option, some, none, Bool,
  true, false, get_elem?, set, get_elem?-set_self, arith, All,
}
use sis_ops.Kern.{e_bad_env, e_no_mem, e_no_free_env, Env, nenv, envx}
use sis_ops.Kern.Links.{Chain, Chain-set, Chain-push, Distinct}
use sis_ops.Kern.Pages.{PageInfo, Pages, done, page_alloc, page_decref}
use sis_ops.Kern.FreePages.{Free, Free-set, get_elem?-lt, page_alloc-Free, page_decref-Free}
use sis_ops.Kern.Envs.{
  EnvTable, found, refused, is_free, check_perm, envid2env, env_setup_vm, generation, new_env,
  allocated, failed, env_alloc, released, release_env,
}

abbrev pub env_link_of : Env → Option ℕ
env_link_of e = e.env_link

-- The entries that are handed out next, in this order.
pub record Spare (t : EnvTable) (is : List ℕ) : Type 0 where
  pub chain : Chain env_link_of t.envs t.env_free_list is
  pub distinct : Distinct is

generation-bounds :
    (id : ℕ)
    → id < 2 ^ 31
    → (4096 ≤ generation id)
      × (generation id < 2 ^ 31)
      × (generation id % 1024 ≡ 0)
      × ((i : ℕ) → i < 1024 → generation id + i ≢ id)
unfolding generation
generation-bounds id h = (ground arith, ground arith, ground arith, λ i b e. ground arith)

-- A fresh id is the id of its entry, and not the one before.
pub fresh :
    (id i : ℕ)
    → id < 2 ^ 31
    → i < 1024
    → (envx (generation id + i) ≡ i)
      × (generation id + i < 2 ^ 31)
      × (generation id + i ≢ id)
      × (generation id + i ≢ 0)
fresh id i h b =
    let g = generation-bounds id h in
    let g1 = g.1 in let g2 = g.2 in (omega arith, omega arith, g.3 i b, omega arith)

env_setup_vm-page :
    (m m' : Pages) (pg : ℕ) (p : PageInfo)
    → page_alloc m ≡ done (some pg, m')
    → get_elem? m'.pages pg ≡ some p
    → env_setup_vm m
      ≡ done (
        some pg,
        record m' { pages = set m'.pages pg (record p { pp_ref = (p.pp_ref + 1) % 65536 }) },
      )
unfolding env_setup_vm
env_setup_vm-page m m' pg p a g = ground arith

pub env_setup_vm-Free :
    (m : Pages) (pg : ℕ) (pgs : List ℕ)
    → Free m (pg ∷ pgs)
    → (m' : Pages) × (env_setup_vm m ≡ done (some pg, m')) × Free m' pgs
env_setup_vm-Free m pg pgs f =
    let a = page_alloc-Free m (pg ∷ pgs) f in
    let p = a.3.0 in
    let p' : PageInfo = record p { pp_ref = (p.pp_ref + 1) % 65536 } in
    (
      record a.0 { pages = set a.0.pages pg p' },
      env_setup_vm-page m a.0 pg p a.1 a.3.1,
      Free-set a.0 pg p' pgs f.distinct.0 a.2,
    )

pub env_alloc-done :
    (t : EnvTable) (m m' : Pages) (parent i pg : ℕ) (e : Env)
    → t.env_free_list ≡ some i
    → get_elem? t.envs i ≡ some e
    → env_setup_vm m ≡ done (some pg, m')
    → env_alloc t m parent
      ≡ done (
        allocated i,
        record { envs = set t.envs i (new_env i pg parent e); env_free_list = e.env_link },
        m',
      )
unfolding env_alloc
env_alloc-done t m m' parent i pg e a b c = ground arith

new_env-status : (i pg parent : ℕ) (e : Env) → is_free (new_env i pg parent e).env_status ≡ false
new_env-status i pg parent e = refl

envid2env-found :
    (envs : List Env) (cur : Option ℕ) (id i : ℕ) (e : Env)
    → id ≢ 0
    → envx id ≡ i
    → get_elem? envs i ≡ some e
    → is_free e.env_status ≡ false
    → e.env_id ≡ id
    → envid2env envs cur id false ≡ found (some i)
unfolding envid2env
envid2env-found envs cur id i e z x g a b = ground arith

envid2env-stale :
    (envs : List Env) (cur : Option ℕ) (id i : ℕ) (e : Env) (perm : Bool)
    → id ≢ 0
    → envx id ≡ i
    → get_elem? envs i ≡ some e
    → e.env_id ≢ id
    → envid2env envs cur id perm ≡ refused e_bad_env
unfolding envid2env
envid2env-stale envs cur id i e perm z x g b = ground arith

-- While entries and pages are free, `env_alloc` hands out the first free entry under an id that
-- leads to it; the table it leaves refuses the id that the entry had before, and the other free entries
-- and pages stay free.
pub env_alloc-envid2env :
    (t : EnvTable) (m : Pages) (parent i pg : ℕ) (is pgs : List ℕ)
    → (s : Spare t (i ∷ is)) → Free m (pg ∷ pgs)
    → i < nenv
    → s.chain.1.env_id < 2 ^ 31
    → (t' : EnvTable) × (m' : Pages) × (id : ℕ) × (env_alloc t m parent
        ≡ done (allocated i, t', m'))
      × ((cur : Option ℕ) → envid2env t'.envs cur id false ≡ found (some i))
      × ((cur : Option ℕ) (perm : Bool)
          → s.chain.1.env_id ≢ 0
          → envx s.chain.1.env_id ≡ i
          → envid2env t'.envs cur s.chain.1.env_id perm ≡ refused e_bad_env)
      × Spare t' is
      × Free m' pgs
env_alloc-envid2env t m parent i pg is pgs s f h b =
    let e = s.chain.1 in
    let vm = env_setup_vm-Free m pg pgs f in
    let e' = new_env i pg parent e in
    let id = generation e.env_id + i in
    let envs' = set t.envs i e' in
    let new = fresh e.env_id i b h in
    let here = get_elem?-set_self t.envs i e' (get_elem?-lt t.envs i e s.chain.2) in
    (
      record { envs = envs'; env_free_list = e.env_link },
      vm.0,
      id,
      env_alloc-done t m vm.0 parent i pg e s.chain.0 s.chain.2 vm.1,
      (λ cur.
          envid2env-found envs' cur id i e' new.3 new.0 here (new_env-status i pg parent e) refl),
      (λ cur perm nz own. envid2env-stale envs' cur e.env_id i e' perm nz own here new.2),
      record {
        chain = Chain-set env_link_of t.envs e.env_link is i e' s.distinct.0 s.chain.3;
        distinct = s.distinct.1;
      },
      vm.2,
    )

env_alloc-full :
    (t : EnvTable) (m : Pages) (parent : ℕ)
    → t.env_free_list ≡ none
    → env_alloc t m parent ≡ done (failed e_no_free_env, t, m)
unfolding env_alloc
env_alloc-full t m parent e = ground arith

env_alloc-no_mem :
    (t : EnvTable) (m : Pages) (parent i : ℕ) (e : Env)
    → t.env_free_list ≡ some i
    → get_elem? t.envs i ≡ some e
    → page_alloc m ≡ done (none, m)
    → env_alloc t m parent ≡ done (failed e_no_mem, t, m)
unfolding env_alloc env_setup_vm
env_alloc-no_mem t m parent i e a b c = ground arith

-- Without a free entry, or without a free page, `env_alloc` says so and changes nothing.
env_alloc-failed :
    (t : EnvTable) (m : Pages) (parent : ℕ) (is : List ℕ)
    → Spare t is
    → (is ≡ [] → env_alloc t m parent ≡ done (failed e_no_free_env, t, m))
      × (is ≢ [] → Free m [] → env_alloc t m parent ≡ done (failed e_no_mem, t, m))
env_alloc-failed t m parent [] s =
    ((λ e. env_alloc-full t m parent s.chain), (λ ne f. absurd (ne refl)))
env_alloc-failed t m parent (i ∷ is) s = (
  (λ e. cc),
  (λ ne f. env_alloc-no_mem t m parent i s.chain.1 s.chain.0 s.chain.2 (page_alloc-Free m [] f)),
)

-- An id other than zero gives the entry it names, if that is in use under just this id, and, where the
-- permission is checked, if it is the caller's or a child's of the caller; nothing else is given.
pub envid2env_iff :
    (envs : List Env) (c : ℕ) (cur : Env) (id i : ℕ) (e : Env) (perm : Bool)
    → id ≢ 0
    → get_elem? envs c ≡ some cur
    → get_elem? envs (envx id) ≡ some e
    → (envid2env envs (some c) id perm ≡ found (some i)) ↔ (
        (i ≡ envx id)
        × (is_free e.env_status ≡ false)
        × (e.env_id ≡ id)
        × (perm ≡ true → (c ≡ envx id) ⊎ (e.env_parent_id ≡ cur.env_id)))
unfolding envid2env check_perm
envid2env_iff envs c cur id i e perm z g h = ground arith

pub release_env-done :
    (t : EnvTable) (m m' : Pages) (i pg : ℕ) (e : Env)
    → get_elem? t.envs i ≡ some e
    → e.env_pgdir ≡ some pg
    → page_decref pg m ≡ done m'
    → release_env i t m
      ≡ done
          (record { envs = set t.envs i (released t.env_free_list e); env_free_list = some i }, m')
unfolding release_env
release_env-done t m m' i pg e a b c = ground arith

envid2env-free :
    (envs : List Env) (cur : Option ℕ) (id i : ℕ) (e : Env) (perm : Bool)
    → id ≢ 0
    → envx id ≡ i
    → get_elem? envs i ≡ some e
    → is_free e.env_status ≡ true
    → envid2env envs cur id perm ≡ refused e_bad_env
unfolding envid2env
envid2env-free envs cur id i e perm z x g a = ground arith

-- The last part of `env_free` makes the entry the first free one and its page directory, if nothing
-- else refers to it, the first free page; the table it leaves refuses the id of the entry.
release_env-envid2env :
    (t : EnvTable) (m : Pages) (i pg : ℕ) (is pgs : List ℕ) (e : Env) (p : PageInfo)
    → Spare t is
    → All (λ j. j ≢ i) is
    → get_elem? t.envs i ≡ some e
    → e.env_pgdir ≡ some pg
    → Free m pgs
    → get_elem? m.pages pg ≡ some p
    → p.pp_link ≡ none
    → p.pp_ref ≡ 1
    → (t' : EnvTable) × (m' : Pages) × (release_env i t m ≡ done (t', m'))
      × Spare t' (i ∷ is)
      × Free m' (pg ∷ pgs)
      × ((cur : Option ℕ) (perm : Bool)
          → e.env_id ≢ 0
          → envx e.env_id ≡ i
          → envid2env t'.envs cur e.env_id perm ≡ refused e_bad_env)
release_env-envid2env t m i pg is pgs e p s ne g d f gp l r =
    let freed = (page_decref-Free m pgs pg p f gp l (omega arith) (omega arith)).0 r in
    let e' = released t.env_free_list e in
    let within = get_elem?-lt t.envs i e g in
    let here = get_elem?-set_self t.envs i e' within in
    (
      record { envs = set t.envs i e'; env_free_list = some i },
      freed.0,
      release_env-done t m freed.0 i pg e g d freed.1,
      record {
        chain = Chain-push env_link_of t.envs t.env_free_list is i e' within refl ne s.chain;
        distinct = (ne, s.distinct);
      },
      freed.2,
      (λ cur perm z own. envid2env-free (set t.envs i e') cur e.env_id i e' perm z own here refl),
    )
