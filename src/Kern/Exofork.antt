-- ===== src/Kern/Exofork.antt =====
-- `sys_exofork` of sched/kern/syscall.c: the child that it makes.
use sis_ops.Common.{
  ℕ, ◌+◌, ◌^◌, ◌<◌, ◌≡◌, ◌≢◌, refl, sym, ◌∙◌, List, ◌∷◌, some, true, false, arith, pos, get_elem?,
  set, get_elem?-set_self, get_elem?-set_ne,
}
use sis_ops.Kern.{env_not_runnable, Env, nenv, envx}
use sis_ops.Kern.Pages.{Pages, done}
use sis_ops.Kern.FreePages.{Free, get_elem?-lt}
use sis_ops.Kern.Envs.{
  EnvTable, found, is_free, envid2env, check_perm, generation, new_env, env_setup_vm, allocated,
  env_alloc,
}
use sis_ops.Kern.Links.{Chain-set}
use sis_ops.Kern.Ids.{env_link_of, Spare, fresh, env_setup_vm-Free, env_alloc-done}
use sis_ops.Kern.Kernel.{Kernel, returns, value, env_at}
use sis_ops.Kern.Syscall.{filled, child_of, sys_exofork}

abbrev pub table_of : Kernel → EnvTable
table_of k = record { envs = k.cpu.envs; env_free_list = k.env_free_list }

abbrev forked : Kernel → EnvTable → Pages → ℕ → ℕ → Env → Env → Kernel
forked k t m i pg e cur = record k {
  cpu = record k.cpu { envs = set t.envs i (child_of cur e) };
  env_free_list = t.env_free_list;
  alloc = m;
  words = filled k.words k.kern_pgdir pg;
}

exofork_lem :
    (k : Kernel) (t : EnvTable) (m : Pages) (c i pg : ℕ) (cur e : Env)
    → k.cpu.curenv ≡ some c
    → env_at k c ≡ some cur
    → env_alloc (table_of k) k.alloc cur.env_id ≡ done (allocated i, t, m)
    → get_elem? t.envs i ≡ some e
    → e.env_pgdir ≡ some pg
    → sys_exofork k ≡ returns (value (pos e.env_id)) (forked k t m i pg e cur)
unfolding sys_exofork
exofork_lem k t m c i pg cur e a b d g h = ground arith

-- A parent may use the id of its child.
child_permitted :
    (envs : List Env) (c i id : ℕ) (cur e : Env)
    → id ≢ 0
    → envx id ≡ i
    → get_elem? envs i ≡ some e
    → get_elem? envs c ≡ some cur
    → is_free e.env_status ≡ false
    → e.env_id ≡ id
    → e.env_parent_id ≡ cur.env_id
    → envid2env envs (some c) id true ≡ found (some i)
unfolding envid2env check_perm
child_permitted envs c i id cur e z x g h busy same parent = ground arith

-- The child of `cur`, in the entry `i` with the page directory `pg`.
abbrev child : ℕ → ℕ → Env → Env → Env
child i pg cur e = child_of cur (new_env i pg cur.env_id e)

-- What `sys_exofork` leaves.
pub record Forked (k : Kernel) (c i : ℕ) (is pgs : List ℕ) (cur : Env) (id : ℕ) (k' : Kernel)
    : Type 0 where
  pub result : sys_exofork k ≡ returns (value (pos id)) k'
  pub born : Env
  pub here : env_at k' i ≡ some born
  pub not_runnable : born.env_status ≡ env_not_runnable
  pub registers :
      born.env_tf ≡ record cur.env_tf { tf_regs = record cur.env_tf.tf_regs { reg_eax = 0 } }
  pub parent : born.env_parent_id ≡ cur.env_id
  pub others : (j : ℕ) → j ≢ i → env_at k' j ≡ env_at k j
  pub permitted : envid2env k'.cpu.envs (some c) id true ≡ found (some i)
  pub spare : Spare (table_of k') is
  pub free : Free k'.alloc pgs

-- While an entry and a page are free, `sys_exofork` returns the id of a new environment, which the
-- caller may use: it has the first free entry, the caller's registers but for the result 0, and is not
-- runnable. The other environments are as before, and the other free entries and pages stay free.
pub sys_exofork-Forked :
    (k : Kernel) (c i pg : ℕ) (is pgs : List ℕ) (cur : Env)
    → (s : Spare (table_of k) (i ∷ is)) → Free k.alloc (pg ∷ pgs)
    → i < nenv
    → s.chain.1.env_id < 2 ^ 31
    → k.cpu.curenv ≡ some c
    → env_at k c ≡ some cur
    → c ≢ i
    → (k' : Kernel) × Forked k c i is pgs cur (generation s.chain.1.env_id + i) k'
sys_exofork-Forked k c i pg is pgs cur s f b h a g ne = (
  forked k t vm.0 i pg e1 cur,
  record {
    result =
        exofork_lem k t vm.0 c i pg cur e1 a g
          (env_alloc-done (table_of k) k.alloc vm.0 cur.env_id i pg e s.chain.0 s.chain.2 vm.1) one
          refl;
    born = child i pg cur e;
    here = two;
    not_runnable = refl;
    registers = refl;
    parent = refl;
    others = λ j n.
        get_elem?-set_ne t.envs (child i pg cur e) (λ z. n (sym z))
        ∙ get_elem?-set_ne k.cpu.envs e1 (λ z. n (sym z));
    permitted =
        child_permitted (set t.envs i (child i pg cur e)) c i id cur (child i pg cur e) new.3 new.0
          two
          (get_elem?-set_ne t.envs (child i pg cur e) (λ z. ne (sym z))
            ∙ get_elem?-set_ne k.cpu.envs e1 (λ z. ne (sym z))
            ∙ g)
          refl refl refl;
    spare = record {
      chain =
          Chain-set env_link_of t.envs e.env_link is i (child i pg cur e) s.distinct.0
            (Chain-set env_link_of k.cpu.envs e.env_link is i e1 s.distinct.0 s.chain.3);
      distinct = s.distinct.1;
    };
    free = vm.2;
  },
)
  where
    e : Env
    e = s.chain.1

    vm : (m' : Pages) × (env_setup_vm k.alloc ≡ done (some pg, m')) × Free m' pgs
    vm = env_setup_vm-Free k.alloc pg pgs f

    id : ℕ
    id = generation e.env_id + i

    new :
        (envx (generation e.env_id + i) ≡ i)
        × (generation e.env_id + i < 2 ^ 31)
        × (generation e.env_id + i ≢ e.env_id)
        × (generation e.env_id + i ≢ 0)
    new = fresh e.env_id i h b

    e1 : Env
    e1 = new_env i pg cur.env_id e

    t : EnvTable
    t = record { envs = set k.cpu.envs i e1; env_free_list = e.env_link }

    one : get_elem? (set k.cpu.envs i e1) i ≡ some e1
    one = get_elem?-set_self k.cpu.envs i e1 (get_elem?-lt k.cpu.envs i e s.chain.2)

    two : get_elem? (set t.envs i (child i pg cur e)) i ≡ some (child i pg cur e)
    two = get_elem?-set_self t.envs i (child i pg cur e) (get_elem?-lt t.envs i e1 one)
