-- ===== src/Kern/Secure.antt =====
-- The state between system calls: the environments of sched/kern/env.c with their page directories, and
-- the memory of sched/kern/pmap.c.
use sis_ops.Common.{
  ◌≢◌, sym, ◌⊎◌, ℕ, zero, suc, ◌<◌, ◌≡◌, refl, ap, ◌∙◌, inl, inr, List, [], ◌∷◌, Option, some, true,
  false, ◌==◌, arith, Bool-cases, length, get_elem?, set, length-set, get_elem?-set_self,
  get_elem?-set_ne, option_eq, Bool-cases,
}
use sis_ops.Kern.{e_bad_env, e_no_mem, Env, envx, nenv}
use sis_ops.Kern.Paging.{Memory}
use sis_ops.Kern.FreePages.{get_elem?-lt}
use sis_ops.Kern.Counting.{In}
use sis_ops.Kern.Accounts.{Live, IsMemory}
use sis_ops.Kern.Entries.{Isolated}
use sis_ops.Kern.Keeping.{IsMemory-same}
use sis_ops.Kern.Envs.{found, refused, is_free, check_perm, envid2env}
use sis_ops.Kern.Kernel.{Kernel, Ret, Result, failed, returns, env_at, set_env, memory, with_memory}

-- No references but those of page directories and entries.
abbrev pub nothing_held : ℕ → ℕ
nothing_held p = 0

-- Each environment in use has one of the directories `ds` for itself, the tables are `ts`, the free pages `is`, and
-- an environment is running.
pub record IsSecure (k : Kernel) (ds ts is : List ℕ) : Type 0 where
  pub memory_ : IsMemory (memory k) ds ts is nothing_held
  pub full : length k.cpu.envs ≡ nenv
  pub dir :
      (i : ℕ) (e : Env)
      → env_at k i ≡ some e
      → is_free e.env_status ≡ false
      → (d : ℕ) × (e.env_pgdir ≡ some d) × In d ds
  pub own :
      (i j : ℕ) (e f : Env)
      → env_at k i ≡ some e
      → env_at k j ≡ some f
      → is_free e.env_status ≡ false
      → is_free f.env_status ≡ false
      → e.env_pgdir ≡ f.env_pgdir
      → i ≡ j
  pub current :
      (c : ℕ) × (e : Env) × (k.cpu.curenv ≡ some c)
      × (env_at k c ≡ some e)
      × (is_free e.env_status ≡ false)

-- A call returns and leaves the memory in order; only the map of the directory `d` changes, and no page is
-- lost but the last free one, where memory runs out.
pub record Keeps (k : Kernel) (ds ts is : List ℕ) (d : ℕ) (r : Result) : Type 0 where
  pub ret : Ret
  pub after_ : Kernel
  pub tables : List ℕ
  pub left : List ℕ
  pub returned : r ≡ returns ret after_
  pub secure : IsSecure after_ ds tables left
  pub isolated : Isolated k.words after_.words ds d
  pub kept :
      (p : ℕ)
      → Live k.words ds ts is nothing_held p
      → Live after_.words ds tables left nothing_held p ⊎ ((ret ≡ failed e_no_mem) × (is ≡ p ∷ []))

-- The environment that an id leads to, with its directory.
pub record Target (k : Kernel) (ds : List ℕ) (envid : ℕ) : Type 0 where
  pub env : ℕ
  pub entry : Env
  pub pgdir : ℕ
  pub leads : envid2env k.cpu.envs k.cpu.curenv envid true ≡ found (some env)
  pub here : env_at k env ≡ some entry
  pub busy : is_free entry.env_status ≡ false
  pub dir : entry.env_pgdir ≡ some pgdir
  pub known : In pgdir ds

get_elem?-total :
    {A : Type 0} → (xs : List A) (i : ℕ) → i < length xs → (a : A) × (get_elem? xs i ≡ some a)
get_elem?-total [] i h = absurd (omega arith)
get_elem?-total (x ∷ xs) zero h = (x, refl)
get_elem?-total (x ∷ xs) (suc i) h = get_elem?-total xs i (omega arith)

envid2env-cases :
    (envs : List Env) (c : ℕ) (cur : Env) (id : ℕ) (e : Env)
    → get_elem? envs c ≡ some cur
    → is_free cur.env_status ≡ false
    → get_elem? envs (envx id) ≡ some e
    → ((i : ℕ) × (x : Env) × (envid2env envs (some c) id true ≡ found (some i))
        × (get_elem? envs i ≡ some x)
        × (is_free x.env_status ≡ false))
      ⊎ (envid2env envs (some c) id true ≡ refused e_bad_env)
unfolding envid2env check_perm
envid2env-cases envs c cur id e g b h = elim (Bool-cases (id == 0)) [
  | inl z ↦ inl (c, cur, rw z refl, g, b)
  | inr n ↦ elim (Bool-cases (is_free e.env_status)) [
    | inl f ↦ inr (ground arith)
    | inr f ↦ elim (Bool-cases (e.env_id == id)) [
      | inr o ↦ inr (ground arith)
      | inl o ↦ elim (Bool-cases (c == envx id)) [
        | inl s ↦ inl (envx id, e, ground arith, h, f)
        | inr s ↦ elim (Bool-cases (e.env_parent_id == cur.env_id)) [
          | inl p ↦ inl (envx id, e, ground arith, h, f)
          | inr p ↦ inr (ground arith)
        ]
      ]
    ]
  ]
]

module _ (k : Kernel) (ds ts is : List ℕ) (v : IsSecure k ds ts is) where
  pub IsSecure-with_memory :
      (m : Memory) (ts' is' : List ℕ)
      → IsMemory m ds ts' is' nothing_held
      → IsSecure (with_memory k m) ds ts' is'
  IsSecure-with_memory m ts' is' w = record {
    memory_ = IsMemory-same m (memory (with_memory k m)) ds ts' is' nothing_held refl refl w;
    full = v.full;
    dir = v.dir;
    own = v.own;
    current = v.current;
  }

  -- A call that returns at once.
  pub Keeps-returns : (ret : Ret) (d : ℕ) → Keeps k ds ts is d (returns ret k)
  Keeps-returns ret d = record {
    ret = ret;
    after_ = k;
    tables = ts;
    left = is;
    returned = refl;
    secure = v;
    isolated = λ e vb y ne b. refl;
    kept = λ p l. inl l;
  }

  lead_to :
      (envid i : ℕ) (e : Env)
      → envid2env k.cpu.envs k.cpu.curenv envid true ≡ found (some i)
      → env_at k i ≡ some e
      → is_free e.env_status ≡ false
      → Target k ds envid
  lead_to envid i e l h b =
      let d = v.dir i e h b in
      record {
        env = i;
        entry = e;
        pgdir = d.0;
        leads = l;
        here = h;
        busy = b;
        dir = d.1;
        known = d.2;
      }

  named :
      (envid c : ℕ) (cur e : Env)
      → k.cpu.curenv ≡ some c
      → env_at k c ≡ some cur
      → is_free cur.env_status ≡ false
      → env_at k (envx envid) ≡ some e
      → Target k ds envid ⊎ (envid2env k.cpu.envs k.cpu.curenv envid true ≡ refused e_bad_env)
  named envid c cur e a b f g = elim (envid2env-cases k.cpu.envs c cur envid e b f g) [
    | inl r ↦ inl (
        lead_to envid r.0 r.1 (ap (λ (o : Option ℕ). envid2env k.cpu.envs o envid true) a ∙ r.2) r.3
          r.4)
    | inr r ↦ inr (ap (λ (o : Option ℕ). envid2env k.cpu.envs o envid true) a ∙ r)
  ]

  -- An id leads to an environment with a directory, or the call that has it fails.
  pub look_up :
      (envid : ℕ)
      → Target k ds envid ⊎ (envid2env k.cpu.envs k.cpu.curenv envid true ≡ refused e_bad_env)
  look_up envid =
      let c = v.current in
      let e = get_elem?-total k.cpu.envs (envx envid) (let f = v.full in omega (arith, f)) in
      named envid c.0 c.1 e.0 c.2 c.3 c.4 e.1

-- An entry of a list that was written to.
pub set-cases :
    {A : Type 0}
    → (xs : List A) (i j : ℕ) (y f : A) → i < length xs
    → get_elem? (set xs i y) j ≡ some f
    → ((j ≡ i) × (y ≡ f)) ⊎ ((j ≢ i) × (get_elem? xs j ≡ some f))
set-cases xs i j y f h e = elim (Bool-cases (j == i)) [
  | inl at ↦
      let same : j ≡ i = ground arith in
      inl (
        same,
        option_eq y f
            (sym (get_elem?-set_self xs i y h) ∙ ap (get_elem? (set xs i y)) (sym same) ∙ e),
      )
  | inr off ↦
      let ne : i ≢ j = λ z. ground arith in
      inr ((λ z. ne (sym z)), sym (get_elem?-set_ne xs y ne) ∙ e)
]

-- What an environment is does not change the order of the memory, while it has its directory.
module _ (k : Kernel) (ds ts is : List ℕ) (v : IsSecure k ds ts is) (i : ℕ) (e e' : Env)
    (here : env_at k i ≡ some e) (busy : is_free e.env_status ≡ false)
    (busy' : is_free e'.env_status ≡ false) (same : e'.env_pgdir ≡ e.env_pgdir) where
  within : i < length k.cpu.envs
  within = get_elem?-lt k.cpu.envs i e here

  -- The entry that was there has the directory, and is in use.
  before :
      (j : ℕ) (f : Env)
      → env_at (set_env k i e') j ≡ some f
      → is_free f.env_status ≡ false
      → (g : Env) × (env_at k j ≡ some g)
        × (is_free g.env_status ≡ false)
        × (g.env_pgdir ≡ f.env_pgdir)
  before j f h b = elim (set-cases k.cpu.envs i j e' f within h) [
    | inl o ↦ (
      e,
      ap (get_elem? k.cpu.envs) o.0 ∙ here,
      busy,
      sym same ∙ ap (λ (x : Env). x.env_pgdir) o.1,
    )
    | inr o ↦ (f, o.1, b, refl)
  ]

  pub IsSecure-set_env : IsSecure (set_env k i e') ds ts is
  IsSecure-set_env = record {
    memory_ =
        IsMemory-same (memory k) (memory (set_env k i e')) ds ts is nothing_held refl refl
          v.memory_;
    full = length-set k.cpu.envs i e' ∙ v.full;
    dir = λ j f h b.
        let o = before j f h b in let d = v.dir j o.0 o.1 o.2 in (d.0, sym o.3 ∙ d.1, d.2);
    own = λ j l f g h m b c z.
        let o = before j f h b in
        let q = before l g m c in v.own j l o.0 q.0 o.1 q.1 o.2 q.2 (o.3 ∙ z ∙ sym q.3);
    current = elim (Bool-cases (v.current.0 == i)) [
      | inl at ↦
          let c : v.current.0 ≡ i = ground arith in
          (i, e', v.current.2 ∙ ap some c, get_elem?-set_self k.cpu.envs i e' within, busy')
      | inr off ↦ (
        v.current.0,
        v.current.1,
        v.current.2,
        get_elem?-set_ne k.cpu.envs e' (λ z. ground arith) ∙ v.current.3,
        v.current.4,
      )
    ];
  }
