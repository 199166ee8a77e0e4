-- ===== src/Kern/Sched/Running.antt =====
-- What `env_run` and `sched_halt` do to the statuses: one environment runs at a time.
use sis_ops.Common.{
  ℕ, zero, suc, ◌<◌, ◌≡◌, ◌≢◌, refl, ap, ◌∙◌, ◌⊎◌, inl, inr, List, [], ◌∷◌, Option, some, none,
  Bool, true, false, get_elem?, set, arith, Option-cases, Bool-cases, get_elem?-set_self, option_eq,
  length, length-set,
}
use sis_ops.Kern.{EnvStatus, env_running, env_runnable, Env, inc32}
use sis_ops.Kern.Sched.{Cpu, runs, at, is_running, step_down, env_run, set_status}

-- Whatever runs is the current environment of this CPU.
abbrev pub OnlyCur : Cpu → Type 0
OnlyCur k = (j : ℕ) → at k.envs j is_running ≡ true → k.curenv ≡ some j

-- A write at one index shows there alone.
pub at-set :
    (envs : List Env) (i j : ℕ) (v : Env) (test : EnvStatus → Bool)
    → at (set envs i v) j test ≡ true
    → ((i ≡ j) × (test v.env_status ≡ true)) ⊎ ((i ≢ j) × (at envs j test ≡ true))
at-set [] i j v test h = absurd (cc h)
at-set (e ∷ rest) zero zero v test h = inl (refl, h)
at-set (e ∷ rest) zero (suc j) v test h = inr ((λ p. absurd (omega arith)), h)
at-set (e ∷ rest) (suc i) zero v test h = inr ((λ p. absurd (omega arith)), h)
at-set (e ∷ rest) (suc i) (suc j) v test h = elim (at-set rest i j v test h) [
  | inl (p, q) ↦ inl (ap suc p, q)
  | inr (p, q) ↦ inr ((λ r. p (omega arith)), q)
]

-- Once the current environment has stepped down, none is running.
step_down-none :
    (cur : Option ℕ) (envs : List Env)
    → ((j : ℕ) → at envs j is_running ≡ true → cur ≡ some j)
    → (j : ℕ) → at (step_down cur envs) j is_running ≡ true
    → ⊥
unfolding step_down
step_down-none none envs only j h = cc (only j h)
step_down-none (some c) envs only j h = elim (Option-cases (get_elem? envs c)) [
  | inl p ↦
      let q : at envs j is_running ≡ true = ground arith in
      let r : c ≡ j = ground (arith, only j q) in ground arith
  | inr (e, p) ↦ elim (Bool-cases (is_running e.env_status)) [
    | inl running ↦
        let h' : at (set envs c (set_status env_runnable e)) j is_running ≡ true = ground arith in
        elim (at-set envs c j (set_status env_runnable e) is_running h') [
          | inl (q, r) ↦ cc r
          | inr (q, r) ↦ absurd (q (option_eq c j (only j r)))
        ]
    | inr still ↦
        let q : at envs j is_running ≡ true = ground arith in
        let r : c ≡ j = option_eq c j (only j q) in ground (arith, ap (get_elem? envs) r)
  ]
]

step_down-length : (cur : Option ℕ) (envs : List Env) → length (step_down cur envs) ≡ length envs
unfolding step_down
step_down-length none envs = refl
step_down-length (some c) envs = elim (Option-cases (get_elem? envs c)) [
  | inl p ↦ ground arith
  | inr (e, p) ↦ ground (arith, length-set envs c (set_status env_runnable e))
]

pub get_elem?-some {ℓ} :
    {A : Type ℓ} (xs : List A) (i : ℕ) → i < length xs → (v : A) × (get_elem? xs i ≡ some v)
get_elem?-some [] i h = absurd (omega arith)
get_elem?-some (x ∷ xs) zero h = (x, refl)
get_elem?-some (x ∷ xs) (suc i) h = get_elem?-some xs i (omega arith)

-- The state in which an environment is entered.
pub record Entered (i : ℕ) (k k' : Cpu) : Type 0 where
  pub current : k'.curenv ≡ some i
  pub entered : Env
  pub holds : get_elem? k'.envs i ≡ some entered
  pub running : entered.env_status ≡ env_running
  pub space : k'.cr3 ≡ entered.env_pgdir
  pub unlocked : k'.kernel_locked ≡ false
  pub count : length k'.envs ≡ length k.envs

pub env_run-Entered :
    (i : ℕ) (k : Cpu) → i < length k.envs → Entered i k (env_run i k).0 × ((env_run i k).1 ≡ runs i)
unfolding env_run
env_run-Entered i k h =
    let len = step_down-length k.curenv k.envs in
    let (e, found) = get_elem?-some (step_down k.curenv k.envs) i (omega arith) in
    let v : Env = record e {
      env_status = env_running;
      env_runs = inc32 e.env_runs;
      env_cpunum = k.cpunum;
    } in
    rw (found, env_run)
      (
        record {
          current = refl;
          entered = v;
          holds = get_elem?-set_self (step_down k.curenv k.envs) i v (omega arith);
          running = refl;
          space = refl;
          unlocked = refl;
          count = length-set (step_down k.curenv k.envs) i v ∙ len;
        },
        refl,
      )

pub env_run-OnlyCur : (i : ℕ) (k : Cpu) → OnlyCur k → OnlyCur (env_run i k).0
unfolding env_run
env_run-OnlyCur i k only j h = elim (Option-cases (get_elem? (step_down k.curenv k.envs) i)) [
  | inl p ↦ ground (arith, only j)
  | inr (e, p) ↦
      let v : Env = record e {
        env_status = env_running;
        env_runs = inc32 e.env_runs;
        env_cpunum = k.cpunum;
      } in
      let h' : at (set (step_down k.curenv k.envs) i v) j is_running ≡ true = ground arith in
      elim (at-set (step_down k.curenv k.envs) i j v is_running h') [
        | inl (q, r) ↦ ground arith
        | inr (q, r) ↦ absurd (step_down-none k.curenv k.envs only j r)
      ]
]
