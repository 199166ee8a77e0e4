-- ===== src/Kern/Sched/Busy.antt =====
-- The scheduler never idles while an environment can run, and keeps to one running environment.
use sis_ops.Common.{
  ℕ, zero, suc, ◌+◌, ◌<◌, ◌≡◌, ◌≢◌, refl, sym, ap, ◌∙◌, inl, inr, List, [], ◌∷◌, Option, some, none,
  Bool, true, false, arith, Option-cases, option_eq, length, length-set, get_elem?, ℤ, ◌%◌,
}
use sis_ops.Kern.{Env, EnvStatus, nenv, inc32}
use sis_ops.Kern.Sched.{
  Cpu, Outcome, runs, Build, sched_round_robin, sched_priorities, sched_none, is_runnable,
  is_running, at, boost_due, lower, lower_at, select, run_selected, priority_sched, sched_rr,
  sched_yield, env_run, count_run, rr_start,
}
use sis_ops.Kern.Sched.Running.{env_run-Entered, get_elem?-some}
use sis_ops.Kern.Sched.RoundRobin.{RrSpec, enters, stays, stops, sched_rr-RrSpec}
use sis_ops.Kern.Sched.Priority.{Highest, Selected, nothing, selected, select-Selected}
use sis_ops.Kern.Sched.Boost.{length-boost_due, boost_due-runnable}

-- A call of the scheduler that has entered environment `i`, which could run.
pub record Enters (k : Cpu) (i : ℕ) (r : Cpu × Outcome) : Type 0 where
  pub outcome : r.1 ≡ runs i
  pub current : r.0.curenv ≡ some i
  pub was_runnable : at k.envs i is_runnable ≡ true
  pub now_running : at r.0.envs i is_running ≡ true
  pub unlocked : r.0.kernel_locked ≡ false

env_run-Enters :
    (k k' : Cpu) (i : ℕ)
    → i < length k'.envs
    → at k.envs i is_runnable ≡ true
    → Enters k i (env_run i k')
env_run-Enters k k' i h was =
    let (s, out) = env_run-Entered i k' h in
    record {
      outcome = out;
      current = s.current;
      was_runnable = was;
      now_running = ground (arith, s.holds, s.running);
      unlocked = s.unlocked;
    }

rr-Enters :
    (k : Cpu) (x : ℕ)
    → length k.envs ≡ nenv
    → x < nenv
    → at k.envs x is_runnable ≡ true
    → (i : ℕ) × Enters k i (sched_rr k)
rr-Enters k x len bound ready = go (sched_rr k) (sched_rr-RrSpec k)
  where
    go : (r : Cpu × Outcome) → RrSpec k r → (i : ℕ) × Enters k i r
    go r (stays c idle cur) = cc (ready, idle x bound)
    go r (stops idle cur) = cc (ready, idle x bound)
    go r (enters d l f) = (
      (rr_start k + d) % nenv,
      let z : rr_start k + (0 + d) ≡ rr_start k + d = omega arith in
          env_run-Enters k (count_run k) ((rr_start k + d) % nenv) (omega arith) (rw z at f.hit),
    )

pub at-get :
    (envs : List Env) (x : ℕ) (test : EnvStatus → Bool)
    → at envs x test ≡ true
    → (e : Env) × (get_elem? envs x ≡ some e) × (test e.env_status ≡ true)
at-get [] x test h = cc
at-get (e ∷ rest) zero test h = (e, refl, h)
at-get (e ∷ rest) (suc x) test h = at-get rest x test h

length-lower_at : (i : ℕ) (envs : List Env) → length (lower_at i envs) ≡ length envs
length-lower_at i envs = elim (Option-cases (get_elem? envs i)) [
  | inl p ↦ ground arith
  | inr (e, p) ↦ ground (arith, length-set envs i (lower e))
]

pub get_elem?_bound :
    (envs : List Env) (i : ℕ) (e : Env) → get_elem? envs i ≡ some e → i < length envs
get_elem?_bound [] i e p = cc
get_elem?_bound (u ∷ envs) zero e p = omega arith
get_elem?_bound (u ∷ envs) (suc i) e p = omega (arith, get_elem?_bound envs i e p)

-- Backwards through a boost.
boost_due-at :
    (k : Cpu) (i : ℕ) (e' : Env)
    → get_elem? (boost_due k).envs i ≡ some e'
    → is_runnable e'.env_status ≡ true
    → at k.envs i is_runnable ≡ true
boost_due-at k i e' p run =
    let bound = get_elem?_bound (boost_due k).envs i e' p in
    let (e, q) = get_elem?-some k.envs i (omega (arith, length-boost_due k)) in
    let (u, pu, su) = boost_due-runnable k i e q in
    let z : u ≡ e' = option_eq u e' (sym pu ∙ p) in ground (arith, ap (λ (w : Env). w.env_status) z)

run_selected-Enters :
    (k k' : Cpu) (x : ℕ) (e : Env)
    → ((i : ℕ) (u : Env)
        → get_elem? k'.envs i ≡ some u
        → is_runnable u.env_status ≡ true
        → at k.envs i is_runnable ≡ true)
    → get_elem? k'.envs x ≡ some e
    → is_runnable e.env_status ≡ true
    → (i : ℕ) × (p : ℤ) × Highest k'.envs i p × Enters k i (run_selected (select k'.envs 0 none) k')
unfolding run_selected
run_selected-Enters k k' x e back p run = go (select k'.envs 0 none) (select-Selected k'.envs 0)
  where
    go :
        (r : Option (ℕ × ℤ))
        → Selected k'.envs 0 r
        → (i : ℕ) × (p : ℤ) × Highest k'.envs i p × Enters k i (run_selected r k')
    go r (nothing idle) = cc (run, idle x e p)
    go r (selected d index q same h) =
        let z : index ≡ d = omega arith in
        let bound = get_elem?_bound k'.envs d h.env h.found in
        (
          d,
          q,
          h,
          rw z (
              env_run-Enters k (count_run (record k' { envs = lower_at d k'.envs })) d
                (omega (arith, length-lower_at d k'.envs)) (back d h.env h.found h.runnable)),
        )

pub priority_sched-Enters :
    (k : Cpu) (x : ℕ)
    → at k.envs x is_runnable ≡ true
    → (i : ℕ) × (p : ℤ) × Highest (boost_due k).envs i p × Enters k i (priority_sched k)
unfolding priority_sched
priority_sched-Enters k x ready =
    let (e, q, run) = at-get k.envs x is_runnable ready in
    let (e', q', s) = boost_due-runnable k x e q in
    run_selected-Enters k (boost_due k) x e' (boost_due-at k) q' (rw s run)

-- With either scheduler built in, a call of `sched_yield` enters an environment that could run, if
-- there is one: the CPU does not go on with the current environment, halt or fall into the monitor.
pub sched_yield-Enters :
    (build : Build) (k : Cpu) (x : ℕ)
    → build ≢ sched_none
    → length k.envs ≡ nenv
    → x < nenv
    → at k.envs x is_runnable ≡ true
    → (i : ℕ) × Enters k i (sched_yield build k)
unfolding sched_yield
sched_yield-Enters sched_round_robin k x ne len bound ready =
    let k' : Cpu = record k {
      stats = record k.stats { amount_of_sc_calls = inc32 k.stats.amount_of_sc_calls };
    } in
    let (i, s) = rr-Enters k' x len bound ready in
    (
      i,
      record {
        outcome = s.outcome;
        current = s.current;
        was_runnable = s.was_runnable;
        now_running = s.now_running;
        unlocked = s.unlocked;
      },
    )
sched_yield-Enters sched_priorities k x ne len bound ready =
    let k' : Cpu = record k {
      stats = record k.stats { amount_of_sc_calls = inc32 k.stats.amount_of_sc_calls };
    } in
    let (i, p, h, s) = priority_sched-Enters k' x ready in
    (
      i,
      record {
        outcome = s.outcome;
        current = s.current;
        was_runnable = s.was_runnable;
        now_running = s.now_running;
        unlocked = s.unlocked;
      },
    )
sched_yield-Enters sched_none k x ne len bound ready = absurd (ne refl)
