-- ===== src/Kern/Sched/Exclusive.antt =====
-- At most one environment runs: the current one, whatever the scheduler does.
use sis_ops.Common.{
  ℕ, ◌≡◌, refl, sym, ap, ◌∙◌, inl, inr, List, Option, some, none, true, false, arith, Option-cases,
  Bool-cases, option_eq, get_elem?, ℤ, set,
}
use sis_ops.Kern.{Env, inc32}
use sis_ops.Kern.Sched.{
  Cpu, Outcome, Build, sched_round_robin, sched_priorities, sched_none, is_running, at, boost_due,
  lower, lower_at, select, run_selected, priority_sched, sched_rr, sched_yield, sched_halt, env_run,
  count_run, cur_running,
}
use sis_ops.Kern.Sched.Running.{OnlyCur, env_run-OnlyCur, at-set, get_elem?-some}
use sis_ops.Kern.Sched.RoundRobin.{RrSpec, enters, stays, stops, sched_rr-RrSpec}
use sis_ops.Kern.Sched.Boost.{length-boost_due, boost_due-runnable}
use sis_ops.Kern.Sched.Busy.{get_elem?_bound, at-get}

-- No environment is running at all.
halt-OnlyCur : (k : Cpu) → ((j : ℕ) → at k.envs j is_running ≡ false) → OnlyCur (sched_halt k).0
unfolding sched_halt
halt-OnlyCur k still j h = ground (arith, still j)

still_of : (k : Cpu) → OnlyCur k → cur_running k ≡ none → (j : ℕ) → at k.envs j is_running ≡ false
still_of k only e j = elim (Bool-cases (at k.envs j is_running)) [
  | inl run ↦ ground (arith, only j run)
  | inr off ↦ off
]

lower-status : (e : Env) → (lower e).env_status ≡ e.env_status
lower-status e = ground arith

at-lower_at :
    (i j : ℕ) (envs : List Env)
    → at (lower_at i envs) j is_running ≡ true
    → at envs j is_running ≡ true
at-lower_at i j envs h = elim (Option-cases (get_elem? envs i)) [
  | inl p ↦ ground arith
  | inr (e, p) ↦
      let h' : at (set envs i (lower e)) j is_running ≡ true = ground arith in
      elim (at-set envs i j (lower e) is_running h') [
        | inl (q, r) ↦ ground (arith, lower-status e, ap (get_elem? envs) q)
        | inr (q, r) ↦ r
      ]
]

boost_due-running :
    (k : Cpu) (j : ℕ) → at (boost_due k).envs j is_running ≡ true → at k.envs j is_running ≡ true
boost_due-running k j h =
    let (u, q, run) = at-get (boost_due k).envs j is_running h in
    let bound = get_elem?_bound (boost_due k).envs j u q in
    let (e, p) = get_elem?-some k.envs j (omega (arith, length-boost_due k)) in
    let (w, pw, s) = boost_due-runnable k j e p in
    let z : w ≡ u = option_eq w u (sym pw ∙ q) in ground (arith, ap (λ (v : Env). v.env_status) z)

boost_due-curenv : (k : Cpu) → (boost_due k).curenv ≡ k.curenv
unfolding boost_due
boost_due-curenv k = ground arith

boost_due-OnlyCur : (k : Cpu) → OnlyCur k → OnlyCur (boost_due k)
boost_due-OnlyCur k only j h = boost_due-curenv k ∙ only j (boost_due-running k j h)

run_selected-OnlyCur : (r : Option (ℕ × ℤ)) (k : Cpu) → OnlyCur k → OnlyCur (run_selected r k).0
unfolding run_selected
run_selected-OnlyCur (some (i, p)) k only =
    env_run-OnlyCur i (count_run (record k { envs = lower_at i k.envs }))
      (λ j h. only j (at-lower_at i j k.envs h))
run_selected-OnlyCur none k only = elim (Option-cases (cur_running k)) [
  | inl e ↦ rw (e, run_selected) (halt-OnlyCur k (still_of k only e))
  | inr (c, e) ↦ rw (e, run_selected) (env_run-OnlyCur c k only)
]

rr-OnlyCur : (k : Cpu) → OnlyCur k → OnlyCur (sched_rr k).0
rr-OnlyCur k only = go (sched_rr k) (sched_rr-RrSpec k)
  where
    go : (r : Cpu × Outcome) → RrSpec k r → OnlyCur r.0
    go r (enters d l f) = env_run-OnlyCur _ (count_run k) only
    go r (stays c idle cur) = env_run-OnlyCur c (count_run k) only
    go r (stops idle cur) = halt-OnlyCur k (still_of k only cur)

-- If only the current environment may be running when `sched_yield` is called, only the one that is
-- current when it ends may be running then, with each of the schedulers and however it ends.
pub sched_yield-OnlyCur : (build : Build) (k : Cpu) → OnlyCur k → OnlyCur (sched_yield build k).0
unfolding sched_yield priority_sched
sched_yield-OnlyCur build k only = go build
  where
    k' : Cpu
    k' = record k {
      stats = record k.stats { amount_of_sc_calls = inc32 k.stats.amount_of_sc_calls };
    }

    bare :
        (c : Option ℕ)
        → k.curenv ≡ c
        → OnlyCur
            (elim c as (λ x. Cpu × Outcome) [ some i ↦ env_run i k' | none ↦ sched_halt k' ]).0
    bare none e = halt-OnlyCur k' (λ j. elim (Bool-cases (at k.envs j is_running)) [
      | inl run ↦ cc (e, only j run)
      | inr off ↦ off
    ])
    bare (some i) e = env_run-OnlyCur i k' only

    go : (b : Build) → OnlyCur (sched_yield b k).0
    go sched_round_robin = rr-OnlyCur k' only
    go sched_priorities =
        run_selected-OnlyCur (select (boost_due k').envs 0 none) (boost_due k')
          (boost_due-OnlyCur k' only)
    go sched_none = bare k.curenv refl
