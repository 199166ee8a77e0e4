-- ===== src/Kern/Sched/Boost.antt =====
-- The boost of `priority_sched`.
use sis_ops.Common.{
  ℕ, zero, suc, ◌+◌, ◌≡◌, ◌<◌, inl, inr, refl, List, [], ◌∷◌, some, true, false, arith, Bool-cases,
  option_eq, length, get_elem?, ◌≤ℤ◌, leb, ap, ◌≤◌,
}
use sis_ops.Kern.{Env, default_priority}
use sis_ops.Kern.Sched.{Cpu, is_runnable, boost_one, boost, boost_due, boost_cycles}

get_elem?-boost :
    (envs : List Env) (n j : ℕ) (e : Env)
    → get_elem? envs j ≡ some e
    → get_elem? (boost envs n).0 j ≡ some (boost_one e).0
unfolding boost
get_elem?-boost [] n j e p = cc
get_elem?-boost (u ∷ rest) n zero e p = let z : u ≡ e = option_eq u e p in rw z
get_elem?-boost (u ∷ rest) n (suc j) e p = get_elem?-boost rest _ j e p

length-boost : (envs : List Env) (n : ℕ) → length (boost envs n).0 ≡ length envs
unfolding boost
length-boost [] n = refl
length-boost (u ∷ rest) n = ap suc (length-boost rest _)

boost_one-status : (e : Env) → (boost_one e).0.env_status ≡ e.env_status
unfolding boost_one
boost_one-status e = ground arith

-- What a boost makes of one environment.
pub record Boosted (e e' : Env) : Type 0 where
  pub status : e'.env_status ≡ e.env_status
  pub raised : is_runnable e.env_status ≡ true → default_priority ≤ℤ e'.priority
  pub never_lowered : e.priority ≤ℤ e'.priority
  pub others : is_runnable e.env_status ≡ false → e' ≡ e

boost_one-Boosted : (e : Env) → Boosted e (boost_one e).0
unfolding boost_one
boost_one-Boosted e = record {
  status = ground arith;
  raised = λ run. ground arith;
  never_lowered = ground arith;
  others = λ idle. ground arith;
}

-- At each hundredth call every runnable environment is brought to the default priority at least,
-- no priority is lowered, environments that are not runnable are left alone, and the count of
-- calls starts again; at any other call only the count goes up.
pub boost_due_lem :
    (k : Cpu) (j : ℕ) (e : Env)
    → get_elem? k.envs j ≡ some e
    → (boost_cycles ≤ k.boost_counter + 1
        → (e' : Env) × (get_elem? (boost_due k).envs j ≡ some e')
          × Boosted e e'
          × ((boost_due k).boost_counter ≡ 0))
      × (k.boost_counter + 1 < boost_cycles
          → (get_elem? (boost_due k).envs j ≡ some e)
            × ((boost_due k).boost_counter ≡ k.boost_counter + 1))
unfolding boost_due
boost_due_lem k j e p = (
  λ due. (
    (boost_one e).0,
    ground (arith, get_elem?-boost k.envs k.stats.sched_times_boosted j e p),
    boost_one-Boosted e,
    ground arith,
  ),
  λ early. (ground (arith, p), ground arith),
)

pub length-boost_due : (k : Cpu) → length (boost_due k).envs ≡ length k.envs
unfolding boost_due
length-boost_due k = ground (arith, length-boost k.envs k.stats.sched_times_boosted)

-- Whoever is runnable is so after a boost.
pub boost_due-runnable :
    (k : Cpu) (j : ℕ) (e : Env)
    → get_elem? k.envs j ≡ some e
    → (e' : Env) × (get_elem? (boost_due k).envs j ≡ some e') × (e'.env_status ≡ e.env_status)
unfolding boost_due
boost_due-runnable k j e p = elim (Bool-cases (leb boost_cycles (k.boost_counter + 1))) [
  | inl due ↦ (
    (boost_one e).0,
    ground (arith, get_elem?-boost k.envs k.stats.sched_times_boosted j e p),
    boost_one-status e,
  )
  | inr early ↦ (e, ground (arith, p), refl)
]
