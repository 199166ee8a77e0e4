-- ===== src/Kern/Sched.antt =====
-- sched/kern/sched.c, and `env_run` of sched/kern/env.c, by which a choice takes effect.
mod Tests
pub mod Running
pub mod RoundRobin
pub mod Priority
pub mod Boost
pub mod Busy
pub mod Exclusive
use sis_ops.Common.{
  ℕ, zero, suc, ◌+◌, ◌%◌, List, [], ◌∷◌, Option, some, none, Bool, true, false, ◌&&◌, ◌||◌,
  if◌then◌else◌, leb, get_elem?, set, ℤ, pos, ltb_ℤ, pred_ℤ,
}
use sis_ops.Kern.{
  EnvStatus, env_dying, env_runnable, env_running, Env, nenv, envx, default_priority, inc32,
}

abbrev pub boost_cycles : ℕ
boost_cycles = 100

-- `struct stadistics`
pub record Stadistics : Type 0 where
  pub amount_of_sc_calls : ℕ
  pub runs_total : ℕ
  pub sched_times_boosted : ℕ

-- What the scheduler reads and writes. `cr3` is the page directory loaded, `none` for the kernel's;
-- `kernel_locked` is the big kernel lock, and `halted` is `cpu_status == CPU_HALTED`.
pub record Cpu : Type 0 where
  pub envs : List Env
  pub curenv : Option ℕ
  pub stats : Stadistics
  pub boost_counter : ℕ
  pub cpunum : ℕ
  pub cr3 : Option ℕ
  pub kernel_locked : Bool
  pub halted : Bool

-- How a call that does not return ends: in an environment, halted, or in the kernel monitor.
-- `fault` is an access through an index outside `envs`.
pub data Outcome : Type 0 where
  runs : ℕ → Outcome
  halts monitors fault : Outcome

abbrev pub is_runnable : EnvStatus → Bool
is_runnable env_runnable = true
is_runnable _ = false

abbrev pub is_running : EnvStatus → Bool
is_running env_running = true
is_running _ = false

-- RUNNABLE, RUNNING or DYING.
abbrev is_live : EnvStatus → Bool
is_live env_runnable = true
is_live env_running = true
is_live env_dying = true
is_live _ = false

abbrev status_is : (EnvStatus → Bool) → Option Env → Bool
status_is test none = false
status_is test (some e) = test e.env_status

abbrev pub at : List Env → ℕ → (EnvStatus → Bool) → Bool
at envs i test = status_is test (get_elem? envs i)

abbrev pub set_status : EnvStatus → Env → Env
set_status status e = record e { env_status = status }

-- `curenv` steps down if it was running.
pub step_down : Option ℕ → List Env → List Env
step_down none envs = envs
step_down (some c) envs = elim (get_elem? envs c) [
  | none ↦ envs
  | some e ↦ if is_running e.env_status then set envs c (set_status env_runnable e) else envs
]

-- `env_run` up to the switch of context.
pub env_run : ℕ → Cpu → Cpu × Outcome
unfolding step_down
env_run i k =
    let envs = step_down k.curenv k.envs in
    elim (get_elem? envs i) [
      | none ↦ (k, fault)
      | some e ↦ (
        record k {
          envs = set envs i (record e {
            env_status = env_running;
            env_runs = inc32 e.env_runs;
            env_cpunum = k.cpunum;
          });
          curenv = some i;
          cr3 = e.env_pgdir;
          kernel_locked = false;
        },
        runs i,
      )
    ]

-- The loop of `sched_halt`: some environment can still run.
any_live : List Env → Bool
any_live [] = false
any_live (e ∷ rest) = is_live e.env_status || any_live rest

-- `sched_halt`, up to the halt or the monitor.
pub sched_halt : Cpu → Cpu × Outcome
unfolding any_live
sched_halt k =
    if any_live k.envs
    then (record k { curenv = none; cr3 = none; halted = true; kernel_locked = false }, halts)
    else (k, monitors)

-- `curenv && curenv->env_status == ENV_RUNNING`
abbrev pub cur_running : Cpu → Option ℕ
cur_running k = elim k.curenv [
  | none ↦ none
  | some c ↦ if at k.envs c is_running then some c else none
]

-- `curenv ? ENVX(curenv->env_id) + 1 : 0`
pub rr_start : Cpu → ℕ
rr_start k = elim k.curenv [
  | none ↦ 0
  | some c ↦ elim (get_elem? k.envs c) [ none ↦ 0 | some e ↦ envx e.env_id + 1 ]
]

-- The circular search, with `n` rounds left of the loop at round `i`.
pub rr_from : List Env → ℕ → ℕ → ℕ → Option ℕ
rr_from envs start i zero = none
rr_from envs start i (suc n) =
    let later = rr_from envs start (i + 1) n in
    if at envs ((start + i) % nenv) is_runnable then some ((start + i) % nenv) else later

abbrev pub count_run : Cpu → Cpu
count_run k = record k { stats = record k.stats { runs_total = inc32 k.stats.runs_total } }

pub sched_rr : Cpu → Cpu × Outcome
unfolding rr_from rr_start
sched_rr k = elim (rr_from k.envs (rr_start k) 0 nenv) [
  | some i ↦ env_run i (count_run k)
  | none ↦ elim (cur_running k) [ some c ↦ env_run c (count_run k) | none ↦ sched_halt k ]
]

-- One environment in the loop that boosts, with whether it was boosted.
pub boost_one : Env → Env × Bool
boost_one e =
    if is_runnable e.env_status && ltb_ℤ e.priority default_priority
    then (
      record e { priority = default_priority; env_times_boosted = inc32 e.env_times_boosted },
      true,
    )
    else (e, false)

-- The loop that boosts, with the counter `sched_times_boosted`.
pub boost : List Env → ℕ → List Env × ℕ
unfolding boost_one
boost [] n = ([], n)
boost (e ∷ rest) n =
    let one = boost_one e in
    let more = boost rest (if one.1 then inc32 n else n) in (one.0 ∷ more.0, more.1)

-- The loop that selects: the first of the runnable environments of highest priority.
pub select : List Env → ℕ → Option (ℕ × ℤ) → Option (ℕ × ℤ)
select [] i best = best
select (e ∷ rest) i best = select rest (i + 1) (
    if is_runnable e.env_status
    then elim best [
      | none ↦ some (i, e.priority)
      | some (j, p) ↦ if ltb_ℤ p e.priority then some (i, e.priority) else some (j, p)
    ]
    else best)

-- The counter of calls, and the boost that is due at each hundredth.
pub boost_due : Cpu → Cpu
unfolding boost
boost_due k =
    if leb boost_cycles (k.boost_counter + 1)
    then (let boosted = boost k.envs k.stats.sched_times_boosted in
        record k {
          envs = boosted.0;
          stats = record k.stats { sched_times_boosted = boosted.1 };
          boost_counter = 0;
        })
    else record k { boost_counter = k.boost_counter + 1 }

-- `if (priority > 1) priority--`
abbrev pub lower : Env → Env
lower e = if ltb_ℤ (pos 1) e.priority then record e { priority = pred_ℤ e.priority } else e

abbrev pub lower_at : ℕ → List Env → List Env
lower_at i envs = elim (get_elem? envs i) [ none ↦ envs | some e ↦ set envs i (lower e) ]

-- The end of `priority_sched`, with the environment selected.
pub run_selected : Option (ℕ × ℤ) → Cpu → Cpu × Outcome
run_selected (some (i, p)) k = env_run i (count_run (record k { envs = lower_at i k.envs }))
run_selected none k = elim (cur_running k) [ some c ↦ env_run c k | none ↦ sched_halt k ]

pub priority_sched : Cpu → Cpu × Outcome
unfolding boost_due select run_selected
priority_sched k = let k' = boost_due k in run_selected (select k'.envs 0 none) k'

-- Which scheduler the kernel is built with.
pub data Build : Type 0 where
  sched_round_robin sched_priorities sched_none : Build

pub sched_yield : Build → Cpu → Cpu × Outcome
sched_yield build k =
    let k' = record k {
      stats = record k.stats { amount_of_sc_calls = inc32 k.stats.amount_of_sc_calls };
    } in
    elim build [
      | sched_round_robin ↦ sched_rr k'
      | sched_priorities ↦ priority_sched k'
      | sched_none ↦ elim k'.curenv [ some c ↦ env_run c k' | none ↦ sched_halt k' ]
    ]
