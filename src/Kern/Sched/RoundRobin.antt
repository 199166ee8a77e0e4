-- ===== src/Kern/Sched/RoundRobin.antt =====
-- The circular search of `sched_rr`.
use sis_ops.Common.{
  ℕ, zero, suc, ◌+◌, ◌-◌, ◌<◌, ◌%◌, ◌≡◌, ◌≢◌, refl, ap, ◌∙◌, ◌⊎◌, inl, inr, List, some, none, true,
  false, arith, Option-cases, Bool-cases, length,
}
use native.Mathlib.Decide.{ℕ_discrete, dec_lt}
use sis_ops.Kern.{nenv, Env}
use sis_ops.Kern.Sched.{
  Cpu, Outcome, runs, at, is_runnable, rr_from, rr_start, sched_rr, env_run, count_run, cur_running,
  sched_halt,
}
use sis_ops.Kern.Sched.Running.{env_run-Entered}

-- The round `d` of the search, counted from the start, is the first at a runnable environment.
pub record FirstRound (envs : List Env) (start i d : ℕ) : Type 0 where
  pub hit : at envs ((start + (i + d)) % nenv) is_runnable ≡ true
  pub missed : (j : ℕ) → j < d → at envs ((start + (i + j)) % nenv) is_runnable ≡ false

FirstRound-suc :
    (envs : List Env) (start i d : ℕ)
    → at envs ((start + i) % nenv) is_runnable ≡ false
    → FirstRound envs start (i + 1) d
    → FirstRound envs start i (suc d)
FirstRound-suc envs start i d miss f = record {
  hit = let e : start + (i + 1 + d) ≡ start + (i + suc d) = omega arith in rw (← e) f.hit;
  missed = earlier;
}
  where
    earlier : (j : ℕ) → j < suc d → at envs ((start + (i + j)) % nenv) is_runnable ≡ false
    earlier zero l = let e : start + (i + 0) ≡ start + i = omega arith in rw e miss
    earlier (suc j) l =
        let e : start + (i + 1 + j) ≡ start + (i + suc j) = omega arith in
        rw (← e) (f.missed j (omega arith))

rr_from-FirstRound :
    (envs : List Env) (start i n index : ℕ)
    → rr_from envs start i n ≡ some index
    → (d : ℕ) × (d < n) × (index ≡ (start + (i + d)) % nenv) × FirstRound envs start i d
unfolding rr_from
rr_from-FirstRound envs start i zero index e = cc
rr_from-FirstRound envs start i (suc n) index e =
    elim (Bool-cases (at envs ((start + i) % nenv) is_runnable)) [
      | inl hit ↦
          let z : start + (i + 0) ≡ start + i = omega arith in
          (
            0,
            omega arith,
            rw z (ground arith),
            record { hit = rw z hit; missed = λ j l. absurd (omega arith) },
          )
      | inr miss ↦
          let (d, l, q, f) = rr_from-FirstRound envs start (i + 1) n index (ground arith) in
          let z : start + (i + suc d) ≡ start + (i + 1 + d) = omega arith in
          (suc d, omega arith, rw z q, FirstRound-suc envs start i d miss f)
    ]

rr_from-none :
    (envs : List Env) (start i n : ℕ)
    → rr_from envs start i n ≡ none
    → (j : ℕ) → j < n
    → at envs ((start + (i + j)) % nenv) is_runnable ≡ false
unfolding rr_from
rr_from-none envs start i zero e j l = absurd (omega arith)
rr_from-none envs start i (suc n) e zero l =
    let z : start + (i + 0) ≡ start + i = omega arith in rw z (ground arith)
rr_from-none envs start i (suc n) e (suc j) l =
    let z : start + (i + suc j) ≡ start + (i + 1 + j) = omega arith in
    rw z (rr_from-none envs start (i + 1) n (ground arith) j (omega arith))

-- The round at which the search that begins at `start` comes to index `x`.
abbrev round_of : ℕ → ℕ → ℕ
round_of start x = (x + nenv - start % nenv) % nenv

-- Every index is met.
round_of_lem :
    (start x : ℕ) → x < nenv → ((start + round_of start x) % nenv ≡ x) × (round_of start x < nenv)
round_of_lem start x h = (omega arith, omega arith)

-- The next environment that `sched_rr` enters, if any can run.
pub data RrSpec (k : Cpu) : Cpu × Outcome → Type 0 where
  enters :
      (d : ℕ)
      → d < nenv
      → FirstRound k.envs (rr_start k) 0 d
      → RrSpec k (env_run ((rr_start k + d) % nenv) (count_run k))
  stays :
      (c : ℕ)
      → ((x : ℕ) → x < nenv → at k.envs x is_runnable ≡ false)
      → cur_running k ≡ some c
      → RrSpec k (env_run c (count_run k))
  stops :
      ((x : ℕ) → x < nenv → at k.envs x is_runnable ≡ false)
      → cur_running k ≡ none
      → RrSpec k (sched_halt k)

none_runnable :
    (k : Cpu)
    → rr_from k.envs (rr_start k) 0 nenv ≡ none
    → (x : ℕ) → x < nenv
    → at k.envs x is_runnable ≡ false
none_runnable k e x h =
    let (p, l) = round_of_lem (rr_start k) x h in
    let q = rr_from-none k.envs (rr_start k) 0 nenv e (round_of (rr_start k) x) l in
    let z : (rr_start k + (0 + round_of (rr_start k) x)) % nenv ≡ x = omega arith in rw (← z) q

-- `sched_rr` enters the first runnable environment that it meets going round from the start, at
-- most once about; if none is runnable it goes on with the current one if that is running, and
-- else halts.
pub sched_rr-RrSpec : (k : Cpu) → RrSpec k (sched_rr k)
unfolding sched_rr
sched_rr-RrSpec k = elim (Option-cases (rr_from k.envs (rr_start k) 0 nenv)) [
  | inl e ↦ elim (Option-cases (cur_running k)) [
    | inl p ↦ rw (e, p, sched_rr) (stops (none_runnable k e) p)
    | inr (c, p) ↦ rw (e, p, sched_rr) (stays c (none_runnable k e) p)
  ]
  | inr (index, e) ↦
      let (d, l, q, f) = rr_from-FirstRound k.envs (rr_start k) 0 nenv index e in
      let z : index ≡ (rr_start k + d) % nenv = omega arith in rw (e, z, sched_rr) (enters d l f)
]

-- The distance to an environment that is passed over falls.
round_of_falls :
    (start d x : ℕ)
    → x < nenv
    → d < round_of start x
    → round_of ((start + d) % nenv + 1) x < round_of start x
round_of_falls start d x h l = omega arith

round_of_met : (start d x : ℕ) → x < nenv → d < nenv → (start + d) % nenv ≢ x → d ≢ round_of start x
round_of_met start d x h l ne e = ne (omega arith)

-- A run of the scheduler: the states at which it is called, one after the other. In each of them
-- the environment entered last is the current one, under an id that names its index.
pub record Calls (k : ℕ → Cpu) : Type 0 where
  pub count : (n : ℕ) → length (k n).envs ≡ nenv
  pub goes_on : (n i : ℕ) → (sched_rr (k n)).1 ≡ runs i → rr_start (k (suc n)) ≡ i + 1

module _ (k : ℕ → Cpu) (calls : Calls k) (x : ℕ) (bound : x < nenv)
    (ready : (n : ℕ) → at (k n).envs x is_runnable ≡ true) where
  -- One call enters `x`, or some environment nearer than `x`.
  step_towards :
      (n : ℕ)
      → ((sched_rr (k n)).1 ≡ runs x)
        ⊎ (round_of (rr_start (k (suc n))) x < round_of (rr_start (k n)) x)
  step_towards n = go (sched_rr (k n)) refl (sched_rr-RrSpec (k n))
    where
      go :
          (r : Cpu × Outcome)
          → sched_rr (k n) ≡ r
          → RrSpec (k n) r
          → ((sched_rr (k n)).1 ≡ runs x)
            ⊎ (round_of (rr_start (k (suc n))) x < round_of (rr_start (k n)) x)
      go r e (stays c idle cur) = cc (ready n, idle x bound)
      go r e (stops idle cur) = cc (ready n, idle x bound)
      go r e (enters d l f) =
          let start = rr_start (k n) in
          let index = (start + d) % nenv in
          let ran : (sched_rr (k n)).1 ≡ runs index =
            ap (λ (t : Cpu × Outcome). t.1) e
            ∙ (env_run-Entered index (count_run (k n)) (omega (arith, calls.count n))).1 in
          elim (ℕ_discrete index x) [
            | yes p ↦ inl (ran ∙ ap runs p)
            | no ne ↦ elim (dec_lt d (round_of start x)) [
              | yes near ↦
                  inr (rw (calls.goes_on n index ran) (round_of_falls start d x bound near))
              | no far ↦
                  let r' = round_of start x in
                  let (met, small) = round_of_lem start x bound in
                  let apart = round_of_met start d x bound l ne in
                  let skipped = f.missed r' (omega arith) in
                  let z : (start + (0 + r')) % nenv ≡ x = omega arith in
                  let off : at (k n).envs x is_runnable ≡ false = rw (← z) skipped in
                  cc (ready n, off)
            ]
          ]

  wait :
      (m n : ℕ)
      → round_of (rr_start (k n)) x < m
      → (j : ℕ) × (j < m) × ((sched_rr (k (n + j))).1 ≡ runs x)
  wait zero n h = absurd (omega arith)
  wait (suc m) n h = elim (step_towards n) [
    | inl now ↦ (0, omega arith, let z : n + 0 ≡ n = omega arith in rw z now)
    | inr nearer ↦
        let (j, l, e) = wait m (suc n) (omega arith) in
        (suc j, omega arith, let z : n + suc j ≡ suc n + j = omega arith in rw z e)
  ]

  -- An environment that can run at each call is entered within 1024 calls of `sched_rr`, whatever
  -- happens to the others between the calls, so long as the environment entered last is still the
  -- current one at the next call.
  pub sched_rr_fair : (j : ℕ) × (j < nenv) × ((sched_rr (k j)).1 ≡ runs x)
  sched_rr_fair =
      let (j, l, e) = wait nenv 0 (round_of_lem (rr_start (k 0)) x bound).1 in
      (j, l, let z : 0 + j ≡ j = omega arith in rw (← z) e)
