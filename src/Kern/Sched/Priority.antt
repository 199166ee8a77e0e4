-- ===== src/Kern/Sched/Priority.antt =====
-- `priority_sched`: what is selected, and what the boost does.
use sis_ops.Common.{
  ℕ, zero, suc, ◌+◌, ◌<◌, ◌≡◌, refl, inl, inr, List, [], ◌∷◌, Option, some, none, true, false,
  arith, Bool-cases, option_eq, get_elem?, ℤ, ◌≤ℤ◌, ◌<ℤ◌, ltb_ℤ,
}
use sis_ops.Kern.{Env}
use sis_ops.Kern.Sched.{is_runnable, select}

-- `p` is the highest priority of a runnable environment, and entry `d` the first that has it.
pub record Highest (envs : List Env) (d : ℕ) (p : ℤ) : Type 0 where
  pub env : Env
  pub found : get_elem? envs d ≡ some env
  pub runnable : is_runnable env.env_status ≡ true
  pub priority : env.priority ≡ p
  pub highest :
      (j : ℕ) (e : Env)
      → get_elem? envs j ≡ some e
      → is_runnable e.env_status ≡ true
      → e.priority ≤ℤ p
  pub first :
      (j : ℕ) (e : Env)
      → j < d
      → get_elem? envs j ≡ some e
      → is_runnable e.env_status ≡ true
      → e.priority <ℤ p

Highest-suc :
    (e : Env) (rest : List Env) (d : ℕ) (p : ℤ)
    → Highest rest d p
    → (is_runnable e.env_status ≡ true → e.priority <ℤ p)
    → Highest (e ∷ rest) (suc d) p
Highest-suc e rest d p h below = record {
  env = h.env;
  found = h.found;
  runnable = h.runnable;
  priority = h.priority;
  highest = all;
  first = before;
}
  where
    all :
        (j : ℕ) (u : Env)
        → get_elem? (e ∷ rest) j ≡ some u
        → is_runnable u.env_status ≡ true
        → u.priority ≤ℤ p
    all zero u q r =
        let z : e ≡ u = option_eq e u q in
        let lt : u.priority <ℤ p = rw (← z) (below (rw z r)) in omega arith
    all (suc j) u q r = h.highest j u q r

    before :
        (j : ℕ) (u : Env)
        → j < suc d
        → get_elem? (e ∷ rest) j ≡ some u
        → is_runnable u.env_status ≡ true
        → u.priority <ℤ p
    before zero u l q r = let z : e ≡ u = option_eq e u q in rw (← z) (below (rw z r))
    before (suc j) u l q r = h.first j u (omega arith) q r

-- No runnable environment has a priority above `p`.
abbrev Below : List Env → ℤ → Type 0
Below envs p =
    (j : ℕ) (e : Env)
    → get_elem? envs j ≡ some e
    → is_runnable e.env_status ≡ true
    → e.priority ≤ℤ p

Below-suc :
    (e : Env) (rest : List Env) (p : ℤ)
    → Below rest p
    → (is_runnable e.env_status ≡ true → e.priority ≤ℤ p)
    → Below (e ∷ rest) p
Below-suc e rest p h here zero u q r = let z : e ≡ u = option_eq e u q in rw (← z) (here (rw z r))
Below-suc e rest p h here (suc j) u q r = h j u q r

Highest-here :
    (e : Env) (rest : List Env)
    → is_runnable e.env_status ≡ true
    → Below rest e.priority
    → Highest (e ∷ rest) 0 e.priority
Highest-here e rest run below = record {
  env = e;
  found = refl;
  runnable = run;
  priority = refl;
  highest = Below-suc e rest e.priority below (λ _. omega arith);
  first = λ j u l. absurd (omega arith);
}

-- The result of the loop from a best so far, `(i0, p0)`.
data From (envs : List Env) (i i0 : ℕ) (p0 : ℤ) : Option (ℕ × ℤ) → Type 0 where
  kept : Below envs p0 → From envs i i0 p0 (some (i0, p0))
  better :
      (d index : ℕ) (p : ℤ)
      → index ≡ i + d
      → p0 <ℤ p
      → Highest envs d p
      → From envs i i0 p0 (some (index, p))

From-raise :
    (e : Env) (rest : List Env) (i i0 : ℕ) (p0 : ℤ) (r : Option (ℕ × ℤ))
    → is_runnable e.env_status ≡ true
    → p0 <ℤ e.priority
    → From rest (i + 1) i e.priority r
    → From (e ∷ rest) i i0 p0 r
From-raise e rest i i0 p0 r run up (kept below) =
    better 0 i e.priority (omega arith) up (Highest-here e rest run below)
From-raise e rest i i0 p0 r run up (better d index p q lt h) =
    better (suc d) index p (omega arith) (omega arith) (Highest-suc e rest d p h (λ _. lt))

From-keep :
    (e : Env) (rest : List Env) (i i0 : ℕ) (p0 : ℤ) (r : Option (ℕ × ℤ))
    → (is_runnable e.env_status ≡ true → e.priority ≤ℤ p0)
    → From rest (i + 1) i0 p0 r
    → From (e ∷ rest) i i0 p0 r
From-keep e rest i i0 p0 r le (kept below) = kept (Below-suc e rest p0 below le)
From-keep e rest i i0 p0 r le (better d index p q lt h) =
    better (suc d) index p (omega arith) lt
      (Highest-suc e rest d p h (λ run. let l = le run in omega arith))

ltb_ℤ→lt : (a b : ℤ) → ltb_ℤ a b ≡ true → a <ℤ b
ltb_ℤ→lt a b h = ground arith

ltb_ℤ→le : (a b : ℤ) → ltb_ℤ a b ≡ false → b ≤ℤ a
ltb_ℤ→le a b h = ground arith

select-From :
    (envs : List Env) (i i0 : ℕ) (p0 : ℤ) → From envs i i0 p0 (select envs i (some (i0, p0)))
unfolding select
select-From [] i i0 p0 = kept (λ j e p. cc)
select-From (e ∷ rest) i i0 p0 = elim (Bool-cases (is_runnable e.env_status)) [
  | inl run ↦ elim (Bool-cases (ltb_ℤ p0 e.priority)) [
    | inl up ↦
        rw (run, up)
          (From-raise e rest i i0 p0 _ run (ltb_ℤ→lt p0 e.priority up)
            (select-From rest (i + 1) i e.priority))
    | inr down ↦
        rw (run, down)
          (From-keep e rest i i0 p0 _ (λ _. ltb_ℤ→le p0 e.priority down)
            (select-From rest (i + 1) i0 p0))
  ]
  | inr idle ↦ rw idle (From-keep e rest i i0 p0 _ (λ run. cc) (select-From rest (i + 1) i0 p0))
]

-- The result of the whole loop.
pub data Selected (envs : List Env) (i : ℕ) : Option (ℕ × ℤ) → Type 0 where
  nothing :
      ((j : ℕ) (e : Env) → get_elem? envs j ≡ some e → is_runnable e.env_status ≡ false)
      → Selected envs i none
  selected :
      (d index : ℕ) (p : ℤ) → index ≡ i + d → Highest envs d p → Selected envs i (some (index, p))

Selected-From :
    (e : Env) (rest : List Env) (i : ℕ) (r : Option (ℕ × ℤ))
    → is_runnable e.env_status ≡ true
    → From rest (i + 1) i e.priority r
    → Selected (e ∷ rest) i r
Selected-From e rest i r run (kept below) =
    selected 0 i e.priority (omega arith) (Highest-here e rest run below)
Selected-From e rest i r run (better d index p q lt h) =
    selected (suc d) index p (omega arith) (Highest-suc e rest d p h (λ _. lt))

Selected-suc :
    (e : Env) (rest : List Env) (i : ℕ) (r : Option (ℕ × ℤ))
    → is_runnable e.env_status ≡ false
    → Selected rest (i + 1) r
    → Selected (e ∷ rest) i r
Selected-suc e rest i r idle (nothing none_of) = nothing all
  where
    all : (j : ℕ) (u : Env) → get_elem? (e ∷ rest) j ≡ some u → is_runnable u.env_status ≡ false
    all zero u q = let z : e ≡ u = option_eq e u q in rw (← z) idle
    all (suc j) u q = none_of j u q
Selected-suc e rest i r idle (selected d index p q h) =
    selected (suc d) index p (omega arith) (Highest-suc e rest d p h (λ run. absurd (cc)))

-- The loop of `priority_sched` selects, of the runnable environments of highest priority, the one
-- of lowest index, and nothing exactly if none is runnable.
pub select-Selected : (envs : List Env) (i : ℕ) → Selected envs i (select envs i none)
unfolding select
select-Selected [] i = nothing (λ j e p. cc)
select-Selected (e ∷ rest) i = elim (Bool-cases (is_runnable e.env_status)) [
  | inl run ↦ rw run (Selected-From e rest i _ run (select-From rest (i + 1) i e.priority))
  | inr idle ↦ rw idle (Selected-suc e rest i _ idle (select-Selected rest (i + 1)))
]
