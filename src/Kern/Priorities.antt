-- ===== src/Kern/Priorities.antt =====
-- `sys_get_priority` and `sys_set_priority` of sched/kern/syscall.c.
use sis_ops.Common.{
  ◌⊎◌, ℕ, zero, suc, ◌+◌, ◌≡◌, ◌≢◌, refl, sym, ap, ◌∙◌, inl, inr, List, [], ◌∷◌, some, none,
  if◌then◌else◌, ◌==◌, arith, Bool-cases, ℤ, negsuc, ltb_ℤ, get_elem?, set,
}
use sis_ops.Kern.{Env}
use sis_ops.Kern.Kernel.{Kernel, returns, value, set_env}
use sis_ops.Kern.Syscall.{ok, find_id, sys_set_priority}

-- The first environment with an id, at its index.
abbrev FirstId : List Env → ℕ → ℕ → Env → Type 0
FirstId [] id i e = ⊥
FirstId (d ∷ envs) id zero e = (d ≡ e) × (e.env_id ≡ id)
FirstId (d ∷ envs) id (suc i) e = (d.env_id ≢ id) × FirstId envs id i e

abbrev NoId : List Env → ℕ → Type 0
NoId [] id = Unit {0}
NoId (d ∷ envs) id = (d.env_id ≢ id) × NoId envs id

FirstId-get :
    (envs : List Env) (id i : ℕ) (e : Env) → FirstId envs id i e → get_elem? envs i ≡ some e
FirstId-get [] id i e h = absurd h
FirstId-get (d ∷ envs) id zero e h = ap some h.0
FirstId-get (d ∷ envs) id (suc i) e h = FirstId-get envs id i e h.1

find_id-FirstId :
    (envs : List Env) (id b : ℕ)
    → ((i : ℕ) × (e : Env) × (find_id id envs b ≡ some (b + i, e)) × FirstId envs id i e)
      ⊎ ((find_id id envs b ≡ none) × NoId envs id)
unfolding find_id
find_id-FirstId [] id b = inr (refl, tt)
find_id-FirstId (d ∷ envs) id b = elim (Bool-cases (d.env_id == id)) [
  | inl hit ↦ inl (0, d, rw hit (ap (λ (x : ℕ). some (x, d)) (omega arith)), (refl, ground arith))
  | inr miss ↦
      let ne : d.env_id ≢ id = λ e. ground arith in
      elim (find_id-FirstId envs id (b + 1)) [
        | inl f ↦
            let at : b + 1 + f.0 ≡ b + suc f.0 = omega arith in
            inl (suc f.0, f.1, rw miss (f.2 ∙ ap (λ (x : ℕ). some (x, f.1)) at), (ne, f.3))
        | inr none_there ↦ inr (rw miss none_there.0, (ne, none_there.1))
      ]
]

set-same : (xs : List Env) (i : ℕ) (e : Env) → get_elem? xs i ≡ some e → set xs i e ≡ xs
set-same [] i e h = refl
set-same (x ∷ xs) zero e h = cc
set-same (x ∷ xs) (suc i) e h = ap (λ (t : List Env). x ∷ t) (set-same xs i e h)

abbrev lower : ℤ → ℤ → ℤ
lower p q = if ltb_ℤ p q then p else q

set_priority-at :
    (k : Kernel) (id i : ℕ) (p : ℤ) (e : Env)
    → find_id id k.cpu.envs 0 ≡ some (i, e)
    → get_elem? k.cpu.envs i ≡ some e
    → sys_set_priority k id p ≡ ok (set_env k i (record e { priority = lower p e.priority }))
unfolding sys_set_priority
set_priority-at k id i p e f g =
    let same =
      ap (λ (xs : List Env). record k { cpu = record k.cpu { envs = xs } })
        (set-same k.cpu.envs i e g) in
    elim (Bool-cases (ltb_ℤ p e.priority)) [
      | inl less ↦ ground arith
      | inr not_less ↦
          let kept : e.priority ≡ lower p e.priority = ground arith in
          let stays : sys_set_priority k id p ≡ ok k = ground arith in
          stays
          ∙ ap ok (sym same)
          ∙ ap (λ (q : ℤ). ok (set_env k i (record e { priority = q }))) kept
    ]

-- Whatever environment calls it, `sys_set_priority` gives the first environment with the id the lower
-- of the two priorities, changes nothing else and returns 0; if there is none it returns -1 and
-- changes nothing.
sys_set_priority-lower :
    (k : Kernel) (id : ℕ) (p : ℤ)
    → ((i : ℕ) × (e : Env) × FirstId k.cpu.envs id i e
        × (sys_set_priority k id p ≡ ok (set_env k i (record e { priority = lower p e.priority }))))
      ⊎ (NoId k.cpu.envs id × (sys_set_priority k id p ≡ returns (value (negsuc 0)) k))
sys_set_priority-lower k id p = elim (find_id-FirstId k.cpu.envs id 0) [
  | inl f ↦
      let at : 0 + f.0 ≡ f.0 = omega arith in
      inl (
        f.0,
        f.1,
        f.3,
        set_priority-at k id f.0 p f.1 (f.2 ∙ ap (λ (x : ℕ). some (x, f.1)) at)
            (FirstId-get k.cpu.envs id f.0 f.1 f.3),
      )
  | inr n ↦ inr (n.1, missing k id p n.0)
]
  where
    missing :
        (k : Kernel) (id : ℕ) (p : ℤ)
        → find_id id k.cpu.envs 0 ≡ none
        → sys_set_priority k id p ≡ returns (value (negsuc 0)) k
    missing k id p e = unfold sys_set_priority in ground arith
