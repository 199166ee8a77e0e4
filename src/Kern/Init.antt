-- ===== src/Kern/Init.antt =====
-- The free list that `env_init` of sched/kern/env.c makes.
use sis_ops.Common.{
  ℕ, suc, ◌+◌, ◌<◌, ◌≡◌, ◌≢◌, refl, ap, ◌∙◌, List, [], ◌∷◌, some, none, arith, get_elem?, All,
}
use sis_ops.Kern.{Env}
use sis_ops.Kern.Links.{Chain, Distinct}
use sis_ops.Kern.Envs.{init_env, init_from, env_init}
use sis_ops.Kern.Ids.{Spare, env_link_of}

-- The indices of a list, from `i` on.
indices : {A : Type 0} → ℕ → List A → List ℕ
indices i [] = []
indices i (e ∷ es) = i ∷ indices (i + 1) es

indices-later : {A : Type 0} → (i j : ℕ) (es : List A) → i < j → All (λ k. k ≢ i) (indices j es)
unfolding indices
indices-later i j [] h = tt
indices-later i j (e ∷ es) h = (omega arith, indices-later i (j + 1) es (omega arith))

indices-Distinct : {A : Type 0} → (i : ℕ) (es : List A) → Distinct (indices i es)
unfolding indices
indices-Distinct i [] = tt
indices-Distinct i (e ∷ es) =
    (indices-later i (i + 1) es (omega arith), indices-Distinct (i + 1) es)

shift : (i k : ℕ) → i + 1 + k ≡ i + suc k
shift i k = omega arith

init_from-Chain :
    (xs : List Env) (i : ℕ) (e : Env) (es : List Env)
    → ((k : ℕ) → get_elem? xs (i + k) ≡ get_elem? (init_from i (e ∷ es)) k)
    → Chain env_link_of xs (some i) (indices i (e ∷ es))
unfolding indices init_from
init_from-Chain xs i e [] h =
    let z : i ≡ i + 0 = omega arith in (refl, init_env none e, ap (get_elem? xs) z ∙ h 0, refl)
init_from-Chain xs i e (d ∷ es) h =
    let z : i ≡ i + 0 = omega arith in
    (
      refl,
      init_env (some (i + 1)) e,
      ap (get_elem? xs) z ∙ h 0,
      init_from-Chain xs (i + 1) d es (λ k. ap (get_elem? xs) (shift i k) ∙ h (suc k)),
    )

-- After `env_init` every entry is free, and they are handed out in the order of their indices.
env_init-Spare : (e : Env) (es : List Env) → Spare (env_init (e ∷ es)) (indices 0 (e ∷ es))
unfolding env_init
env_init-Spare e es = record {
  chain =
      init_from-Chain (init_from 0 (e ∷ es)) 0 e es
        (λ k. ap (get_elem? (init_from 0 (e ∷ es))) (z k));
  distinct = indices-Distinct 0 (e ∷ es);
}
  where
    z : (k : ℕ) → 0 + k ≡ k
    z k = omega arith
