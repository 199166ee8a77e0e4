-- ===== src/Kern/Links.antt =====
-- Lists that run through the entries of a table, as `page_free_list` and `env_free_list` do.
use sis_ops.Common.{
  ℕ, ◌<◌, ◌≡◌, ◌≢◌, refl, sym, ◌∙◌, List, [], ◌∷◌, Option, some, none, length, get_elem?, set,
  get_elem?-set_self, get_elem?-set_ne, All,
}

module _ {A : Type 0} (link : A → Option ℕ) where
  -- The links lead from the head through just these entries, then to null.
  abbrev pub Chain : List A → Option ℕ → List ℕ → Type 0
  Chain xs head [] = head ≡ none
  Chain xs head (i ∷ is) =
      (head ≡ some i) × (a : A) × (get_elem? xs i ≡ some a) × Chain xs (link a) is

  -- An entry that is not in the list may change.
  pub Chain-set :
      (xs : List A) (head : Option ℕ) (is : List ℕ) (j : ℕ) (v : A)
      → All (λ i. i ≢ j) is
      → Chain xs head is
      → Chain (set xs j v) head is
  Chain-set xs head [] j v ne h = h
  Chain-set xs head (i ∷ is) j v ne h = (
    h.0,
    h.1,
    get_elem?-set_ne xs v (λ e. ne.0 (sym e)) ∙ h.2,
    Chain-set xs (link h.1) is j v ne.1 h.3,
  )

  -- An entry whose link is the head is put before the list.
  pub Chain-push :
      (xs : List A) (head : Option ℕ) (is : List ℕ) (j : ℕ) (v : A)
      → j < length xs
      → link v ≡ head
      → All (λ i. i ≢ j) is
      → Chain xs head is
      → Chain (set xs j v) (some j) (j ∷ is)
  Chain-push xs head is j v h e ne c =
      (refl, v, get_elem?-set_self xs j v h, rw e (Chain-set xs head is j v ne c))

-- No entry twice.
abbrev pub Distinct : List ℕ → Type 0
Distinct [] = Unit {0}
Distinct (i ∷ is) = All (λ j. j ≢ i) is × Distinct is
