-- ===== src/Fs/Lookup.antt =====
-- What the searches of the inode table find.
use sis_ops.Common.{
  ℕ, zero, suc, ◌+◌, ◌≡◌, ◌≢◌, refl, sym, List, [], ◌∷◌, some, none, false, inl, inr, arith,
  Bool-cases, str_eq, str_eq→eq, str_eq_refl, get_elem?, All, All-get,
}
use sis_ops.Fs.{Slot, SuperBlock}
use sis_ops.Fs.Path.{index_from}

-- No entry, used or free, bears the name.
abbrev pub Absent : List ℕ → SuperBlock → Type 0
Absent name = All (λ t. t.inode.path ≢ name)

-- Names other than the empty one stand in one entry at most.
abbrev pub Distinct : SuperBlock → Type 0
Distinct [] = Unit
Distinct (s ∷ rest) = (s.inode.path ≢ [] → Absent s.inode.path rest) × Distinct rest

-- Entry `i` bears the name.
pub record At (name : List ℕ) (s : SuperBlock) (i : ℕ) : Type 0 where
  pub slot : Slot
  pub found : get_elem? s i ≡ some slot
  pub named : slot.inode.path ≡ name

str_eq-ne : (s t : List ℕ) → s ≢ t → str_eq s t ≡ false
str_eq-ne s t ne = elim (Bool-cases (str_eq s t)) [
  | inl e ↦ absurd (ne (str_eq→eq s t e))
  | inr e ↦ e
]

pub index_from-At :
    (name : List ℕ) (i : ℕ) (s : SuperBlock) (k : ℕ)
    → index_from name i s ≡ some k
    → (d : ℕ) × (k ≡ i + d) × At name s d
unfolding index_from
index_from-At name i [] k e = cc
index_from-At name i (s ∷ rest) k e = elim (Bool-cases (str_eq name s.inode.path)) [
  | inl hit ↦ (
    0,
    ground arith,
    record { slot = s; found = refl; named = sym (str_eq→eq name s.inode.path hit) },
  )
  | inr miss ↦
      let (d, p, at_d) = index_from-At name (i + 1) rest k (ground arith) in
      (suc d, omega arith, record { slot = at_d.slot; found = at_d.found; named = at_d.named })
]

index_from-Absent :
    (name : List ℕ) (i : ℕ) (s : SuperBlock) → index_from name i s ≡ none → Absent name s
unfolding index_from
index_from-Absent name i [] e = tt
index_from-Absent name i (s ∷ rest) e =
    (λ p. ground (arith, str_eq_refl name), ground (arith, index_from-Absent name (i + 1) rest))

pub index_from-none :
    (name : List ℕ) (i : ℕ) (s : SuperBlock) → Absent name s → index_from name i s ≡ none
unfolding index_from
index_from-none name i [] h = refl
index_from-none name i (s ∷ rest) h =
    ground
      (arith, str_eq-ne name s.inode.path (λ e. h.0 (sym e)), index_from-none name (i + 1) rest h.1)

pub Absent-ne : (name : List ℕ) (s : SuperBlock) (i : ℕ) → Absent name s → ¬ At name s i
Absent-ne name s i h a = All-get (λ t. t.inode.path ≢ name) s i a.slot h a.found a.named

-- In a table of distinct names the search finds the entry that there is.
pub At-index_from :
    (name : List ℕ) (i : ℕ) (s : SuperBlock) (d : ℕ)
    → Distinct s
    → name ≢ []
    → At name s d
    → index_from name i s ≡ some (i + d)
unfolding index_from
At-index_from name i [] d ds ne a = absurd (cc (a.found))
At-index_from name i (s ∷ rest) zero ds ne a = ground (arith, str_eq_refl name, a.found, a.named)
At-index_from name i (s ∷ rest) (suc d) ds ne a =
    let a' : At name rest d = record { slot = a.slot; found = a.found; named = a.named } in
    elim (Bool-cases (str_eq name s.inode.path)) [
      | inl hit ↦
          let e = str_eq→eq name s.inode.path hit in
          absurd (
            Absent-ne s.inode.path rest d (ds.0 (λ p. ne (cc)))
              (record { slot = a.slot; found = a.found; named = cc }))
      | inr miss ↦ ground (arith, At-index_from name (i + 1) rest d ds.1 ne a')
    ]
