-- ===== src/Fs/Names.antt =====
-- The names that `remove_slash` and `get_path_padre` cut out of a path.
use sis_ops.Common.{
  ℕ, ◌+◌, ◌<◌, ◌≤◌, ◌≡◌, ◌≢◌, List, [], ◌∷◌, ap, some, none, inl, inr, arith, Option-cases, All,
  length, drop, after_last, before_last,
}
use sis_ops.Fs.{Sys, slash, root_path, max_path}
use sis_ops.Fs.Path.{str, remove_slash, get_path_padre}
use sis_ops.Fs.Ops.{or_root}

abbrev pub NoByte : ℕ → List ℕ → Type 0
NoByte d = All (λ c. c ≢ d)

after_last-none : (d : ℕ) (s : List ℕ) → after_last d s ≡ none → NoByte d s
unfolding after_last
after_last-none d [] e = tt
after_last-none d (c ∷ r) e = elim (Option-cases (after_last d r)) [
  | inl p ↦ (ground arith, after_last-none d r p)
  | inr (t, p) ↦ absurd (ground arith)
]

after_last-NoByte : (d : ℕ) (s t : List ℕ) → after_last d s ≡ some t → NoByte d t
unfolding after_last
after_last-NoByte d [] t e = cc
after_last-NoByte d (c ∷ r) t e = elim (Option-cases (after_last d r)) [
  | inl p ↦ let q : r ≡ t = ground arith in rw (← q) (after_last-none d r p)
  | inr (u, p) ↦ after_last-NoByte d r t (ground arith)
]

-- The name cut out of a path has no slash.
pub remove_slash-NoByte :
    (sys : Sys) (path name : List ℕ) → remove_slash sys path ≡ str name → NoByte slash name
unfolding remove_slash
remove_slash-NoByte sys [] name e = cc
remove_slash-NoByte sys (c ∷ r) name e = elim (Option-cases (after_last slash (c ∷ r))) [
  | inl p ↦ let q : r ≡ name = ground arith in rw (← q) (after_last-none slash (c ∷ r) p).1
  | inr (u, p) ↦ let q : u ≡ name = ground arith in rw (← q) (after_last-NoByte slash (c ∷ r) u p)
]

pub root_path-name : (sys : Sys) (name : List ℕ) → remove_slash sys root_path ≡ str name → name ≡ []
unfolding remove_slash after_last
root_path-name sys name e = ground arith

length-before_last : (d : ℕ) (s t : List ℕ) → before_last d s ≡ some t → length t < length s
unfolding before_last
length-before_last d [] t e = cc
length-before_last d (c ∷ r) t e = elim (Option-cases (before_last d r)) [
  | inl p ↦ let q : t ≡ [] = ground arith in rw q (omega arith)
  | inr (u, p) ↦
      let q : t ≡ c ∷ u = ground arith in omega (arith, ap length q, length-before_last d r u p)
]

length-get_path_padre : (p : List ℕ) → length (get_path_padre p) ≤ length p
unfolding get_path_padre
length-get_path_padre p = elim (Option-cases (before_last slash p)) [
  | inl e ↦ rw (e, get_path_padre) (omega arith)
  | inr (u, e) ↦ rw (e, get_path_padre) (omega (arith, length-before_last slash p u e))
]

length-or_root : (p : List ℕ) → length (or_root p) ≤ length p + 1
length-or_root [] = omega arith
length-or_root (c ∷ p) = omega arith

length-drop_one : (p : List ℕ) → length (drop 1 p) ≤ length p
length-drop_one [] = omega arith
length-drop_one (c ∷ p) = omega arith

length-or_root_lt : (p : List ℕ) (n : ℕ) → length p < n → 1 < n → length (or_root p) < n
length-or_root_lt [] n h k = omega arith
length-or_root_lt (c ∷ p) n h k = h

-- The parent of a path that fits is shorter than its array.
pub length-parent :
    (c : ℕ) (rest : List ℕ)
    → length (c ∷ rest) ≤ max_path
    → length (or_root (get_path_padre (drop 1 (c ∷ rest)))) < max_path
length-parent c rest h =
    length-or_root_lt (get_path_padre rest) max_path (omega (arith, length-get_path_padre rest))
      (omega arith)
