-- ===== src/Fs/FreeEntry.antt =====
-- What `next_free_inodo` returns, on every branch.
use sis_ops.Common.{
  ℕ, suc, ◌+◌, ◌≡◌, ◌≢◌, refl, List, [], ◌∷◌, Option, some, none, Bool, true, false, inl, inr,
  arith, Bool-cases, Option-cases, str_eq, str_eq→eq, str_eq_refl, get_elem?, take, All, ◌==◌,
}
use sis_ops.Fs.{Slot, SuperBlock, Reply, ok, err, eexist, enospc}
use sis_ops.Fs.Table.{scan_free, next_free_inodo, keep_first}
use sis_ops.Fs.Lookup.{Absent, At}

-- Entry `i` is the first one that the bitmap has free.
pub record FirstFree (s : SuperBlock) (i : ℕ) : Type 0 where
  pub slot : Slot
  pub found : get_elem? s i ≡ some slot
  pub free : slot.used ≡ 0
  pub first : All (λ t. t.used ≢ 0) (take i s)

-- The three results: the name is taken, the table is full, or the first free entry.
pub data FreeSpec (name : List ℕ) (s : SuperBlock) : Reply → Type 0 where
  taken : (i : ℕ) → At name s i → FreeSpec name s (err eexist)
  full : Absent name s → All (λ t. t.used ≢ 0) s → FreeSpec name s (err enospc)
  free : (i : ℕ) → Absent name s → FirstFree s i → FreeSpec name s (ok i)

abbrev IsFalse : Bool → Type 0
IsFalse b = b ≡ false

scan-taken :
    (name : List ℕ) (i : ℕ) (next : Option ℕ) (s : SuperBlock)
    → (scan_free name i next s).0 ≡ true
    → (d : ℕ) × At name s d
unfolding scan_free
scan-taken name i next [] e = cc
scan-taken name i next (s ∷ rest) e = elim (Bool-cases (str_eq s.inode.path name)) [
  | inl hit ↦ (0, record { slot = s; found = refl; named = str_eq→eq s.inode.path name hit })
  | inr miss ↦
      let (d, a) = scan-taken name (i + 1) (keep_first next i s) rest (ground arith) in
      (suc d, record { slot = a.slot; found = a.found; named = a.named })
]

scan-Absent :
    (name : List ℕ) (i : ℕ) (next : Option ℕ) (s : SuperBlock)
    → IsFalse (scan_free name i next s).0
    → Absent name s
unfolding scan_free
scan-Absent name i next [] e = tt
scan-Absent name i next (s ∷ rest) e = elim (Bool-cases (str_eq s.inode.path name)) [
  | inl hit ↦ absurd (ground arith)
  | inr miss ↦ (
    λ p. ground (arith, str_eq_refl name),
    scan-Absent name (i + 1) (keep_first next i s) rest (ground arith),
  )
]

scan-kept : (name : List ℕ) (i k : ℕ) (s : SuperBlock) → (scan_free name i (some k) s).1 ≡ some k
unfolding scan_free
scan-kept name i k [] = refl
scan-kept name i k (s ∷ rest) = ground (arith, scan-kept name (i + 1) k rest)

scan-none :
    (name : List ℕ) (i : ℕ) (s : SuperBlock)
    → IsFalse (scan_free name i none s).0
    → (scan_free name i none s).1 ≡ none
    → All (λ t. t.used ≢ 0) s
unfolding scan_free
scan-none name i [] e p = tt
scan-none name i (s ∷ rest) e p = elim (Bool-cases (str_eq s.inode.path name)) [
  | inl hit ↦ absurd (ground arith)
  | inr miss ↦ elim (Bool-cases (s.used == 0)) [
    | inl vacant ↦ absurd (ground (arith, scan-kept name (i + 1) i rest))
    | inr busy ↦ (ground arith, scan-none name (i + 1) rest (ground arith) (ground arith))
  ]
]

scan-some :
    (name : List ℕ) (i k : ℕ) (s : SuperBlock)
    → IsFalse (scan_free name i none s).0
    → (scan_free name i none s).1 ≡ some k
    → (d : ℕ) × (k ≡ i + d) × FirstFree s d
unfolding scan_free
scan-some name i k [] e p = cc
scan-some name i k (s ∷ rest) e p = elim (Bool-cases (str_eq s.inode.path name)) [
  | inl hit ↦ absurd (ground arith)
  | inr miss ↦ elim (Bool-cases (s.used == 0)) [
    | inl vacant ↦ (
      0,
      ground (arith, scan-kept name (i + 1) i rest),
      record { slot = s; found = refl; free = ground arith; first = tt },
    )
    | inr busy ↦
        let (d, q, f) = scan-some name (i + 1) k rest (ground arith) (ground arith) in
        (
          suc d,
          omega arith,
          record { slot = f.slot; found = f.found; free = f.free; first = (ground arith, f.first) },
        )
  ]
]

-- `next_free_inodo` returns EEXIST if some entry of the table, used or free, bears the name, ENOSPC
-- if none does and every entry is in use, and else the index of the first entry not in use.
pub next_free_inodo-FreeSpec :
    (name : List ℕ) (s : SuperBlock) → FreeSpec name s (next_free_inodo name s)
unfolding next_free_inodo
next_free_inodo-FreeSpec name s = elim (Bool-cases (scan_free name 0 none s).0) [
  | inl hit ↦ let (d, a) = scan-taken name 0 none s hit in rw hit (taken d a)
  | inr miss ↦ elim (Option-cases (scan_free name 0 none s).1) [
    | inl e ↦ rw (miss, e) (full (scan-Absent name 0 none s miss) (scan-none name 0 s miss e))
    | inr (k, e) ↦
        let (d, q, f) = scan-some name 0 k s miss e in
        let k_d : k ≡ d = omega arith in
        rw (miss, e, k_d) (free d (scan-Absent name 0 none s miss) f)
  ]
]
