-- ===== src/Strings/Memory.antt =====
-- `memmove`, `memcpy`, `memset`, `memcmp` and `memfind` of sched/lib/string.c. The memory is a function of
-- the address; a range does not wrap round the end of the address space.
use mathlib.Core.Path.{subst}
use sis_ops.Common.{
  ℕ, zero, suc, ◌+◌, ◌-◌, ◌*◌, ◌/◌, ◌%◌, ◌≤◌, ◌≡◌, ◌⊎◌, ap, ◌∙◌, inl, inr, Bool, false, ◌&&◌,
  if◌then◌else◌, ◌==◌, ltb, leb, arith, Bool-cases,
}

abbrev pub Store : Type 0
Store = ℕ → ℕ

-- One step of `movsb` or `movsl`: `u` bytes are read, and then written.
abbrev move_unit : ℕ → ℕ → ℕ → Store → Store
move_unit u d s m = λ a. if leb d a && ltb a (d + u) then m (s + (a - d)) else m a

-- `cld; rep movs`, for a count of units.
forward : ℕ → ℕ → ℕ → ℕ → Store → Store
forward u zero d s m = m
forward u (suc k) d s m = forward u k (d + u) (s + u) (move_unit u d s m)

-- `std; rep movs`, from the last unit down.
backward : ℕ → ℕ → ℕ → ℕ → Store → Store
backward u zero d s m = m
backward u (suc k) d s m = backward u k d s (move_unit u (d + k * u) (s + k * u) m)

abbrev aligned : ℕ → ℕ → ℕ → Bool
aligned s d n = s % 4 == 0 && (d % 4 == 0 && n % 4 == 0)

pub memmove : ℕ → ℕ → ℕ → Store → Store
unfolding forward backward
memmove d s n m =
    if ltb s d && ltb d (s + n)
    then (if aligned (s + n) (d + n) n then backward 4 (n / 4) d s m else backward 1 n d s m)
    else if aligned s d n
    then forward 4 (n / 4) d s m
    else forward 1 n d s m

unfoldable memcpy : ℕ → ℕ → ℕ → Store → Store
unfolding memmove
memcpy d s n m = memmove d s n m

-- The bytes of the source, as they were, at the destination.
abbrev pub Moved : ℕ → ℕ → ℕ → Store → Store → Type 0
Moved d s n m m' = (a : ℕ) → m' a ≡ (if leb d a && ltb a (d + n) then m (s + (a - d)) else m a)

Moved-suc_down :
    (n u d s a : ℕ) (m : Store)
    → s ≤ d
    → (if leb d a && ltb a (d + n)
        then move_unit u (d + n) (s + n) m (s + (a - d))
        else move_unit u (d + n) (s + n) m a)
      ≡ (if leb d a && ltb a (d + (n + u)) then m (s + (a - d)) else m a)
Moved-suc_down n u d s a m h = ground arith

Moved-suc_up :
    (n u d s a : ℕ) (m : Store)
    → (d ≤ s) ⊎ (s + (n + u) ≤ d)
    → (if leb (d + u) a && ltb a (d + u + n)
        then move_unit u d s m (s + u + (a - (d + u)))
        else move_unit u d s m a)
      ≡ (if leb d a && ltb a (d + (n + u)) then m (s + (a - d)) else m a)
Moved-suc_up n u d s a m h = ground arith

units_suc : (k u : ℕ) → k * u + u ≡ suc k * u
units_suc k u = omega arith

backward-Moved : (k u d s : ℕ) (m : Store) → s ≤ d → Moved d s (k * u) m (backward u k d s m)
unfolding backward
backward-Moved zero u d s m h a = ground arith
backward-Moved (suc k) u d s m h a =
    backward-Moved k u d s (move_unit u (d + k * u) (s + k * u) m) h a
    ∙ Moved-suc_down (k * u) u d s a m h
    ∙ ap (λ (n : ℕ). if leb d a && ltb a (d + n) then m (s + (a - d)) else m a) (units_suc k u)

forward-Moved :
    (k u d s : ℕ) (m : Store) → (d ≤ s) ⊎ (s + k * u ≤ d) → Moved d s (k * u) m (forward u k d s m)
unfolding forward
forward-Moved zero u d s m h a = ground arith
forward-Moved (suc k) u d s m h a =
    forward-Moved k u (d + u) (s + u) (move_unit u d s m) later a
    ∙ Moved-suc_up (k * u) u d s a m apart
    ∙ ap (λ (n : ℕ). if leb d a && ltb a (d + n) then m (s + (a - d)) else m a) (units_suc k u)
  where
    apart : (d ≤ s) ⊎ (s + (k * u + u) ≤ d)
    apart = elim h [ inl x ↦ inl x | inr x ↦ inr (omega (arith, units_suc k u)) ]

    later : (d + u ≤ s + u) ⊎ (s + u + k * u ≤ d + u)
    later = elim h [ inl x ↦ inl (omega arith) | inr x ↦ inr (omega (arith, units_suc k u)) ]

-- `memmove` moves the bytes of a range as they were before, however the ranges overlap, and whether it
-- goes by words or by bytes; the rest of the memory stays.
pub memmove-Moved : (d s n : ℕ) (m : Store) → Moved d s n m (memmove d s n m)
unfolding memmove
memmove-Moved d s n m = elim (Bool-cases (ltb s d && ltb d (s + n))) [
  | inl down ↦ elim (Bool-cases (aligned (s + n) (d + n) n)) [
    | inl by_words ↦
        rw (down, by_words)
          (subst (λ (x : ℕ). Moved d s x m (backward 4 (n / 4) d s m)) (ground arith)
            (backward-Moved (n / 4) 4 d s m (ground arith)))
    | inr by_bytes ↦
        rw (down, by_bytes)
          (subst (λ (x : ℕ). Moved d s x m (backward 1 n d s m)) (omega arith)
            (backward-Moved n 1 d s m (ground arith)))
  ]
  | inr up ↦ elim (Bool-cases (aligned s d n)) [
    | inl by_words ↦
        rw (up, by_words)
          (subst (λ (x : ℕ). Moved d s x m (forward 4 (n / 4) d s m)) (ground arith)
            (forward-Moved (n / 4) 4 d s m (apart_of (n / 4 * 4) (ground arith) up)))
    | inr by_bytes ↦
        rw (up, by_bytes)
          (subst (λ (x : ℕ). Moved d s x m (forward 1 n d s m)) (omega arith)
            (forward-Moved n 1 d s m (apart_of (n * 1) (omega arith) up)))
  ]
]
  where
    apart_of : (x : ℕ) → x ≡ n → (ltb s d && ltb d (s + n)) ≡ false → (d ≤ s) ⊎ (s + x ≤ d)
    apart_of x e up = elim (Bool-cases (ltb s d)) [
      | inl below ↦ inr (ground arith)
      | inr above ↦ inl (ground arith)
    ]
